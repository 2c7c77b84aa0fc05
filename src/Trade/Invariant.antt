-- ===== src/Trade/Invariant.antt =====
-- Partners point to each other, and `tradeItems` lists exactly the items that are offered.
use odirion_mmoserver.Base.{
  ℕ, ◌≡◌, ◌≢◌, ◌⊎◌, ◌↔◌, refl, sym, ap, ◌∙◌, inl, inr, true, false, Option, none, some, List, [],
  ◌∷◌, arith, ◌==◌, if◌then◌else◌, update, Bool-cases, Option-cases,
}
use odirion_mmoserver.Trade.{
  World, Trader, is_none, is_transfer, is_acknowledge, points_at, find_item, erase_item, set_item,
  release, idle, close_trade,
}

pub record IsTrade (w : World) : Type 0 where
  pub partners :
      (p q : ℕ)
      → (w.traders p).trade_partner ≡ some q
      → ((w.traders q).trade_partner ≡ some p) × (p ≢ q)
  pub alone :
      (p : ℕ) → is_none (w.traders p).trade_state ≡ true → (w.traders p).trade_partner ≡ none
  pub busy : (p : ℕ) → (w.traders p).trade_partner ≡ none → is_none (w.traders p).trade_state ≡ true
  pub empty_handed :
      (p : ℕ) → is_none (w.traders p).trade_state ≡ true → (w.traders p).trade_item ≡ none
  pub unoffered :
      (p : ℕ) → is_acknowledge (w.traders p).trade_state ≡ true → (w.traders p).trade_item ≡ none
  pub settled : (p : ℕ) → is_transfer (w.traders p).trade_state ≡ false
  pub recorded : (p i : ℕ) → (w.traders p).trade_item ≡ some i → find_item i w.trade_items ≡ some p
  pub owned : (p i : ℕ) → find_item i w.trade_items ≡ some p → (w.traders p).trade_item ≡ some i

pub find_item-erase_item :
    (i j : ℕ) (m : List (ℕ × ℕ))
    → find_item j (erase_item i m) ≡ (if i == j then none else find_item j m)
unfolding find_item erase_item
find_item-erase_item i j [] = ground arith
find_item-erase_item i j ((k, p) ∷ m) = ground (arith, find_item-erase_item i j m)

pub find_item-set_item :
    (i j p : ℕ) (m : List (ℕ × ℕ))
    → find_item j (set_item i p m) ≡ (if i == j then some p else find_item j m)
unfolding find_item set_item
find_item-set_item i j p m = ground (arith, find_item-erase_item i j m)

-- A player is one of two, or neither.
pub one_of : (p q r : ℕ) → (r ≡ p) ⊎ (r ≡ q) ⊎ ((r ≢ p) × (r ≢ q))
one_of p q r = ground arith

-- What remains when two partners have let go of each other and of their items.
pub record IsCleared (w w' : World) (p q : ℕ) : Type 0 where
  pub first : w'.traders p ≡ idle
  pub second : w'.traders q ≡ idle
  pub others : (r : ℕ) → r ≢ p → r ≢ q → w'.traders r ≡ w.traders r
  pub kept :
      (i r : ℕ)
      → r ≢ p
      → r ≢ q
      → find_item i w.trade_items ≡ some r
      → find_item i w'.trade_items ≡ some r
  pub left :
      (i r : ℕ)
      → find_item i w'.trade_items ≡ some r
      → (find_item i w.trade_items ≡ some r) × (r ≢ p) × (r ≢ q)

-- Each player has let go or is as before.
IsCleared-cases :
    (w w' : World) (p q r : ℕ)
    → IsCleared w w' p q
    → (w'.traders r ≡ idle) ⊎ ((w'.traders r ≡ w.traders r) × (r ≢ p) × (r ≢ q))
IsCleared-cases w w' p q r c = elim (one_of p q r) [
  | inl a ↦ inl (ap (w'.traders) a ∙ c.first)
  | inr (inl b) ↦ inl (ap (w'.traders) b ∙ c.second)
  | inr (inr n) ↦ inr (c.others r (n.0) (n.1), n.0, n.1)
]

pub IsTrade-IsCleared :
    (w w' : World) (p q : ℕ)
    → IsTrade w
    → (w.traders p).trade_partner ≡ some q
    → IsCleared w w' p q
    → IsTrade w'
unfolding is_none is_transfer is_acknowledge
IsTrade-IsCleared w w' p q h e c = record {
  partners = λ r s f. elim (IsCleared-cases w w' p q r c) [
    | inl a ↦ cc
    | inr (same, np, nq) ↦
        let g = h.partners r s (ap (λ t. t.trade_partner) (sym same) ∙ f) in
        let back = h.partners p q e in
        let sp : s ≢ p = λ k. nq (ground (arith, e, g.0)) in
        let sq : s ≢ q = λ k. np (ground (arith, back.0, g.0)) in
        (ap (λ t. t.trade_partner) (c.others s sp sq) ∙ g.0, g.1)
  ];
  alone = λ r f. elim (IsCleared-cases w w' p q r c) [
    | inl a ↦ ap (λ t. t.trade_partner) a
    | inr (same, np, nq) ↦ rw same (h.alone r (rw (sym same) f))
  ];
  busy = λ r f. elim (IsCleared-cases w w' p q r c) [
    | inl a ↦ rw a refl
    | inr (same, np, nq) ↦ rw same (h.busy r (rw (sym same) f))
  ];
  empty_handed = λ r f. elim (IsCleared-cases w w' p q r c) [
    | inl a ↦ ap (λ t. t.trade_item) a
    | inr (same, np, nq) ↦ rw same (h.empty_handed r (rw (sym same) f))
  ];
  unoffered = λ r f. elim (IsCleared-cases w w' p q r c) [
    | inl a ↦ ap (λ t. t.trade_item) a
    | inr (same, np, nq) ↦ rw same (h.unoffered r (rw (sym same) f))
  ];
  settled = λ r. elim (IsCleared-cases w w' p q r c) [
    | inl a ↦ rw a refl
    | inr (same, np, nq) ↦ rw same (h.settled r)
  ];
  recorded = λ r i f. elim (IsCleared-cases w w' p q r c) [
    | inl a ↦ cc
    | inr (same, np, nq) ↦ c.kept i r np nq (h.recorded r i (ap (λ t. t.trade_item) (sym same) ∙ f))
  ];
  owned = λ r i f.
      let l = c.left i r f in ap (λ t. t.trade_item) (c.others r (l.1) (l.2)) ∙ h.owned r i (l.0);
}

-- Releasing what two players offer takes their entries from the map, and no others.
find_item-release :
    (i : ℕ) (o : Option ℕ) (m : List (ℕ × ℕ))
    → find_item i (release o m) ≡ (if points_at o i then none else find_item i m)
unfolding release points_at
find_item-release i none m = refl
find_item-release i (some j) m = find_item-erase_item j i m

points_at-some : (o : Option ℕ) (i : ℕ) → (points_at o i ≡ true) ↔ (o ≡ some i)
unfolding points_at
points_at-some none i = ground arith
points_at-some (some j) i = ground arith

points_at-other :
    (w : World) (p i r : ℕ)
    → IsTrade w
    → find_item i w.trade_items ≡ some r
    → r ≢ p
    → points_at (w.traders p).trade_item i ≡ false
points_at-other w p i r h g ne = elim (Bool-cases (points_at (w.traders p).trade_item i)) [
  | inr n ↦ n
  | inl y ↦
      let found : find_item i w.trade_items ≡ some p =
        h.recorded p i ((points_at-some (w.traders p).trade_item i).0 y) in
      absurd (ne (ground (arith, found, g)))
]

points_at-left :
    (i r : ℕ) (o : Option ℕ) (m : List (ℕ × ℕ))
    → find_item i (release o m) ≡ some r
    → (points_at o i ≡ false) × (find_item i m ≡ some r)
points_at-left i r o m g =
    let k : (if points_at o i then none else find_item i m) ≡ some r =
      sym (find_item-release i o m) ∙ g in
    ground (arith, k)

points_at-owner :
    (w : World) (p i r : ℕ)
    → IsTrade w
    → find_item i w.trade_items ≡ some r
    → points_at (w.traders p).trade_item i ≡ false
    → r ≢ p
points_at-owner w p i r h g other k =
    let mine : (w.traders p).trade_item ≡ some i = h.owned p i (g ∙ ap some k) in
    let yes : points_at (w.traders p).trade_item i ≡ true =
      (points_at-some (w.traders p).trade_item i).1 mine in
    absurd (ground (arith, other, yes))

-- The two players let go, whatever else their states were.
pub released-IsTrade :
    (w : World) (f : ℕ → Trader) (p q : ℕ)
    → IsTrade w
    → (w.traders p).trade_partner ≡ some q
    → ((r : ℕ) → r ≢ p → r ≢ q → f r ≡ w.traders r)
    → f p ≡ idle
    → f q ≡ idle
    → IsTrade (record {
      traders = f;
      trade_items =
          release (w.traders q).trade_item (release (w.traders p).trade_item w.trade_items);
    })
released-IsTrade w f p q h e others first second = IsTrade-IsCleared w _ p q h e (record {
  first = first;
  second = second;
  others = others;
  kept = λ i r np nq g.
      rw
        (
          find_item-release i (w.traders q).trade_item
              (release (w.traders p).trade_item w.trade_items),
          points_at-other w q i r h g nq,
          find_item-release i (w.traders p).trade_item w.trade_items,
          points_at-other w p i r h g np,
        )
        g;
  left = λ i r g.
      let o =
        points_at-left i r (w.traders q).trade_item (release (w.traders p).trade_item w.trade_items)
          g in
      let l = points_at-left i r (w.traders p).trade_item w.trade_items (o.1) in
      (
        l.1,
        (λ k. points_at-owner w p i r h (l.1) (l.0) k),
        (λ k. points_at-owner w q i r h (l.1) (o.0) k),
      );
})

idle_of :
    (t : Trader)
    → is_none t.trade_state ≡ true
    → t.trade_partner ≡ none
    → t.trade_item ≡ none
    → t ≡ idle
unfolding is_none
idle_of t a b c = ground arith

update_same : (f : ℕ → Trader) (p : ℕ) (t : Trader) → f p ≡ t → (r : ℕ) → update f p t r ≡ f r
update_same f p t e r = elim (Bool-cases (p == r)) [
  | inl y ↦ let k : p ≡ r = ground arith in rw y (sym e ∙ ap f k)
  | inr n ↦ rw n refl
]

-- Closing a trade keeps the invariant.
pub close_trade-IsTrade : (w : World) (player : ℕ) → IsTrade w → IsTrade (close_trade player w)
unfolding close_trade release
close_trade-IsTrade w player h = elim (Option-cases (w.traders player).trade_partner) [
  | inl e ↦
      let still : is_transfer (w.traders player).trade_state ≡ false = h.settled player in
      let idle_state = h.busy player e in
      let nothing : (w.traders player).trade_item ≡ none = h.empty_handed player idle_state in
      let same : update w.traders player idle ≡ w.traders =
        λ i r. update_same w.traders player idle (idle_of _ idle_state e nothing) r i in
      rw (e, close_trade) (rw (still, nothing, release, same) h)
  | inr (partner, e) ↦
      let ne : player ≢ partner = (h.partners player partner e).1 in
      let apart : (player == partner) ≡ false = ground arith in
      rw (e, close_trade)
        (rw (h.settled partner, h.settled player, apart)
          (released-IsTrade w _ player partner h e (λ r np nq. ground arith) (ground arith)
            (ground arith)))
]
