-- ===== src/Trade/Starting.antt =====
-- Offering an item keeps the invariant of the trades.
use odirion_mmoserver.Base.{
  ℕ, ◌≡◌, ◌≢◌, ◌⊎◌, refl, sym, ap, ◌∙◌, inl, inr, true, false, none, some, arith, ◌==◌,
  if◌then◌else◌, Bool-cases,
}
use odirion_mmoserver.Trade.{
  World, trade_initiated, is_none, is_transfer, is_acknowledge, find_item,
}
use odirion_mmoserver.Trade.Invariant.{IsTrade, one_of}

-- What remains when a player offers an item to a partner.
pub record IsStarted (w w' : World) (p q item : ℕ) : Type 0 where
  pub mine :
      w'.traders p
      ≡ record { trade_state = trade_initiated; trade_partner = some q; trade_item = some item }
  pub theirs : (w'.traders q).trade_partner ≡ some p
  pub their_state : is_none (w'.traders q).trade_state ≡ false
  pub their_transfer : is_transfer (w'.traders q).trade_state ≡ false
  pub their_item : (w'.traders q).trade_item ≡ (w.traders q).trade_item
  pub their_offer :
      is_acknowledge (w'.traders q).trade_state ≡ true → (w.traders q).trade_item ≡ none
  pub others : (r : ℕ) → r ≢ p → r ≢ q → w'.traders r ≡ w.traders r
  pub items :
      (j : ℕ)
      → find_item j w'.trade_items ≡ (if item == j then some p else find_item j w.trade_items)

-- Both were free for each other, the player had no item out, and the item was not out.
pub record IsFree (w : World) (p q item : ℕ) : Type 0 where
  pub apart : p ≢ q
  pub my_partner : ((w.traders p).trade_partner ≡ none) ⊎ ((w.traders p).trade_partner ≡ some q)
  pub their_partner : ((w.traders q).trade_partner ≡ none) ⊎ ((w.traders q).trade_partner ≡ some p)
  pub my_item : (w.traders p).trade_item ≡ none
  pub item_free : find_item item w.trade_items ≡ none

not_partner :
    (w : World) (p q r s : ℕ)
    → IsTrade w
    → ((w.traders p).trade_partner ≡ none) ⊎ ((w.traders p).trade_partner ≡ some q)
    → r ≢ q
    → (w.traders r).trade_partner ≡ some s
    → s ≢ p
not_partner w p q r s h o ne e k =
    let back : (w.traders p).trade_partner ≡ some r =
      ap (λ n. (w.traders n).trade_partner) (sym k) ∙ (h.partners r s e).0 in
    ne (ground (arith, back, o))

still_recorded :
    (w w' : World) (p q item : ℕ)
    → IsFree w p q item
    → IsStarted w w' p q item
    → (i r : ℕ) → find_item i w.trade_items ≡ some r
    → find_item i w'.trade_items ≡ some r
still_recorded w w' p q item free st i r old = elim (Bool-cases (item == i)) [
  | inl y ↦
      let k : item ≡ i = ground arith in
      absurd (ground (arith, ap (λ n. find_item n w.trade_items) k ∙ old, free.item_free))
  | inr n ↦ st.items i ∙ rw n old
]

pub IsTrade-IsStarted :
    (w w' : World) (p q item : ℕ)
    → IsTrade w
    → IsFree w p q item
    → IsStarted w w' p q item
    → IsTrade w'
unfolding is_none is_transfer is_acknowledge
IsTrade-IsStarted w w' p q item h free st = record {
  partners = λ r s f. elim (one_of p q r) [
    | inl a ↦
        let f' : (w'.traders p).trade_partner ≡ some s = rw (sym a) f in
        let k : q ≡ s = ground (arith, ap (λ t. t.trade_partner) (st.mine), f') in
        (rw (sym k, a) (st.theirs), rw (sym k, a) (free.apart))
    | inr (inl b) ↦
        let f' : (w'.traders q).trade_partner ≡ some s = rw (sym b) f in
        let k : p ≡ s = ground (arith, st.theirs, f') in
        (
          rw (sym k, b) (ap (λ t. t.trade_partner) (st.mine)),
          rw (sym k, b) (λ e. free.apart (sym e)),
        )
    | inr (inr (np, nq)) ↦
        let f' = ap (λ t. t.trade_partner) (sym (st.others r np nq)) ∙ f in
        let sp = not_partner w p q r s h (free.my_partner) nq f' in
        let sq = not_partner w q p r s h (free.their_partner) np f' in
        let g = h.partners r s f' in (ap (λ t. t.trade_partner) (st.others s sp sq) ∙ g.0, g.1)
  ];
  alone = λ r f. elim (one_of p q r) [
    | inl a ↦ absurd (
        ground (
          arith,
          ap (λ k. is_none (w'.traders k).trade_state) (sym a) ∙ f,
          ap (λ t. is_none t.trade_state) (st.mine),
        ))
    | inr (inl b) ↦
        absurd
          (ground (arith, ap (λ k. is_none (w'.traders k).trade_state) (sym b) ∙ f, st.their_state))
    | inr (inr (np, nq)) ↦ rw (st.others r np nq) (h.alone r (rw (sym (st.others r np nq)) f))
  ];
  busy = λ r f. elim (one_of p q r) [
    | inl a ↦ absurd (
        ground (
          arith,
          ap (λ k. (w'.traders k).trade_partner) (sym a) ∙ f,
          ap (λ t. t.trade_partner) (st.mine),
        ))
    | inr (inl b) ↦
        absurd (ground (arith, ap (λ k. (w'.traders k).trade_partner) (sym b) ∙ f, st.theirs))
    | inr (inr (np, nq)) ↦ rw (st.others r np nq) (h.busy r (rw (sym (st.others r np nq)) f))
  ];
  empty_handed = λ r f. elim (one_of p q r) [
    | inl a ↦ absurd (
        ground (
          arith,
          ap (λ k. is_none (w'.traders k).trade_state) (sym a) ∙ f,
          ap (λ t. is_none t.trade_state) (st.mine),
        ))
    | inr (inl b) ↦
        absurd
          (ground (arith, ap (λ k. is_none (w'.traders k).trade_state) (sym b) ∙ f, st.their_state))
    | inr (inr (np, nq)) ↦
        rw (st.others r np nq) (h.empty_handed r (rw (sym (st.others r np nq)) f))
  ];
  unoffered = λ r f. elim (one_of p q r) [
    | inl a ↦ absurd (
        ground (
          arith,
          ap (λ k. is_acknowledge (w'.traders k).trade_state) (sym a) ∙ f,
          ap (λ t. is_acknowledge t.trade_state) (st.mine),
        ))
    | inr (inl b) ↦
        ap (λ k. (w'.traders k).trade_item) b
        ∙ st.their_item
        ∙ st.their_offer (ap (λ k. is_acknowledge (w'.traders k).trade_state) (sym b) ∙ f)
    | inr (inr (np, nq)) ↦ rw (st.others r np nq) (h.unoffered r (rw (sym (st.others r np nq)) f))
  ];
  settled = λ r. elim (one_of p q r) [
    | inl a ↦ rw a (rw (st.mine) refl)
    | inr (inl b) ↦ rw b (st.their_transfer)
    | inr (inr (np, nq)) ↦ rw (st.others r np nq) (h.settled r)
  ];
  recorded = λ r i f. elim (one_of p q r) [
    | inl a ↦
        let k : item ≡ i = ground (
          arith,
          ap (λ n. (w'.traders n).trade_item) (sym a) ∙ f,
          ap (λ t. t.trade_item) (st.mine),
        ) in
        let same : (item == i) ≡ true = ground arith in st.items i ∙ rw (same, a) refl
    | inr (inl b) ↦
        let old : find_item i w.trade_items ≡ some q =
          h.recorded q i (sym (st.their_item) ∙ ap (λ n. (w'.traders n).trade_item) (sym b) ∙ f) in
        still_recorded w w' p q item free st i r (old ∙ ap some (sym b))
    | inr (inr (np, nq)) ↦
        still_recorded w w' p q item free st i r
          (h.recorded r i (ap (λ t. t.trade_item) (sym (st.others r np nq)) ∙ f))
  ];
  owned = λ r i f. elim (Bool-cases (item == i)) [
    | inl y ↦
        let k : item ≡ i = ground arith in
        let e : p ≡ r = ground (arith, sym (st.items i) ∙ f, y) in
        ap (λ n. (w'.traders n).trade_item) (sym e) ∙ ap (λ t. t.trade_item) (st.mine) ∙ ap some k
    | inr n ↦
        let old : find_item i w.trade_items ≡ some r = ground (arith, sym (st.items i) ∙ f, n) in
        let had = h.owned r i old in
        elim (one_of p q r) [
          | inl a ↦
              absurd
                (ground (arith, ap (λ n. (w.traders n).trade_item) (sym a) ∙ had, free.my_item))
          | inr (inl b) ↦
              ap (λ n. (w'.traders n).trade_item) b
              ∙ st.their_item
              ∙ ap (λ n. (w.traders n).trade_item) (sym b)
              ∙ had
          | inr (inr (np, nq)) ↦ ap (λ t. t.trade_item) (st.others r np nq) ∙ had
        ]
  ];
}
