-- ===== src/Trade/Transfers.antt =====
-- When items change hands.
use odirion_mmoserver.Base.{
  ℕ, ◌≡◌, ◌≢◌, refl, sym, subst, ◌∙◌, inl, inr, Bool, true, false, not, ◌&&◌, ◌||◌, if◌then◌else◌,
  Option, none, some, List, [], ◌∷◌, arith, ◌==◌, Bool-cases, Option-cases,
}
use odirion_mmoserver.Trade.{
  World, Env, Answers, is_accept, accept_with, accept_trade, may_accept_from, transfer,
}
use odirion_mmoserver.Trade.Invariant.{IsTrade}

-- The two players, their offers and what is handed over.
pub record IsExchange (answers : Answers) (w : World) (player : ℕ) (moved : List (ℕ × ℕ))
    : Type 0 where
  pub partner : ℕ
  pub item1 : ℕ
  pub item2 : ℕ
  pub partners : (w.traders player).trade_partner ≡ some partner
  pub accepted : is_accept (w.traders partner).trade_state ≡ true
  pub agreed : answers.may_accept ≡ true
  pub offer1 : (w.traders player).trade_item ≡ some item1
  pub offer2 : (w.traders partner).trade_item ≡ some item2
  pub both_fit : (answers.add1 ≡ true) × (answers.add2 ≡ true)
  pub both_removable : (answers.remove1 ≡ true) × (answers.remove2 ≡ true)
  pub first_moves : answers.move1 ≡ true
  pub exchanged : moved ≡ (item1, partner) ∷ (if answers.move2 then (item2, player) ∷ [] else [])

abbrev all_tests : Answers → Bool
all_tests answers =
    answers.add1 && answers.add2 && answers.remove1 && answers.remove2 && answers.move1

transfer-both :
    (answers : Answers) (player partner : ℕ) (o1 o2 : Option ℕ)
    → transfer answers player partner o1 o2 ≢ []
    → (i j : ℕ) × (o1 ≡ some i)
      × (o2 ≡ some j)
      × (all_tests answers ≡ true)
      × (transfer answers player partner o1 o2
          ≡ (i, partner) ∷ (if answers.move2 then (j, player) ∷ [] else []))
unfolding transfer
transfer-both answers player partner none o2 h = absurd (h refl)
transfer-both answers player partner (some i) none h = absurd (h refl)
transfer-both answers player partner (some i) (some j) h = elim (Bool-cases (all_tests answers)) [
  | inl y ↦ (i, j, refl, refl, y, rw y refl)
  | inr n ↦ absurd (h (rw n refl))
]

accept_with-IsExchange :
    (answers : Answers) (player partner : ℕ) (w : World)
    → player ≢ partner
    → (w.traders player).trade_partner ≡ some partner
    → (accept_with answers player partner w).1 ≢ []
    → IsExchange answers w player (accept_with answers player partner w).1
unfolding accept_with
accept_with-IsExchange answers player partner w ne e h =
    let other : (player == partner) ≡ false = ground arith in
    elim (Bool-cases (is_accept (w.traders partner).trade_state)) [
      | inr n ↦ absurd (h (rw (other, n) refl))
      | inl y ↦ elim (Bool-cases answers.may_accept) [
        | inr n ↦ absurd (h (rw (other, y, n) refl))
        | inl y' ↦
            let same : (accept_with answers player partner w).1
                ≡ transfer answers player partner (w.traders player).trade_item
                    (w.traders partner).trade_item =
              rw (other, y, y') refl in
            let t =
              transfer-both answers player partner (w.traders player).trade_item
                (w.traders partner).trade_item (λ k. h (same ∙ k)) in
            let tests = t.4 in
            record {
              partner = partner;
              item1 = t.0;
              item2 = t.1;
              partners = e;
              accepted = y;
              agreed = y';
              offer1 = t.2;
              offer2 = t.3;
              both_fit = (ground (arith, tests), ground (arith, tests));
              both_removable = (ground (arith, tests), ground (arith, tests));
              first_moves = ground (arith, tests);
              exchanged = same ∙ t.5;
            }
      ]
    ]

-- If accepting moves any item, then the partner had accepted before and the event agrees, both had offered an item,
-- both can be added and removed, and the first one can be moved. The first item is handed to the partner, and the
-- second one to the player just if it can be moved, too: where it cannot, the first one is handed over all the same.
pub accept_trade-IsExchange :
    (env : Env) (answers : Answers) (player : ℕ) (w : World)
    → IsTrade w
    → (accept_trade env answers player w).1 ≢ []
    → IsExchange answers w player (accept_trade env answers player w).1
unfolding accept_trade
accept_trade-IsExchange env answers player w t h =
    elim (Bool-cases
      (not (env.online player) || not (may_accept_from (w.traders player).trade_state))) [
        | inl y ↦ absurd (h (rw y refl))
        | inr n ↦ elim (Option-cases (w.traders player).trade_partner) [
          | inl e ↦ absurd (h (rw (n, e) refl))
          | inr (partner, e) ↦
              elim (Bool-cases (not (env.can_throw (env.position partner) (env.position player)))) [
                | inl y ↦ absurd (h (rw (n, e) (rw y refl)))
                | inr n' ↦
                    let same : (accept_trade env answers player w).1
                        ≡ (accept_with answers player partner w).1 =
                      rw (n, e) (rw n' refl) in
                    subst (IsExchange answers w player) (sym same) (
                      accept_with-IsExchange answers player partner w
                        (t.partners player partner e).1 e (λ k. h (same ∙ k)))
              ]
        ]
      ]
