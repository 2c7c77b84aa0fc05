-- ===== src/Trade/Requests.antt =====
-- Every request keeps the invariant of the trades.
use odirion_mmoserver.Base.{
  ℕ, ◌≡◌, ◌≢◌, refl, sym, ap, subst, ◌∙◌, inl, inr, true, false, not, ◌&&◌, ◌||◌, Option, none,
  some, List, [], ◌∷◌, arith, ◌==◌, update, Bool-cases, Option-cases,
}
use odirion_mmoserver.Position.{are_in_range}
use odirion_mmoserver.Trade.{
  World, Trader, Env, Answers, Request, requests, accepts, closes, trade_initiated, trade_accept,
  trade_acknowledge, is_none, is_transfer, is_acknowledge, is_accept, points_at, find_item,
  set_item, release, idle, start_trade, request_trade, accept_with, accept_trade,
  player_close_trade, handle, handle_all, may_offer, is_already_traded, may_accept_from,
}
use odirion_mmoserver.Trade.Invariant.{
  IsTrade, find_item-set_item, released-IsTrade, close_trade-IsTrade,
}
use odirion_mmoserver.Trade.Starting.{IsStarted, IsFree, IsTrade-IsStarted}

-- An item that passed the loops is in no trade.
free_item :
    (env : Env) (item : ℕ) (m : List (ℕ × ℕ))
    → is_already_traded env item m ≡ false
    → find_item item m ≡ none
unfolding is_already_traded find_item
free_item env item [] n = refl
free_item env item ((i, p) ∷ m) n = ground (arith, free_item env item m)

request_trade-IsStarted :
    (w : World) (p q item : ℕ) (u : Trader)
    → p ≢ q
    → u.trade_partner ≡ some p
    → is_none u.trade_state ≡ false
    → is_transfer u.trade_state ≡ false
    → u.trade_item ≡ (w.traders q).trade_item
    → (is_acknowledge u.trade_state ≡ true → (w.traders q).trade_item ≡ none)
    → (f : ℕ → Trader)
    → (f p
        ≡ record { trade_state = trade_initiated; trade_partner = some q; trade_item = some item })
    → f q ≡ u
    → ((r : ℕ) → r ≢ p → r ≢ q → f r ≡ w.traders r)
    → IsStarted w (record { traders = f; trade_items = set_item item p w.trade_items }) p q item
request_trade-IsStarted w p q item u ne a b c d e f first second others = record {
  mine = first;
  theirs = ap (λ t. t.trade_partner) second ∙ a;
  their_state = ap (λ t. is_none t.trade_state) second ∙ b;
  their_transfer = ap (λ t. is_transfer t.trade_state) second ∙ c;
  their_item = ap (λ t. t.trade_item) second ∙ d;
  their_offer = λ k. e (ap (λ t. is_acknowledge t.trade_state) (sym second) ∙ k);
  others = others;
  items = λ j. find_item-set_item item j p w.trade_items;
}

points_at_iff : (o : Option ℕ) (q : ℕ) → points_at o q ≡ true → o ≡ some q
unfolding points_at
points_at_iff none q h = cc
points_at_iff (some p) q h = ground arith

-- The guards of `internalStartTrade` leave two players who are free for each other.
start_trade-IsFree :
    (w : World) (p q item : ℕ)
    → IsTrade w
    → p ≢ q
    → find_item item w.trade_items ≡ none
    → (not (is_none (w.traders p).trade_state)
        && not
            (is_acknowledge (w.traders p).trade_state && points_at (w.traders p).trade_partner q))
      ≡ false
    → (not (is_none (w.traders q).trade_state) && not (points_at (w.traders q).trade_partner p))
      ≡ false
    → IsFree w p q item
start_trade-IsFree w p q item h ne new mine theirs = record {
  apart = ne;
  my_partner = ground (arith, h.alone p, points_at_iff (w.traders p).trade_partner q, mine);
  their_partner = ground (arith, h.alone q, points_at_iff (w.traders q).trade_partner p, theirs);
  my_item = ground (arith, h.empty_handed p, h.unoffered p, mine);
  item_free = new;
}

pub start_trade-IsTrade :
    (w : World) (p q item : ℕ)
    → IsTrade w
    → p ≢ q
    → find_item item w.trade_items ≡ none
    → IsTrade (start_trade p q item w).1
unfolding start_trade is_none is_transfer is_acknowledge
start_trade-IsTrade w p q item h ne new =
    elim (Bool-cases (
      not (is_none (w.traders p).trade_state)
      && not
          (is_acknowledge (w.traders p).trade_state && points_at (w.traders p).trade_partner q))) [
            | inl y ↦ rw y h
            | inr mine ↦
                rw mine
                  (elim (Bool-cases (
                    not (is_none (w.traders q).trade_state)
                    && not (points_at (w.traders q).trade_partner p))) [
                      | inl y ↦ rw y h
                      | inr theirs ↦
                          let free = start_trade-IsFree w p q item h ne new mine theirs in
                          rw theirs (elim (Bool-cases (is_none (w.traders q).trade_state)) [
                            | inl y ↦
                                let nothing = h.empty_handed q y in
                                rw y (
                                  IsTrade-IsStarted w _ p q item h free (
                                    request_trade-IsStarted w p q item
                                      (record (w.traders q) {
                                        trade_state = trade_acknowledge;
                                        trade_partner = some p;
                                      })
                                      ne refl refl refl refl (λ k. nothing) _ (ground arith)
                                      (ground arith) (λ r np nq. ground arith)))
                            | inr n ↦ rw n (
                                IsTrade-IsStarted w _ p q item h free (
                                  request_trade-IsStarted w p q item (w.traders q) ne
                                    (points_at_iff (w.traders q).trade_partner p
                                      (ground (arith, theirs, n)))
                                    n (h.settled q) refl (h.unoffered q) _ (ground arith)
                                    (ground arith) (λ r np nq. ground arith)))
                          ])
                    ])
          ]

request_trade-IsTrade :
    (env : Env) (answers : Answers) (w : World) (player partner : ℕ)
    → IsTrade w
    → IsTrade (request_trade env answers player partner w)
unfolding request_trade may_offer
request_trade-IsTrade env answers w player partner h =
    elim (Bool-cases (
      not (env.online player)
      || not (env.online partner)
      || partner == player
      || not (are_in_range 2 2 0 (env.position partner) (env.position player))
      || not (env.can_throw (env.position partner) (env.position player)))) [
        | inl y ↦ rw y h
        | inr n ↦ rw n (elim (Option-cases env.thing) [
          | inl e ↦ rw e h
          | inr (item, e) ↦
              rw e
                (elim (Bool-cases (not (may_offer env player item w) || not answers.may_request)) [
                  | inl y ↦ rw y h
                  | inr n' ↦ rw n' (
                      start_trade-IsTrade w player partner item h (ground arith)
                        (free_item env item w.trade_items (ground (arith, n'))))
                ])
        ])
      ]

abbrev accepted : World → ℕ → World
accepted w player = record w {
  traders = update w.traders player (record (w.traders player) { trade_state = trade_accept });
}

accepted-partner :
    (w : World) (player r : ℕ)
    → ((accepted w player).traders r).trade_partner ≡ (w.traders r).trade_partner
accepted-partner w player r = elim (Bool-cases (player == r)) [
  | inl y ↦ let k : player ≡ r = ground arith in rw y (ap (λ n. (w.traders n).trade_partner) k)
  | inr n ↦ rw n refl
]

accepted-item :
    (w : World) (player r : ℕ)
    → ((accepted w player).traders r).trade_item ≡ (w.traders r).trade_item
accepted-item w player r = elim (Bool-cases (player == r)) [
  | inl y ↦ let k : player ≡ r = ground arith in rw y (ap (λ n. (w.traders n).trade_item) k)
  | inr n ↦ rw n refl
]

-- A player who may accept is busy before and after.
accepted-IsTrade :
    (w : World) (player : ℕ)
    → IsTrade w
    → is_none (w.traders player).trade_state ≡ false
    → IsTrade (accepted w player)
unfolding is_none is_transfer is_acknowledge
accepted-IsTrade w player h active = record {
  partners = λ p q e.
      let g = h.partners p q (sym (accepted-partner w player p) ∙ e) in
      (accepted-partner w player q ∙ g.0, g.1);
  alone = λ p f. accepted-partner w player p ∙ h.alone p (ground (arith, f, active));
  busy = λ p f. ground (arith, h.busy p (sym (accepted-partner w player p) ∙ f), active);
  empty_handed = λ p f. accepted-item w player p ∙ h.empty_handed p (ground (arith, f, active));
  unoffered = λ p f. accepted-item w player p ∙ h.unoffered p (ground (arith, f, active));
  settled = λ p. ground (arith, h.settled p);
  recorded = λ p i f. h.recorded p i (sym (accepted-item w player p) ∙ f);
  owned = λ p i f. accepted-item w player p ∙ h.owned p i f;
}

accept_with-IsTrade :
    (answers : Answers) (w : World) (player partner : ℕ)
    → IsTrade (accepted w player)
    → (w.traders player).trade_partner ≡ some partner
    → IsTrade (accept_with answers player partner w).0
unfolding accept_with
accept_with-IsTrade answers w player partner a e =
    elim (Bool-cases (not (is_accept ((accepted w player).traders partner).trade_state))) [
      | inl y ↦ rw y a
      | inr n ↦ rw n (elim (Bool-cases (not answers.may_accept)) [
        | inl y ↦ rw y (close_trade-IsTrade (accepted w player) player a)
        | inr n' ↦
            let f : ℕ → Trader =
              update (update (accepted w player).traders player idle) partner idle in
            let r =
              released-IsTrade (accepted w player) f player partner a
                (accepted-partner w player player ∙ e) (λ r np nq. ground arith) (ground arith)
                (ground arith) in
            rw n' (
              subst
                (λ o. IsTrade (record {
                  traders = f;
                  trade_items =
                      release ((accepted w player).traders partner).trade_item
                        (release o w.trade_items);
                }))
                (accepted-item w player player) r)
      ])
    ]

accept_trade-IsTrade :
    (env : Env) (answers : Answers) (w : World) (player : ℕ)
    → IsTrade w
    → IsTrade (accept_trade env answers player w).0
unfolding accept_trade
accept_trade-IsTrade env answers w player h =
    elim (Bool-cases
      (not (env.online player) || not (may_accept_from (w.traders player).trade_state))) [
        | inl y ↦ rw y h
        | inr n ↦ rw n (elim (Option-cases (w.traders player).trade_partner) [
          | inl e ↦ rw e h
          | inr (partner, e) ↦
              rw e
                (elim (Bool-cases
                  (not (env.can_throw (env.position partner) (env.position player)))) [
                    | inl y ↦ rw y h
                    | inr n' ↦
                        let a = accepted-IsTrade w player h (ground (arith, h.alone player, e)) in
                        rw n' (accept_with-IsTrade answers w player partner a e)
                  ])
        ])
      ]

handle-IsTrade :
    (env : Env) (answers : Answers) (r : Request) (w : World)
    → IsTrade w
    → IsTrade (handle env answers r w).0
unfolding handle player_close_trade
handle-IsTrade env answers (requests player partner) w h =
    request_trade-IsTrade env answers w player partner h
handle-IsTrade env answers (accepts player) w h = accept_trade-IsTrade env answers w player h
handle-IsTrade env answers (closes player) w h = elim (Bool-cases (env.online player)) [
  | inl y ↦ rw y (close_trade-IsTrade w player h)
  | inr n ↦ rw n h
]

-- Any sequence of requests keeps this: partners in a trade point to each other and nobody trades
-- with himself, a player without a trade has no partner and no item out, no trade stays in transfer,
-- and `tradeItems` holds exactly the items that are out, each for the one player who offers it.
pub handle_all-IsTrade :
    (rs : List (Env × Answers × Request)) (w : World) → IsTrade w → IsTrade (handle_all rs w)
unfolding handle_all
handle_all-IsTrade [] w h = h
handle_all-IsTrade ((env, answers, r) ∷ rest) w h =
    handle_all-IsTrade rest (handle env answers r w).0 (handle-IsTrade env answers r w h)
