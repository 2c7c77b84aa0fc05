-- ===== src/Trade/Examples.antt =====
-- Tests of a trade.
use odirion_mmoserver.Base.{
  ℕ, ◌≡◌, ◌≢◌, refl, sym, ◌∙◌, true, false, Option, none, some, List, [], ◌∷◌,
}
use odirion_mmoserver.Position.{are_in_range, distance_x, distance_y}
use odirion_mmoserver.Trade.{
  World, Env, Answers, Request, requests, accepts, idle, start_trade, request_trade, accept_trade,
  accept_with, transfer, handle, handle_all, is_none, is_acknowledge, is_accept, is_transfer,
  may_accept_from, points_at, find_item, erase_item, set_item, is_already_traded, are_next,
  may_offer,
}
use odirion_mmoserver.Trade.Invariant.{IsTrade}
use odirion_mmoserver.Trade.Requests.{handle_all-IsTrade}
use odirion_mmoserver.Trade.Transfers.{IsExchange, accept_trade-IsExchange}

-- The depot, where everybody stands on one tile; `thing` is what the player points at.
abbrev depot : Option ℕ → Env
depot thing = record {
  online = λ p. true;
  position = λ p. record { x = 100; y = 100; z = 7 };
  item_position = λ i. record { x = 100; y = 100; z = 7 };
  can_throw = λ p q. true;
  thing = thing;
  tradeable = λ i. true;
  is_container = λ i. false;
  is_holding = λ i j. false;
  item_holding_count = λ i. 0;
}

abbrev yes_to_all : Answers
yes_to_all = record {
  may_request = true;
  may_accept = true;
  add1 = true;
  add2 = true;
  remove1 = true;
  remove2 = true;
  move1 = true;
  move2 = true;
}

abbrev quiet : World
quiet = record { traders = λ p. idle; trade_items = [] }

quiet-IsTrade : IsTrade quiet
unfolding is_none is_transfer is_acknowledge find_item
quiet-IsTrade = record {
  partners = λ p q e. cc;
  alone = λ p e. refl;
  busy = λ p e. refl;
  empty_handed = λ p e. refl;
  unoffered = λ p e. refl;
  settled = λ p. refl;
  recorded = λ p i e. cc;
  owned = λ p i e. cc;
}

abbrev offers : List (Env × Answers × Request)
offers =
    (depot (some 50), yes_to_all, requests 1 2)
    ∷ (depot (some 60), yes_to_all, requests 2 1)
    ∷ (depot none, yes_to_all, accepts 1)
    ∷ []

abbrev ready : World
ready = handle_all offers quiet

handle_all-IsTrade_example : IsTrade ready
handle_all-IsTrade_example = handle_all-IsTrade offers quiet quiet-IsTrade

ready-IsTrade : IsTrade ready
ready-IsTrade = handle_all-IsTrade offers quiet quiet-IsTrade

not_empty : {x y : ℕ × ℕ} → x ∷ y ∷ [] ≢ []
not_empty = λ e. cc

swapped : (accept_trade (depot none) yes_to_all 2 ready).1 ≡ (60, 1) ∷ (50, 2) ∷ []
unfolding accept_trade accept_with transfer handle_all handle request_trade start_trade is_none
    is_acknowledge may_accept_from is_accept is_already_traded are_next may_offer find_item set_item
    erase_item are_in_range distance_x distance_y odirion_mmoserver.Position.distance_z points_at
swapped = refl

accept_trade-IsExchange_example :
    IsExchange yes_to_all ready 2 (accept_trade (depot none) yes_to_all 2 ready).1
accept_trade-IsExchange_example =
    accept_trade-IsExchange (depot none) yes_to_all 2 ready ready-IsTrade
      (λ e. not_empty (sym swapped ∙ e))
