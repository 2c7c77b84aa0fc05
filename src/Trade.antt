-- ===== src/Trade.antt =====
-- A trade between two players: the handlers of game.cpp and what they change in the players and in
-- `tradeItems`. What the handlers ask of the map, the items and the events is in `Env` and `Answers`.
pub mod Invariant
pub mod Starting
pub mod Requests
pub mod Transfers
mod Examples
use odirion_mmoserver.Base.{
  ℕ, ◌+◌, Bool, true, false, not, ◌&&◌, ◌||◌, Option, none, some, List, [], ◌∷◌, ltb, leb, ◌==◌,
  if◌then◌else◌, update,
}
use odirion_mmoserver.Position.{Position, are_in_range, distance_x, distance_y}

pub data TradeState : Type 0 where
  trade_none trade_initiated trade_accept trade_acknowledge trade_transfer : TradeState

pub record Trader : Type 0 where
  pub trade_state : TradeState
  pub trade_partner : Option ℕ
  pub trade_item : Option ℕ

pub record World : Type 0 where
  pub traders : ℕ → Trader
  pub trade_items : List (ℕ × ℕ)

-- What a request meets: who is online, where players and items are, and the items themselves.
pub record Env : Type 0 where
  pub online : ℕ → Bool
  pub position : ℕ → Position
  pub item_position : ℕ → Position
  pub can_throw : Position → Position → Bool
  pub thing : Option ℕ
  pub tradeable : ℕ → Bool
  pub is_container : ℕ → Bool
  pub is_holding : ℕ → ℕ → Bool
  pub item_holding_count : ℕ → ℕ

-- The events' answers, and whether each call on the items returns `RETURNVALUE_NOERROR`.
pub record Answers : Type 0 where
  pub may_request : Bool
  pub may_accept : Bool
  pub add1 : Bool
  pub add2 : Bool
  pub remove1 : Bool
  pub remove2 : Bool
  pub move1 : Bool
  pub move2 : Bool

unfoldable pub is_none : TradeState → Bool
is_none trade_none = true
is_none _ = false

unfoldable pub is_acknowledge : TradeState → Bool
is_acknowledge trade_acknowledge = true
is_acknowledge _ = false

unfoldable pub may_accept_from : TradeState → Bool
may_accept_from trade_acknowledge = true
may_accept_from trade_initiated = true
may_accept_from _ = false

unfoldable pub is_accept : TradeState → Bool
is_accept trade_accept = true
is_accept _ = false

unfoldable pub is_transfer : TradeState → Bool
is_transfer trade_transfer = true
is_transfer _ = false

-- `a == b` for a pointer that may be null, and a player.
unfoldable pub points_at : Option ℕ → ℕ → Bool
points_at none q = false
points_at (some p) q = p == q

-- `tradeItems`: the map from items to the identifiers of the players.
unfoldable pub find_item : ℕ → List (ℕ × ℕ) → Option ℕ
find_item i [] = none
find_item i ((j, p) ∷ m) = if j == i then some p else find_item i m

unfoldable pub erase_item : ℕ → List (ℕ × ℕ) → List (ℕ × ℕ)
erase_item i [] = []
erase_item i ((j, p) ∷ m) = let rest = erase_item i m in if j == i then rest else (j, p) ∷ rest

unfoldable pub set_item : ℕ → ℕ → List (ℕ × ℕ) → List (ℕ × ℕ)
set_item i p m = (i, p) ∷ erase_item i m

-- `find` and `erase` for a pointer that may be null, which is never a key.
unfoldable pub release : Option ℕ → List (ℕ × ℕ) → List (ℕ × ℕ)
release none m = m
release (some i) m = erase_item i m

-- The loops of `playerRequestTrade`: an item that is traded is this one, is in it, or holds it.
unfoldable pub is_already_traded : Env → ℕ → List (ℕ × ℕ) → Bool
is_already_traded env trade_item [] = false
is_already_traded env trade_item ((i, p) ∷ m) =
    trade_item == i
    || (env.is_container trade_item && env.is_holding trade_item i)
    || (env.is_container i && env.is_holding i trade_item)
    || is_already_traded env trade_item m

-- `areInRange<1, 1>`, which leaves the floor out.
unfoldable pub are_next : Position → Position → Bool
are_next p1 p2 = leb (distance_x p1 p2) 1 && leb (distance_y p1 p2) 1

abbrev pub idle : Trader
idle = record { trade_state = trade_none; trade_partner = none; trade_item = none }

-- `internalStartTrade`.
unfoldable pub start_trade : ℕ → ℕ → ℕ → World → Bool × World
start_trade player partner trade_item w =
    let t = w.traders player in
    let u = w.traders partner in
    if not (is_none t.trade_state)
      && not (is_acknowledge t.trade_state && points_at t.trade_partner partner)
    then (false, w)
    else if not (is_none u.trade_state) && not (points_at u.trade_partner player)
    then (false, w)
    else let started = update w.traders player (record {
      trade_state = trade_initiated;
      trade_partner = some partner;
      trade_item = some trade_item;
    }) in
      (
        true,
        record {
          trade_items = set_item trade_item player w.trade_items;
          traders =
              if is_none u.trade_state
              then update started partner
                  (record u { trade_state = trade_acknowledge; trade_partner = some player })
              else started;
        },
      )

-- The guards of `playerRequestTrade` on the item, once the players may trade.
unfoldable pub may_offer : Env → ℕ → ℕ → World → Bool
may_offer env player trade_item w =
    env.tradeable trade_item
    && ((env.position player).z == (env.item_position trade_item).z)
    && are_next (env.item_position trade_item) (env.position player)
    && not (is_already_traded env trade_item w.trade_items)
    && not (env.is_container trade_item && ltb 100 (env.item_holding_count trade_item + 1))

-- `playerRequestTrade`. From farther away the player is sent walking, and the request comes again.
unfoldable pub request_trade : Env → Answers → ℕ → ℕ → World → World
request_trade env answers player partner w =
    if not (env.online player)
      || not (env.online partner)
      || partner == player
      || not (are_in_range 2 2 0 (env.position partner) (env.position player))
      || not (env.can_throw (env.position partner) (env.position player))
    then w
    else elim env.thing [
      | none ↦ w
      | some trade_item ↦
          if not (may_offer env player trade_item w) || not answers.may_request
          then w
          else (start_trade player partner trade_item w).1
    ]

-- `internalCloseTrade`.
unfoldable pub close_trade : ℕ → World → World
close_trade player w =
    let t = w.traders player in
    let released = release t.trade_item w.trade_items in
    elim t.trade_partner [
      | none ↦
          if is_transfer t.trade_state
          then w
          else record { traders = update w.traders player idle; trade_items = released }
      | some partner ↦
          let u = (update w.traders player idle) partner in
          if is_transfer (w.traders partner).trade_state || is_transfer t.trade_state
          then w
          else record {
            traders = update (update w.traders player idle) partner idle;
            trade_items = release u.trade_item released;
          }
    ]

-- `playerCloseTrade`.
unfoldable pub player_close_trade : Env → ℕ → World → World
player_close_trade env player w = if env.online player then close_trade player w else w

-- The transfer of `playerAcceptTrade`: the items that move, each with its new owner. Whether
-- the second one could be moved is not looked at.
unfoldable pub transfer : Answers → ℕ → ℕ → Option ℕ → Option ℕ → List (ℕ × ℕ)
transfer answers player partner (some item1) (some item2) =
    if answers.add1 && answers.add2 && answers.remove1 && answers.remove2 && answers.move1
    then (item1, partner) ∷ (if answers.move2 then (item2, player) ∷ [] else [])
    else []
transfer answers player partner _ _ = []

-- `playerAcceptTrade` from `setTradeState(TRADE_ACCEPT)` on.
unfoldable pub accept_with : Answers → ℕ → ℕ → World → World × List (ℕ × ℕ)
accept_with answers player partner w =
    let t = w.traders player in
    let accepted = record w {
      traders = update w.traders player (record t { trade_state = trade_accept });
    } in
    let u = accepted.traders partner in
    if not (is_accept u.trade_state)
    then (accepted, [])
    else if not answers.may_accept
    then (close_trade player accepted, [])
    else (
      record {
        traders = update (update accepted.traders player idle) partner idle;
        trade_items = release u.trade_item (release t.trade_item w.trade_items);
      },
      transfer answers player partner t.trade_item u.trade_item,
    )

-- `playerAcceptTrade`, with the items that were handed over.
unfoldable pub accept_trade : Env → Answers → ℕ → World → World × List (ℕ × ℕ)
accept_trade env answers player w =
    if not (env.online player) || not (may_accept_from (w.traders player).trade_state)
    then (w, [])
    else elim (w.traders player).trade_partner [
      | none ↦ (w, [])
      | some partner ↦
          if not (env.can_throw (env.position partner) (env.position player))
          then (w, [])
          else accept_with answers player partner w
    ]

pub data Request : Type 0 where
  requests : ℕ → ℕ → Request
  accepts closes : ℕ → Request

-- A request with what it meets and what it is answered.
unfoldable pub handle : Env → Answers → Request → World → World × List (ℕ × ℕ)
handle env answers (requests player partner) w = (request_trade env answers player partner w, [])
handle env answers (accepts player) w = accept_trade env answers player w
handle env answers (closes player) w = (player_close_trade env player w, [])

unfoldable pub handle_all : List (Env × Answers × Request) → World → World
handle_all [] w = w
handle_all ((env, answers, r) ∷ rest) w = handle_all rest (handle env answers r w).0
