-- ===== src/WaitList.antt =====
-- waitlist.cpp: the login queue. The clock, the configuration and the number of players online are
-- arguments. `none` is the erasure of an entry through the list that does not hold it, which C++
-- leaves undefined.
pub mod Queue
pub mod Login
pub mod Turns
mod Examples
use odirion_mmoserver.Base.{
  ℕ, zero, suc, ◌+◌, ◌-◌, ◌*◌, ◌^◌, Bool, true, false, ◌&&◌, ◌||◌, Option, none, some, List, [],
  ◌∷◌, ◌++◌, ltb, leb, ◌==◌, if◌then◌else◌, u64, sub64, length,
}

pub record Wait : Type 0 where
  pub timeout : ℕ
  pub player_guid : ℕ

pub record WaitListInfo : Type 0 where
  pub priority_wait_list : List Wait
  pub wait_list : List Wait

-- What `clientLogin` asks of the player.
pub record Player : Type 0 where
  pub guid : ℕ
  pub can_always_login : Bool
  pub is_gamemaster : Bool
  pub is_premium : Bool

-- `timeout` is a `size_t`, so the difference is unsigned.
unfoldable pub is_over : ℕ → Wait → Bool
is_over time w = leb (sub64 w.timeout time) 0

unfoldable pub cleanup_list : ℕ → List Wait → List Wait
cleanup_list time [] = []
cleanup_list time (w ∷ ws) =
    if is_over time w then cleanup_list time ws else w ∷ cleanup_list time ws

unfoldable pub get_time : ℕ → ℕ
get_time slot =
    if ltb slot 5
    then 5
    else if ltb slot 10
    then 10
    else if ltb slot 20
    then 20
    else if ltb slot 50
    then 60
    else 120

unfoldable pub get_timeout : ℕ → ℕ
get_timeout slot = get_time slot + 15

-- An iterator: a place in one of the lists, or `waitList.end()`.
pub data Place : Type 0 where
  in_priority in_wait : ℕ → Place
  at_end : Place

-- A loop of `findClient`: the index of the first entry of the player, if there is one.
unfoldable pub index_of : ℕ → List Wait → Option ℕ
index_of guid [] = none
index_of guid (w ∷ ws) =
    if w.player_guid == guid
    then some 0
    else elim (index_of guid ws) [ none ↦ none | some i ↦ some (suc i) ]

-- The slot counts the entries passed, from 1.
unfoldable pub find_client : ℕ → WaitListInfo → Place × ℕ
find_client guid info = elim (index_of guid info.priority_wait_list) [
  | some i ↦ (in_priority i, i + 1)
  | none ↦ elim (index_of guid info.wait_list) [
    | some i ↦ (in_wait i, length info.priority_wait_list + i + 1)
    | none ↦ (at_end, length info.priority_wait_list + length info.wait_list + 1)
  ]
]

unfoldable pub erase_at : ℕ → List Wait → List Wait
erase_at i [] = []
erase_at zero (w ∷ ws) = ws
erase_at (suc i) (w ∷ ws) = w ∷ erase_at i ws

unfoldable pub set_timeout : ℕ → ℕ → List Wait → List Wait
set_timeout i t [] = []
set_timeout zero t (w ∷ ws) = record w { timeout = t } ∷ ws
set_timeout (suc i) t (w ∷ ws) = w ∷ set_timeout i t ws

-- `OTSYS_TIME() + (getTimeout(slot) * 1000)`.
unfoldable pub deadline : ℕ → ℕ → ℕ
deadline time slot = u64 (time + get_timeout slot * 1000)

-- The queue after a client that is at `place` is refused again.
unfoldable pub wait_longer : ℕ → ℕ → Place → WaitListInfo → WaitListInfo
wait_longer time slot (in_priority i) info = record info {
  priority_wait_list = set_timeout i (deadline time slot) info.priority_wait_list;
}
wait_longer time slot (in_wait i) info = record info {
  wait_list = set_timeout i (deadline time slot) info.wait_list;
}
wait_longer time slot at_end info = info

-- `info->waitList.erase(it)`.
unfoldable pub erase : Place → WaitListInfo → Option WaitListInfo
erase (in_priority i) info = none
erase (in_wait i) info = some (record info { wait_list = erase_at i info.wait_list })
erase at_end info = none

-- The queue after a client that is in no list is refused.
unfoldable pub enqueue : ℕ → Player → WaitListInfo → WaitListInfo
enqueue time player info =
    if player.is_premium
    then record info {
      priority_wait_list =
          info.priority_wait_list
          ++ record {
            timeout = deadline time (length info.priority_wait_list + 1);
            player_guid = player.guid;
          }
            ∷ [];
    }
    else record info {
      wait_list =
          info.wait_list
          ++ record {
            timeout = deadline time (length info.priority_wait_list + length info.wait_list + 1);
            player_guid = player.guid;
          }
            ∷ [];
    }

unfoldable pub cleanup : ℕ → WaitListInfo → WaitListInfo
cleanup time info = record {
  priority_wait_list = cleanup_list time info.priority_wait_list;
  wait_list = cleanup_list time info.wait_list;
}

-- `clientLogin` for a client that was found.
retry : ℕ → ℕ → ℕ → Place → ℕ → WaitListInfo → Option (Bool × WaitListInfo)
retry max_players online time place slot info =
    if leb (online + slot) max_players
    then elim (erase place info) [ none ↦ none | some rest ↦ some (true, rest) ]
    else some (false, wait_longer time slot place info)

after_find : ℕ → ℕ → ℕ → Player → WaitListInfo → Place → ℕ → Option (Bool × WaitListInfo)
after_find max_players online time player info at_end slot = some (false, enqueue time player info)
after_find max_players online time player info (in_priority i) slot =
    retry max_players online time (in_priority i) slot info
after_find max_players online time player info (in_wait i) slot =
    retry max_players online time (in_wait i) slot info

-- The part of `clientLogin` behind the two cleanups.
queue_login : ℕ → ℕ → ℕ → Player → WaitListInfo → Option (Bool × WaitListInfo)
queue_login max_players online time player info =
    let found = find_client player.guid info in
    after_find max_players online time player info found.0 found.1

is_empty : List Wait → Bool
is_empty [] = true
is_empty (w ∷ ws) = false

pub client_login : ℕ → ℕ → ℕ → Player → WaitListInfo → Option (Bool × WaitListInfo)
unfolding is_empty
client_login max_players online time player info =
    if player.can_always_login || player.is_gamemaster
    then some (true, info)
    else if max_players == 0
        || is_empty info.priority_wait_list && is_empty info.wait_list && ltb online max_players
    then some (true, info)
    else queue_login max_players online time player (cleanup time info)

pub get_client_slot : Player → WaitListInfo → ℕ
get_client_slot player info =
    let (place, slot) = find_client player.guid info in elim place [ at_end ↦ 0 | _ ↦ slot ]
