-- ===== src/WaitList/Turns.antt =====
-- Who waits after a login attempt, and whose turn it is.
use odirion_mmoserver.Base.{
  ℕ, zero, suc, ◌+◌, ◌≤◌, ◌≡◌, ◌≢◌, refl, inl, inr, Bool, true, false, ◌&&◌, ◌||◌, Option, none,
  some, List, [], ◌∷◌, arith, length, ltb, leb, ◌==◌, Bool-cases, Option-cases,
}
use odirion_mmoserver.WaitList.{
  Wait, WaitListInfo, Player, cleanup_list, index_of, find_client, is_empty, set_timeout, deadline,
  Place, in_priority, in_wait, at_end, cleanup, enqueue, erase, wait_longer, retry, after_find,
  queue_login, client_login,
}
use odirion_mmoserver.WaitList.Queue.{Absent, index_of-snoc}
use odirion_mmoserver.WaitList.Login.{IsAbsent, find_client-at_end}

-- A list in which somebody is found after the cleanup was not empty before it.
not_empty_of_index :
    (guid time i : ℕ) (ws : List Wait)
    → index_of guid (cleanup_list time ws) ≡ some i
    → is_empty ws ≡ false
unfolding index_of cleanup_list is_empty
not_empty_of_index guid time i [] h = cc
not_empty_of_index guid time i (w ∷ ws) h = refl

-- When a client without the right to log in always is in the priority list after the cleanup and it
-- is its turn, its entry is erased through the other list, which is not defined.
pub client_login-erases_through_other_list :
    (max_players online time : ℕ) (player : Player) (info : WaitListInfo) (i : ℕ)
    → player.can_always_login ≡ false
    → player.is_gamemaster ≡ false
    → index_of player.guid (cleanup_list time info.priority_wait_list) ≡ some i
    → online + (i + 1) ≤ max_players
    → client_login max_players online time player info ≡ none
unfolding client_login queue_login find_client cleanup after_find retry erase
client_login-erases_through_other_list max_players online time player info i a g found turn =
    let waits = not_empty_of_index player.guid time i info.priority_wait_list found in
    let open_server : (max_players == 0) ≡ false = ground arith in
    let fits : leb (online + (i + 1)) max_players ≡ true = ground arith in
    rw (a, g, open_server, waits) (rw (found, find_client) (rw fits))

index_of-none : (guid : ℕ) (ws : List Wait) → Absent guid ws → index_of guid ws ≡ none
unfolding index_of
index_of-none guid [] h = refl
index_of-none guid (w ∷ ws) h = ground (arith, index_of-none guid ws (h.1))

index_of-set_timeout :
    (guid i t : ℕ) (ws : List Wait) → index_of guid (set_timeout i t ws) ≡ index_of guid ws
unfolding index_of set_timeout
index_of-set_timeout guid zero t [] = refl
index_of-set_timeout guid (suc i) t [] = refl
index_of-set_timeout guid zero t (w ∷ ws) = refl
index_of-set_timeout guid (suc i) t (w ∷ ws) = rw (index_of-set_timeout guid i t ws)

abbrev IsWaiting : ℕ → WaitListInfo → Type 0
IsWaiting guid info = (find_client guid info).0 ≢ at_end

enqueue-IsWaiting :
    (time : ℕ) (player : Player) (info : WaitListInfo)
    → IsAbsent player.guid info
    → IsWaiting player.guid (enqueue time player info)
unfolding enqueue find_client
enqueue-IsWaiting time player info a = ground (
  arith,
  index_of-none player.guid info.priority_wait_list (a.0),
  index_of-snoc
      (record {
        timeout = deadline time (length info.priority_wait_list + 1);
        player_guid = player.guid;
      })
      info.priority_wait_list (a.0),
  index_of-snoc
      (record {
        timeout = deadline time (length info.priority_wait_list + length info.wait_list + 1);
        player_guid = player.guid;
      })
      info.wait_list (a.1),
)

wait_longer-IsWaiting :
    (guid time slot : ℕ) (place : Place) (info : WaitListInfo)
    → IsWaiting guid info
    → IsWaiting guid (wait_longer time slot place info)
unfolding wait_longer find_client
wait_longer-IsWaiting guid time slot (in_priority i) info h =
    ground (arith, index_of-set_timeout guid i (deadline time slot) info.priority_wait_list)
wait_longer-IsWaiting guid time slot (in_wait i) info h =
    ground (arith, index_of-set_timeout guid i (deadline time slot) info.wait_list)
wait_longer-IsWaiting guid time slot at_end info h = h

-- A refusal leaves the player in the queue.
abbrev pub Waits : ℕ → Option (Bool × WaitListInfo) → Type 0
Waits guid (some (false, info)) = IsWaiting guid info
Waits guid _ = Unit {0}

retry-Waits :
    (max_players online time guid : ℕ) (place : Place) (slot : ℕ) (info : WaitListInfo)
    → IsWaiting guid info
    → Waits guid (retry max_players online time place slot info)
unfolding retry
retry-Waits max_players online time guid place slot info h =
    elim (Bool-cases (leb (online + slot) max_players)) [
      | inl y ↦ elim (Option-cases (erase place info)) [
        | inl e ↦ rw (y, e, retry) tt
        | inr (rest, e) ↦ rw (y, e, retry) tt
      ]
      | inr n ↦ rw n (wait_longer-IsWaiting guid time slot place info h)
    ]

after_find-Waits :
    (max_players online time : ℕ) (player : Player) (info : WaitListInfo) (place : Place) (slot : ℕ)
    → (find_client player.guid info).0 ≡ place
    → Waits player.guid (after_find max_players online time player info place slot)
unfolding after_find
after_find-Waits max_players online time player info at_end slot e =
    enqueue-IsWaiting time player info (find_client-at_end player.guid info e)
after_find-Waits max_players online time player info (in_priority i) slot e =
    retry-Waits max_players online time player.guid (in_priority i) slot info (λ h. cc)
after_find-Waits max_players online time player info (in_wait i) slot e =
    retry-Waits max_players online time player.guid (in_wait i) slot info (λ h. cc)

-- A client that is refused is in the queue afterwards, on every path through the login.
pub client_login-Waits :
    (max_players online time : ℕ) (player : Player) (info : WaitListInfo)
    → Waits player.guid (client_login max_players online time player info)
unfolding client_login queue_login
client_login-Waits max_players online time player info =
    elim (Bool-cases (player.can_always_login || player.is_gamemaster)) [
      | inl y ↦ rw y tt
      | inr n ↦
          rw n
            (elim (Bool-cases (
              max_players == 0
              || is_empty info.priority_wait_list
                && is_empty info.wait_list
                && ltb online max_players)) [
                  | inl y ↦ rw y tt
                  | inr n' ↦
                      rw n' (
                        after_find-Waits max_players online time player (cleanup time info) _ _
                          refl)
                ])
    ]
