-- ===== src/WaitList/Login.antt =====
-- `clientLogin` keeps the queue free of duplicates.
use odirion_mmoserver.Base.{
  ℕ, ◌+◌, ◌<◌, ◌≡◌, ◌≢◌, ◌⊎◌, refl, sym, subst, inl, inr, Bool, ◌&&◌, ◌||◌, Option, none, some,
  arith, ltb, leb, ◌==◌, Bool-cases, Option-cases, All-append, All-map, All-zip,
}
use odirion_mmoserver.WaitList.{
  WaitListInfo, Player, cleanup_list, index_of, find_client, is_empty, deadline, Place, in_priority,
  in_wait, at_end, cleanup, enqueue, erase, wait_longer, retry, after_find, queue_login,
  client_login,
}
use odirion_mmoserver.WaitList.Queue.{
  Absent, IsQueue, index_of-Absent, cleanup_list-Absent, erase_at-Absent, set_timeout-Absent,
  All-set_timeout, All-cleanup_list, IsDistinct-cleanup_list, IsDistinct-erase_at,
  IsDistinct-set_timeout, IsDistinct-snoc,
}

cleanup-IsQueue : (time : ℕ) (info : WaitListInfo) → IsQueue info → IsQueue (cleanup time info)
unfolding cleanup
cleanup-IsQueue time info q = record {
  priority = IsDistinct-cleanup_list time info.priority_wait_list q.priority;
  normal = IsDistinct-cleanup_list time info.wait_list q.normal;
  apart =
      All-map (λ w. cleanup_list-Absent w.player_guid time info.wait_list)
        (cleanup_list time info.priority_wait_list)
        (All-cleanup_list _ time info.priority_wait_list q.apart);
}

erase-IsQueue :
    (place : Place) (info rest : WaitListInfo)
    → erase place info ≡ some rest
    → IsQueue info
    → IsQueue rest
unfolding erase
erase-IsQueue (in_priority i) info rest e q = cc
erase-IsQueue at_end info rest e q = cc
erase-IsQueue (in_wait i) info rest e q = subst IsQueue (ground arith) (record {
  priority = q.priority;
  normal = IsDistinct-erase_at i info.wait_list q.normal;
  apart =
      All-map (λ w. erase_at-Absent w.player_guid i info.wait_list) info.priority_wait_list q.apart;
})

wait_longer-IsQueue :
    (time slot : ℕ) (place : Place) (info : WaitListInfo)
    → IsQueue info
    → IsQueue (wait_longer time slot place info)
unfolding wait_longer
wait_longer-IsQueue time slot (in_priority i) info q = record {
  priority = IsDistinct-set_timeout i (deadline time slot) info.priority_wait_list q.priority;
  normal = q.normal;
  apart = All-set_timeout (λ w t h. h) i (deadline time slot) info.priority_wait_list q.apart;
}
wait_longer-IsQueue time slot (in_wait i) info q = record {
  priority = q.priority;
  normal = IsDistinct-set_timeout i (deadline time slot) info.wait_list q.normal;
  apart =
      All-map (λ w. set_timeout-Absent w.player_guid i (deadline time slot) info.wait_list)
        info.priority_wait_list q.apart;
}
wait_longer-IsQueue time slot at_end info q = q

abbrev pub IsAbsent : ℕ → WaitListInfo → Type 0
IsAbsent guid info = Absent guid info.priority_wait_list × Absent guid info.wait_list

enqueue-IsQueue :
    (time : ℕ) (player : Player) (info : WaitListInfo)
    → IsAbsent player.guid info
    → IsQueue info
    → IsQueue (enqueue time player info)
unfolding enqueue
enqueue-IsQueue time player info a q = elim (Bool-cases player.is_premium) [
  | inl y ↦ rw y (record {
    priority = IsDistinct-snoc _ info.priority_wait_list (a.0) (q.priority);
    normal = q.normal;
    apart = All-append _ info.priority_wait_list _ (q.apart) ((a.1, tt));
  })
  | inr n ↦ rw n (record {
    priority = q.priority;
    normal = IsDistinct-snoc _ info.wait_list (a.1) (q.normal);
    apart =
        All-zip (λ w h k. All-append _ info.wait_list _ h (((λ e. k (sym e)), tt)))
          info.priority_wait_list (q.apart) (a.0);
  })
]

-- Where `findClient` finds nobody, the player is in neither list.
pub find_client-at_end :
    (guid : ℕ) (info : WaitListInfo) → (find_client guid info).0 ≡ at_end → IsAbsent guid info
unfolding find_client
find_client-at_end guid info e = (
  index_of-Absent guid info.priority_wait_list (ground arith),
  index_of-Absent guid info.wait_list (ground arith),
)

-- What holds of the queue after every result that is defined.
abbrev pub Keeps : (WaitListInfo → Type 0) → Option (Bool × WaitListInfo) → Type 0
Keeps P none = Unit {0}
Keeps P (some (ok, info)) = P info

retry-IsQueue :
    (max_players online time : ℕ) (place : Place) (slot : ℕ) (info : WaitListInfo)
    → IsQueue info
    → Keeps IsQueue (retry max_players online time place slot info)
unfolding retry
retry-IsQueue max_players online time place slot info q =
    elim (Bool-cases (leb (online + slot) max_players)) [
      | inl y ↦ elim (Option-cases (erase place info)) [
        | inl e ↦ rw (y, e, retry) tt
        | inr (rest, e) ↦ rw (y, e, retry) (erase-IsQueue place info rest e q)
      ]
      | inr n ↦ rw n (wait_longer-IsQueue time slot place info q)
    ]

after_find-IsQueue :
    (max_players online time : ℕ) (player : Player) (info : WaitListInfo) (place : Place) (slot : ℕ)
    → (place ≡ at_end → IsAbsent player.guid info)
    → IsQueue info
    → Keeps IsQueue (after_find max_players online time player info place slot)
unfolding after_find
after_find-IsQueue max_players online time player info at_end slot a q =
    enqueue-IsQueue time player info (a refl) q
after_find-IsQueue max_players online time player info (in_priority i) slot a q =
    retry-IsQueue max_players online time (in_priority i) slot info q
after_find-IsQueue max_players online time player info (in_wait i) slot a q =
    retry-IsQueue max_players online time (in_wait i) slot info q

login-Keeps :
    (max_players online time : ℕ) (player : Player) (info : WaitListInfo)
    → IsQueue info
    → Keeps IsQueue (client_login max_players online time player info)
unfolding client_login queue_login
login-Keeps max_players online time player info q =
    elim (Bool-cases (player.can_always_login || player.is_gamemaster)) [
      | inl y ↦ rw y q
      | inr n ↦
          rw n
            (elim (Bool-cases (
              max_players == 0
              || is_empty info.priority_wait_list
                && is_empty info.wait_list
                && ltb online max_players)) [
                  | inl y ↦ rw y q
                  | inr n' ↦ rw n' (
                      after_find-IsQueue max_players online time player (cleanup time info) _ _
                        (find_client-at_end player.guid (cleanup time info))
                        (cleanup-IsQueue time info q))
                ])
    ]

find_client-in_priority :
    (guid i : ℕ) (info : WaitListInfo)
    → (find_client guid info).0 ≡ in_priority i
    → index_of guid info.priority_wait_list ≢ none
unfolding find_client
find_client-in_priority guid i info e n = ground arith

-- The erasure that is not defined needs a place in the priority list, within the free places.
after_find-returns :
    (max_players online time : ℕ) (player : Player) (info : WaitListInfo) (place : Place) (slot : ℕ)
    → ((i : ℕ) → place ≡ in_priority i → max_players < online + slot)
    → after_find max_players online time player info place slot ≢ none
unfolding after_find retry erase
after_find-returns max_players online time player info at_end slot full = λ e. cc
after_find-returns max_players online time player info (in_wait i) slot full = ground arith
after_find-returns max_players online time player info (in_priority i) slot full =
    ground (arith, full i refl)

login-returns :
    (max_players online time : ℕ) (player : Player) (info : WaitListInfo)
    → (index_of player.guid (cleanup_list time info.priority_wait_list) ≡ none)
      ⊎ (max_players < online + (find_client player.guid (cleanup time info)).1)
    → client_login max_players online time player info ≢ none
unfolding client_login queue_login cleanup
login-returns max_players online time player info free =
    elim (Bool-cases (player.can_always_login || player.is_gamemaster)) [
      | inl y ↦ rw y (λ e. cc)
      | inr n ↦
          rw n
            (elim (Bool-cases (
              max_players == 0
              || is_empty info.priority_wait_list
                && is_empty info.wait_list
                && ltb online max_players)) [
                  | inl y ↦ rw y (λ e. cc)
                  | inr n' ↦ rw n' (
                      after_find-returns max_players online time player (cleanup time info) _ _
                        (λ i e. elim free [
                          | inl none_there ↦ absurd (
                              find_client-in_priority player.guid i (cleanup time info) e
                                none_there)
                          | inr full ↦ full
                        ]))
                ])
    ]

-- If no player is in the queue twice, and the player of the attempt has no entry in the priority
-- list after the cleanup or his slot is beyond the free places, then the attempt returns and no
-- player is in the queue twice afterwards.
pub client_login-IsQueue :
    (max_players online time : ℕ) (player : Player) (info : WaitListInfo)
    → IsQueue info
    → (index_of player.guid (cleanup_list time info.priority_wait_list) ≡ none)
      ⊎ (max_players < online + (find_client player.guid (cleanup time info)).1)
    → (ok : Bool) × (info' : WaitListInfo) × (client_login max_players online time player info
        ≡ some (ok, info'))
      × IsQueue info'
client_login-IsQueue max_players online time player info q free =
    elim (Option-cases (client_login max_players online time player info)) [
      | inl e ↦ absurd (login-returns max_players online time player info free e)
      | inr ((ok, info'), e) ↦ (
        ok,
        info',
        e,
        subst (Keeps IsQueue) e (login-Keeps max_players online time player info q),
      )
    ]
