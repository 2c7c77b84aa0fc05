-- ===== src/WaitList/Queue.antt =====
-- The lists of the login queue: expiry, slots and the players in them.
use odirion_mmoserver.Base.{
  ℕ, zero, suc, ◌^◌, ◌≤◌, ◌<◌, ◌≡◌, ◌≢◌, refl, sym, inl, inr, Bool-cases, All-append, none, some,
  List, [], ◌∷◌, ◌++◌, arith, length, All,
}
use odirion_mmoserver.WaitList.{
  Wait, WaitListInfo, is_over, cleanup_list, get_time, index_of, erase_at, set_timeout,
}

-- If no entry's time is this very millisecond, the cleanup removes none of them, not even those
-- whose time is past.
pub cleanup_list-keeps_expired :
    (time : ℕ) (ws : List Wait)
    → time < 2 ^ 64
    → All (λ w. (w.timeout < 2 ^ 64) × (w.timeout ≢ time)) ws
    → cleanup_list time ws ≡ ws
unfolding cleanup_list is_over
cleanup_list-keeps_expired time [] h late = refl
cleanup_list-keeps_expired time (w ∷ ws) h late =
    ground (arith, cleanup_list-keeps_expired time ws h (late.1), late.0)

-- A later slot is told to wait at least as long.
pub get_time_mono : (s t : ℕ) → s ≤ t → get_time s ≤ get_time t
unfolding get_time
get_time_mono s t h = ground arith

-- The players of a list, and that none of them is there twice.
abbrev pub Absent : ℕ → List Wait → Type 0
Absent guid ws = All (λ w. w.player_guid ≢ guid) ws

abbrev pub IsDistinct : List Wait → Type 0
IsDistinct [] = Unit {0}
IsDistinct (w ∷ ws) = Absent w.player_guid ws × IsDistinct ws

pub index_of-Absent : (guid : ℕ) (ws : List Wait) → index_of guid ws ≡ none → Absent guid ws
unfolding index_of
index_of-Absent guid [] h = tt
index_of-Absent guid (w ∷ ws) h = ground (arith, index_of-Absent guid ws)

pub index_of-snoc :
    (w : Wait) (ws : List Wait)
    → Absent w.player_guid ws
    → index_of w.player_guid (ws ++ w ∷ []) ≡ some (length ws)
unfolding index_of
index_of-snoc w [] h = ground arith
index_of-snoc w (x ∷ ws) h = ground (arith, index_of-snoc w ws (h.1))

-- Removing entries keeps a list distinct.
pub cleanup_list-Absent :
    (guid time : ℕ) (ws : List Wait) → Absent guid ws → Absent guid (cleanup_list time ws)
unfolding cleanup_list
cleanup_list-Absent guid time [] h = tt
cleanup_list-Absent guid time (w ∷ ws) h = ground (arith, cleanup_list-Absent guid time ws (h.1))

pub erase_at-Absent : (guid i : ℕ) (ws : List Wait) → Absent guid ws → Absent guid (erase_at i ws)
unfolding erase_at
erase_at-Absent guid zero [] h = tt
erase_at-Absent guid (suc i) [] h = tt
erase_at-Absent guid zero (w ∷ ws) h = h.1
erase_at-Absent guid (suc i) (w ∷ ws) h = (h.0, erase_at-Absent guid i ws (h.1))

pub set_timeout-Absent :
    (guid i t : ℕ) (ws : List Wait) → Absent guid ws → Absent guid (set_timeout i t ws)
unfolding set_timeout
set_timeout-Absent guid zero t [] h = tt
set_timeout-Absent guid (suc i) t [] h = tt
set_timeout-Absent guid zero t (w ∷ ws) h = h
set_timeout-Absent guid (suc i) t (w ∷ ws) h = (h.0, set_timeout-Absent guid i t ws (h.1))

-- The changes of one list, for a property of entries that the timeout has no part in.
module _ {P : Wait → Type 0} (same : (w : Wait) (t : ℕ) → P w → P (record w { timeout = t })) where
  pub All-set_timeout : (i t : ℕ) (ws : List Wait) → All P ws → All P (set_timeout i t ws)
  unfolding set_timeout
  All-set_timeout zero t [] h = tt
  All-set_timeout (suc i) t [] h = tt
  All-set_timeout zero t (w ∷ ws) h = (same w t (h.0), h.1)
  All-set_timeout (suc i) t (w ∷ ws) h = (h.0, All-set_timeout i t ws (h.1))

pub All-cleanup_list :
    (P : Wait → Type 0) (time : ℕ) (ws : List Wait) → All P ws → All P (cleanup_list time ws)
unfolding cleanup_list
All-cleanup_list P time [] h = tt
All-cleanup_list P time (w ∷ ws) h = elim (Bool-cases (is_over time w)) [
  | inl y ↦ rw y (All-cleanup_list P time ws (h.1))
  | inr n ↦ rw n (h.0, All-cleanup_list P time ws (h.1))
]

-- A change that keeps all such properties and the entries' order keeps a list distinct.
pub IsDistinct-cleanup_list :
    (time : ℕ) (ws : List Wait) → IsDistinct ws → IsDistinct (cleanup_list time ws)
unfolding cleanup_list
IsDistinct-cleanup_list time [] h = tt
IsDistinct-cleanup_list time (w ∷ ws) h = elim (Bool-cases (is_over time w)) [
  | inl y ↦ rw y (IsDistinct-cleanup_list time ws (h.1))
  | inr n ↦
      rw n (cleanup_list-Absent w.player_guid time ws (h.0), IsDistinct-cleanup_list time ws (h.1))
]

pub IsDistinct-erase_at : (i : ℕ) (ws : List Wait) → IsDistinct ws → IsDistinct (erase_at i ws)
unfolding erase_at
IsDistinct-erase_at zero [] h = tt
IsDistinct-erase_at (suc i) [] h = tt
IsDistinct-erase_at zero (w ∷ ws) h = h.1
IsDistinct-erase_at (suc i) (w ∷ ws) h =
    (erase_at-Absent w.player_guid i ws (h.0), IsDistinct-erase_at i ws (h.1))

pub IsDistinct-set_timeout :
    (i t : ℕ) (ws : List Wait) → IsDistinct ws → IsDistinct (set_timeout i t ws)
unfolding set_timeout
IsDistinct-set_timeout zero t [] h = tt
IsDistinct-set_timeout (suc i) t [] h = tt
IsDistinct-set_timeout zero t (w ∷ ws) h = h
IsDistinct-set_timeout (suc i) t (w ∷ ws) h =
    (set_timeout-Absent w.player_guid i t ws (h.0), IsDistinct-set_timeout i t ws (h.1))

pub IsDistinct-snoc :
    (w : Wait) (ws : List Wait)
    → Absent w.player_guid ws
    → IsDistinct ws
    → IsDistinct (ws ++ w ∷ [])
IsDistinct-snoc w [] a h = (tt, tt)
IsDistinct-snoc w (x ∷ ws) a h = (
  All-append (λ y. y.player_guid ≢ x.player_guid) ws (w ∷ []) (h.0) ((λ e. a.0 (sym e), tt)),
  IsDistinct-snoc w ws (a.1) (h.1),
)

-- The whole queue: no player is in it twice.
pub record IsQueue (info : WaitListInfo) : Type 0 where
  pub priority : IsDistinct info.priority_wait_list
  pub normal : IsDistinct info.wait_list
  pub apart : All (λ w. Absent w.player_guid info.wait_list) info.priority_wait_list
