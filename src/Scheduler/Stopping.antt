-- ===== src/Scheduler/Stopping.antt =====
-- An event that was stopped is not run.
use odirion_mmoserver.Base.{
  ℕ, ◌+◌, ◌^◌, ◌≤◌, ◌<◌, ◌≡◌, ◌≢◌, ◌⊎◌, refl, sym, ap, ◌∙◌, inl, inr, true, false, not, some, List,
  [], ◌∷◌, arith, ◌==◌, u32, Bool-cases, Option-cases, All, length,
}
use odirion_mmoserver.Scheduler.{
  Scheduler, has, insert, erase, next_event_id, add_event, stop_event, run_top, shutdown, Action,
  adds, stops, runs, shuts, act, note, dispatched, perform,
}

-- No identifier is in the set twice.
abbrev pub IsSetOfIds : List ℕ → Type 0
IsSetOfIds [] = Unit {0}
IsSetOfIds (i ∷ is) = (has i is ≡ false) × IsSetOfIds is

has-insert : (i j : ℕ) (js : List ℕ) → i ≢ j → has i (insert j js) ≡ has i js
unfolding has insert
has-insert i j js ne = ground arith

has-erase : (i j : ℕ) (js : List ℕ) → has i js ≡ false → has i (erase j js) ≡ false
unfolding has erase
has-erase i j [] h = refl
has-erase i j (k ∷ ks) h = ground (arith, has-erase i j ks)

has-erase_itself : (i : ℕ) (js : List ℕ) → IsSetOfIds js → has i (erase i js) ≡ false
unfolding has erase
has-erase_itself i [] d = refl
has-erase_itself i (k ∷ ks) d = ground (arith, has-erase_itself i ks (d.1), d.0)

insert-IsSet : (i : ℕ) (js : List ℕ) → IsSetOfIds js → IsSetOfIds (insert i js)
unfolding insert
insert-IsSet i js d = elim (Bool-cases (has i js)) [ inl y ↦ rw y d | inr n ↦ rw n (n, d) ]

erase-IsSet : (i : ℕ) (js : List ℕ) → IsSetOfIds js → IsSetOfIds (erase i js)
unfolding erase
erase-IsSet i [] d = tt
erase-IsSet i (k ∷ ks) d = elim (Bool-cases (i == k)) [
  | inl y ↦ rw y (d.1)
  | inr n ↦ rw n (has-erase k i ks (d.0), erase-IsSet i ks (d.1))
]

List-cases : {A : Type 0} (xs : List A) → (xs ≡ []) ⊎ ((x : A) × (ys : List A) × (xs ≡ x ∷ ys))
List-cases [] = inl refl
List-cases (x ∷ xs) = inr (x, xs, refl)

-- The action does not ask for the identifier.
abbrev pub Spares : ℕ → Action → Type 0
Spares i (adds t) = t.event_id ≢ i
Spares i _ = Unit {0}

-- An identifier that is not active, and older than those to come, stays so.
act-Spares :
    (i : ℕ) (a : Action) (s : Scheduler)
    → Spares i a
    → i ≢ 0
    → i ≤ s.last_event_id
    → s.last_event_id + 1 < 2 ^ 32
    → has i s.event_ids ≡ false
    → let r = act a s in
      (has i r.1.event_ids ≡ false)
      × (r.0 ≢ some i)
      × (s.last_event_id ≤ r.1.last_event_id)
      × (r.1.last_event_id ≤ s.last_event_id + 1)
unfolding act add_event stop_event run_top shutdown next_event_id has
act-Spares i (adds t) s ne nz old room h = ground (
  arith,
  has-insert i t.event_id s.event_ids,
  has-insert i (u32 (s.last_event_id + 1)) s.event_ids,
)
act-Spares i (stops j) s ne nz old room h = ground (arith, has-erase i j s.event_ids)
act-Spares i runs s ne nz old room h = elim (List-cases s.event_list) [
  | inl e ↦ rw e (h, (λ k. cc), omega arith, omega arith)
  | inr (t, ts, e) ↦ rw e (ground (arith, has-erase i t.event_id s.event_ids))
]
act-Spares i shuts s ne nz old room h = (refl, (λ k. cc), omega arith, omega arith)

dispatched-Spares :
    (i : ℕ) (actions : List Action) (s : Scheduler)
    → All (Spares i) actions
    → i ≢ 0
    → i ≤ s.last_event_id
    → s.last_event_id + length actions < 2 ^ 32
    → has i s.event_ids ≡ false
    → has i (dispatched actions s) ≡ false
unfolding dispatched note has
dispatched-Spares i [] s spares nz old room h = refl
dispatched-Spares i (a ∷ rest) s spares nz old room h =
    let r = act-Spares i a s (spares.0) nz old (omega arith) h in
    let later =
      dispatched-Spares i rest (act a s).1 (spares.1) nz (omega (arith, r.2))
        (omega (arith, r.3, room)) (r.0) in
    elim (Option-cases (act a s).0) [
      | inl e ↦ rw (e, note) later
      | inr (j, e) ↦
          rw (e, note)
            (let apart : i ≢ j = λ k. r.1 (e ∙ ap some (sym k)) in ground (arith, later, apart))
    ]

act-IsSet : (a : Action) (s : Scheduler) → IsSetOfIds s.event_ids → IsSetOfIds (act a s).1.event_ids
unfolding act add_event stop_event run_top shutdown
act-IsSet (adds t) s d = elim (Bool-cases (not s.running)) [
  | inl y ↦ rw y d
  | inr n ↦ rw n (insert-IsSet _ s.event_ids d)
]
act-IsSet (stops i) s d = elim (Bool-cases (i == 0)) [
  | inl y ↦ rw y d
  | inr n ↦ rw n (elim (Bool-cases (has i s.event_ids)) [
    | inl y ↦ rw y (erase-IsSet i s.event_ids d)
    | inr n' ↦ rw n' d
  ])
]
act-IsSet runs s d = elim (List-cases s.event_list) [
  | inl e ↦ rw e d
  | inr (t, ts, e) ↦ rw e (elim (Bool-cases (has t.event_id s.event_ids)) [
    | inl y ↦ rw y (erase-IsSet t.event_id s.event_ids d)
    | inr n ↦ rw n d
  ])
]
act-IsSet shuts s d = tt

perform-IsSet :
    (actions : List Action) (s : Scheduler)
    → IsSetOfIds s.event_ids
    → IsSetOfIds (perform actions s).event_ids
unfolding perform
perform-IsSet [] s d = d
perform-IsSet (a ∷ rest) s d = perform-IsSet rest (act a s).1 (act-IsSet a s d)

stop_event-erases :
    (i : ℕ) (s : Scheduler)
    → i ≢ 0
    → IsSetOfIds s.event_ids
    → (has i (stop_event i s).1.event_ids ≡ false)
      × ((stop_event i s).1.last_event_id ≡ s.last_event_id)
unfolding stop_event
stop_event-erases i s nz d = ground (arith, has-erase_itself i s.event_ids d)

abbrev pub started : Scheduler
started = record { running = true; last_event_id = 0; event_list = []; event_ids = [] }

-- After any actions on a scheduler that was just started, an event that is stopped by an identifier
-- given out before is not dispatched by any later actions that do not ask for this identifier
-- themselves, while the counter of the identifiers does not wrap.
pub stop_event-stops :
    (i : ℕ) (before later : List Action)
    → i ≢ 0
    → i ≤ (perform before started).last_event_id
    → (perform before started).last_event_id + length later < 2 ^ 32
    → All (Spares i) later
    → has i (dispatched later (stop_event i (perform before started)).1) ≡ false
stop_event-stops i before later nz old room spares =
    let s = perform before started in
    let e = stop_event-erases i s nz (perform-IsSet before started tt) in
    dispatched-Spares i later (stop_event i s).1 spares nz (omega (arith, e.1)) (omega (arith, e.1))
      (e.0)
