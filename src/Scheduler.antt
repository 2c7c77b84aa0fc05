-- ===== src/Scheduler.antt =====
-- scheduler.h and scheduler.cpp, under the lock that each operation takes. `std::priority_queue` is a
-- list in the order of the cycles; which of two equal cycles comes first is left to the library.
pub mod Stopping
mod Examples
use odirion_mmoserver.Base.{
  ℕ, suc, ◌+◌, ◌^◌, Bool, true, false, not, ◌&&◌, ◌||◌, Option, none, some, List, [], ◌∷◌, leb,
  ◌==◌, if◌then◌else◌, u32,
}

pub record SchedulerTask : Type 0 where
  pub event_id : ℕ
  pub cycle : ℕ

pub record Scheduler : Type 0 where
  pub running : Bool
  pub last_event_id : ℕ
  pub event_list : List SchedulerTask
  pub event_ids : List ℕ

-- The set of the identifiers: `find`, `insert` and `erase`.
unfoldable pub has : ℕ → List ℕ → Bool
has i [] = false
has i (j ∷ js) = i == j || has i js

unfoldable pub insert : ℕ → List ℕ → List ℕ
insert i js = if has i js then js else i ∷ js

unfoldable pub erase : ℕ → List ℕ → List ℕ
erase i [] = []
erase i (j ∷ js) = if i == j then js else j ∷ erase i js

-- `eventList.push`.
unfoldable pub push : SchedulerTask → List SchedulerTask → List SchedulerTask
push t [] = t ∷ []
push t (u ∷ us) = if leb t.cycle u.cycle then t ∷ (u ∷ us) else u ∷ push t us

-- `++lastEventId`, past 0.
unfoldable pub next_event_id : ℕ → ℕ
next_event_id last = let i = u32 (last + 1) in if i == 0 then 1 else i

-- `addEvent`, with the identifier that it returns.
unfoldable pub add_event : SchedulerTask → Scheduler → ℕ × Scheduler
add_event t s =
    if not s.running
    then (0, s)
    else let last = if t.event_id == 0 then next_event_id s.last_event_id else s.last_event_id in
      let i = if t.event_id == 0 then last else t.event_id in
      (
        i,
        record s {
          last_event_id = last;
          event_ids = insert i s.event_ids;
          event_list = push (record t { event_id = i }) s.event_list;
        },
      )

unfoldable pub stop_event : ℕ → Scheduler → Bool × Scheduler
stop_event i s =
    if i == 0
    then (false, s)
    else if has i s.event_ids
    then (true, record s { event_ids = erase i s.event_ids })
    else (false, s)

-- The branch of `threadMain` after a timeout: the identifier that is handed to the dispatcher.
unfoldable pub run_top : Scheduler → Option ℕ × Scheduler
run_top s = elim s.event_list [
  | [] ↦ (none, s)
  | t ∷ ts ↦
      if has t.event_id s.event_ids
      then (some t.event_id, record s { event_list = ts; event_ids = erase t.event_id s.event_ids })
      else (none, record s { event_list = ts })
]

unfoldable pub shutdown : Scheduler → Scheduler
shutdown s = record s { running = false; event_list = []; event_ids = [] }

-- What the threads of the server do with it, one after the other.
pub data Action : Type 0 where
  adds : SchedulerTask → Action
  stops : ℕ → Action
  runs shuts : Action

unfoldable pub act : Action → Scheduler → Option ℕ × Scheduler
act (adds t) s = (none, (add_event t s).1)
act (stops i) s = (none, (stop_event i s).1)
act runs s = run_top s
act shuts s = (none, shutdown s)

unfoldable pub note : Option ℕ → List ℕ → List ℕ
note none is = is
note (some i) is = i ∷ is

-- The identifiers that were dispatched, in order.
unfoldable pub dispatched : List Action → Scheduler → List ℕ
dispatched [] s = []
dispatched (a ∷ rest) s = let r = act a s in note r.0 (dispatched rest r.1)

unfoldable pub perform : List Action → Scheduler → Scheduler
perform [] s = s
perform (a ∷ rest) s = perform rest (act a s).1
