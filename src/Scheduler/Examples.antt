-- ===== src/Scheduler/Examples.antt =====
-- Tests of the scheduler.
use odirion_mmoserver.Base.{◌≡◌, refl, false, List, [], ◌∷◌, arith}
use odirion_mmoserver.Scheduler.{
  SchedulerTask, Action, adds, runs, has, insert, erase, push, add_event, next_event_id, stop_event,
  run_top, act, note, dispatched, perform,
}
use odirion_mmoserver.Scheduler.Stopping.{started, stop_event-stops}

abbrev early : SchedulerTask
early = record { event_id = 0; cycle = 100 }

abbrev late : SchedulerTask
late = record { event_id = 0; cycle = 500 }

abbrev plan : List Action
plan = adds late ∷ adds early ∷ []

in_order : dispatched (runs ∷ runs ∷ runs ∷ []) (perform plan started) ≡ 2 ∷ 1 ∷ []
unfolding dispatched perform act add_event next_event_id push insert has erase run_top note
in_order = refl

stop_event-stops_example :
    has 2
      (dispatched (runs ∷ adds early ∷ runs ∷ runs ∷ []) (stop_event 2 (perform plan started)).1)
    ≡ false
unfolding perform act add_event next_event_id
stop_event-stops_example =
    stop_event-stops 2 plan (runs ∷ adds early ∷ runs ∷ runs ∷ []) (omega arith) (omega arith)
      (omega arith) (tt, (omega arith, (tt, (tt, tt))))
