-- ===== src/Dispatcher/Examples.antt =====
-- Two tasks that wait, and one more that comes before the shutdown.
use odirion_mmoserver.Base.{ℕ, ◌≡◌, refl, arith, true, false, List, [], ◌∷◌, ◌++◌}
use odirion_mmoserver.Dispatcher.{
  Task, Job, job, terminate, Dispatcher, thread_state_running, Event, adds, turns_at, shuts_down,
  stops, step, run, is_terminated, is_running, has_expired, execute, take_from, take_turn, add_task,
  shutdown_dispatcher, stop_thread,
}
use odirion_mmoserver.Dispatcher.Order.{
  Waits, jobs, turn_count, run-takes, front_count, IsSublist, run-takes_all,
}

abbrev task : ℕ → ℕ → Task
task expiration func = record { expiration = expiration; func = func }

abbrev waiting : List Job
waiting = job (task 0 1) ∷ job (task 50 2) ∷ []

abbrev dispatcher : Dispatcher
dispatcher = record {
  thread_state = thread_state_running;
  task_list = waiting;
  dispatcher_cycle = 0;
  finished = false;
}

abbrev events : List Event
events =
    adds (task 0 3) false
    ∷ turns_at 100
    ∷ shuts_down
    ∷ turns_at 100
    ∷ turns_at 101
    ∷ turns_at 102
    ∷ []

dispatcher-Waits : Waits waiting dispatcher
unfolding Waits is_terminated
dispatcher-Waits = (refl, refl, [], refl)

run-takes_example : (more : List Job) × (jobs (run events dispatcher).0 ≡ waiting ++ more)
unfolding turn_count
run-takes_example =
    run-takes events waiting dispatcher (refl, (tt, (tt, (tt, (tt, (tt, tt)))))) (tt, (tt, tt))
      dispatcher-Waits (omega arith)

-- A task that comes in front before the first two are taken.
abbrev with_front : List Event
with_front =
    turns_at 100
    ∷ adds (task 0 9) true
    ∷ adds (task 0 3) false
    ∷ turns_at 100
    ∷ stops
    ∷ turns_at 101
    ∷ []

run-takes_all_example : IsSublist waiting (jobs (run with_front dispatcher).0)
unfolding turn_count front_count
run-takes_all_example =
    run-takes_all with_front waiting dispatcher (tt, (tt, tt)) dispatcher-Waits (omega arith)

takes_front_between :
    jobs (run with_front dispatcher).0 ≡ job (task 0 1) ∷ job (task 0 9) ∷ job (task 50 2) ∷ []
unfolding run step take_turn take_from execute has_expired add_task is_running is_terminated
    stop_thread
takes_front_between = refl

-- The second task has expired, and the shutdown comes last.
takes_in_order :
    (run events dispatcher).0
    ≡ (job (task 0 1), true)
      ∷ (job (task 50 2), false)
      ∷ (job (task 0 3), true)
      ∷ (terminate, true)
      ∷ []
unfolding run step take_turn take_from execute has_expired add_task shutdown_dispatcher is_running
    is_terminated
takes_in_order = refl
