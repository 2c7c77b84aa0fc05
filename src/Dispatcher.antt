-- ===== src/Dispatcher.antt =====
-- The dispatcher of tasks.cpp: tasks that the threads add, and the thread that takes them. What happens under the
-- lock is one action; waiting and waking are the thread library's. What a task does is its number.
pub mod Order
mod Examples
use odirion_mmoserver.Base.{
  ℕ, ◌+◌, ◌^◌, Bool, true, false, not, Option, none, some, List, [], ◌∷◌, ◌++◌, ltb, ◌==◌,
  if◌then◌else◌, u64,
}

pub data ThreadState : Type 0 where
  thread_state_running thread_state_closing thread_state_terminated : ThreadState

-- `expiration` is 0 where the task does not expire.
pub record Task : Type 0 where
  pub expiration : ℕ
  pub func : ℕ

-- `Task::hasExpired`.
unfoldable pub has_expired : ℕ → Task → Bool
has_expired now t = if t.expiration == 0 then false else ltb t.expiration now

-- A task of the list, or the one that `shutdown` creates.
pub data Job : Type 0 where
  job : Task → Job
  terminate : Job

-- `finished` is set where the loop of the thread has ended.
pub record Dispatcher : Type 0 where
  pub thread_state : ThreadState
  pub task_list : List Job
  pub dispatcher_cycle : ℕ
  pub finished : Bool

unfoldable pub is_running : ThreadState → Bool
is_running thread_state_running = true
is_running _ = false

unfoldable pub is_terminated : ThreadState → Bool
is_terminated thread_state_terminated = true
is_terminated _ = false

-- `addTask`.
unfoldable pub add_task : Task → Bool → Dispatcher → Dispatcher
add_task t push_front d =
    if is_running d.thread_state
    then record d {
      task_list = if push_front then job t ∷ d.task_list else d.task_list ++ job t ∷ [];
    }
    else d

-- `shutdown`.
unfoldable pub shutdown_dispatcher : Dispatcher → Dispatcher
shutdown_dispatcher d = record d { task_list = d.task_list ++ terminate ∷ [] }

-- `ThreadHolder::stop`.
unfoldable pub stop_thread : Dispatcher → Dispatcher
stop_thread d = record d { thread_state = thread_state_closing }

-- Executing a job at a time, and whether it was executed. The tasks that it adds are actions that follow.
unfoldable pub execute : ℕ → Job → Dispatcher → Bool × Dispatcher
execute now (job t) d =
    if has_expired now t
    then (false, d)
    else (true, record d { dispatcher_cycle = u64 (d.dispatcher_cycle + 1) })
execute now terminate d = (
  true,
  record d {
    thread_state = thread_state_terminated;
    dispatcher_cycle = u64 (d.dispatcher_cycle + 1);
  },
)

-- A turn of the loop of `threadMain`, for what it finds: whether the loop has ended, whether it ends now, and the list.
unfoldable pub take_from : ℕ → Dispatcher → Bool → Bool → List Job → List (Job × Bool) × Dispatcher
take_from now d true ends js = ([], d)
take_from now d false true js = ([], record d { finished = true })
take_from now d false false [] = ([], d)
take_from now d false false (j ∷ js) =
    let r = execute now j (record d { task_list = js }) in ((j, r.0) ∷ [], r.1)

-- The turn: the job that it takes, if any, and whether that is executed.
unfoldable pub take_turn : ℕ → Dispatcher → List (Job × Bool) × Dispatcher
take_turn now d = take_from now d d.finished (is_terminated d.thread_state) d.task_list

-- What the threads do, one after the other.
pub data Event : Type 0 where
  adds : Task → Bool → Event
  turns_at : ℕ → Event
  shuts_down stops : Event

unfoldable pub step : Event → Dispatcher → List (Job × Bool) × Dispatcher
step (adds t push_front) d = ([], add_task t push_front d)
step (turns_at now) d = take_turn now d
step shuts_down d = ([], shutdown_dispatcher d)
step stops d = ([], stop_thread d)

unfoldable pub run : List Event → Dispatcher → List (Job × Bool) × Dispatcher
run [] d = ([], d)
run (a ∷ as') d = let r = step a d in let rest = run as' r.1 in (r.0 ++ rest.0, rest.1)
