-- ===== src/Dispatcher/Order.antt =====
-- The order in which the dispatcher takes its tasks, and that it takes all of them.
use mathlib.Core.List.{append_assoc}
use odirion_mmoserver.Base.{
  ℕ, suc, ◌+◌, ◌≤◌, ◌≡◌, ◌⊎◌, inl, inr, refl, sym, ap, subst, ◌∙◌, Bool, true, false, if◌then◌else◌,
  List, [], ◌∷◌, ◌++◌, map, arith, length, All, Bool-cases,
}
use odirion_mmoserver.Dispatcher.{
  Task, Job, job, terminate, has_expired, Dispatcher, is_running, is_terminated, add_task,
  shutdown_dispatcher, stop_thread, execute, take_from, take_turn, Event, adds, turns_at,
  shuts_down, stops, step, run,
}

-- A task added to the back, and no action that adds one to the front.
abbrev pub IsOrdered : Event → Type 0
IsOrdered (adds t push_front) = push_front ≡ false
IsOrdered _ = Unit

abbrev pub IsTask : Job → Type 0
IsTask (job t) = Unit
IsTask terminate = ⊥

-- How often the thread looks at its list.
unfoldable pub turn_count : List Event → ℕ
turn_count [] = 0
turn_count (turns_at now ∷ as') = suc (turn_count as')
turn_count (adds t push_front ∷ as') = turn_count as'
turn_count (shuts_down ∷ as') = turn_count as'
turn_count (stops ∷ as') = turn_count as'

abbrev pub jobs : List (Job × Bool) → List Job
jobs rs = map (λ r. r.0) rs

-- An action that puts nothing in front keeps the tasks that wait.
unfoldable pub Waits : List Job → Dispatcher → Type 0
Waits q d =
    (is_terminated d.thread_state ≡ false)
    × (d.finished ≡ false)
    × (r : List Job) × (d.task_list ≡ q ++ r)

-- What a turn takes where a task waits.
taken :
    (now : ℕ) (t : Task) (js r : List Job) (d : Dispatcher)
    → is_terminated d.thread_state ≡ false
    → d.finished ≡ false
    → d.task_list ≡ job t ∷ (js ++ r)
    → take_turn now d ≡ take_from now d false false (job t ∷ (js ++ r))
unfolding take_turn
taken now t js r d alive goes_on e = λ i. take_from now d (goes_on i) (alive i) (e i)

-- Taking a task leaves the others, and the thread goes on.
execute-Waits :
    (now : ℕ) (t : Task) (js r : List Job) (d : Dispatcher)
    → is_terminated d.thread_state ≡ false
    → d.finished ≡ false
    → Waits js (execute now (job t) (record d { task_list = js ++ r })).1
unfolding Waits execute
execute-Waits now t js r d alive goes_on = elim (Bool-cases (has_expired now t)) [
  | inl y ↦ rw y (alive, goes_on, r, refl)
  | inr n ↦ rw n (alive, goes_on, r, refl)
]

add_task-Waits :
    (t : Task) (q : List Job) (d : Dispatcher) → Waits q d → Waits q (add_task t false d)
unfolding Waits add_task
add_task-Waits t q d (alive, goes_on, r, e) = elim (Bool-cases (is_running d.thread_state)) [
  | inl y ↦
      rw y (
        alive,
        goes_on,
        r ++ job t ∷ [],
        ap (λ l. l ++ job t ∷ []) e ∙ append_assoc q r (job t ∷ []),
      )
  | inr n ↦ rw n (alive, goes_on, r, e)
]

-- An action takes the first task of those that wait, or it is no turn and they wait on.
step-Waits :
    (a : Event) (t : Task) (js : List Job) (d : Dispatcher)
    → IsOrdered a
    → Waits (job t ∷ js) d
    → ((jobs (step a d).0 ≡ []) × Waits (job t ∷ js) (step a d).1 × (turn_count (a ∷ []) ≡ 0))
      ⊎ ((jobs (step a d).0 ≡ job t ∷ []) × Waits js (step a d).1)
unfolding step Waits turn_count take_from shutdown_dispatcher stop_thread is_terminated
step-Waits (adds t' push_front) t js d o w = inl (
  refl,
  subst (λ b. Waits (job t ∷ js) (add_task t' b d)) (sym o) (add_task-Waits t' (job t ∷ js) d w),
  refl,
)
step-Waits (turns_at now) t js d o (alive, goes_on, r, e) = inr (
  ap (λ x. jobs x.0) (taken now t js r d alive goes_on e),
  subst (λ x. Waits js x.1) (sym (taken now t js r d alive goes_on e))
      (execute-Waits now t js r d alive goes_on),
)
step-Waits shuts_down t js d o (alive, goes_on, r, e) = inl (
  refl,
  (
    alive,
    goes_on,
    r ++ terminate ∷ [],
    ap (λ l. l ++ terminate ∷ []) e ∙ append_assoc (job t ∷ js) r (terminate ∷ []),
  ),
  refl,
)
step-Waits stops t js d o (alive, goes_on, r, e) = inl (refl, (refl, goes_on, r, e), refl)

turn_count-cons :
    (a : Event) (as' : List Event) → turn_count (a ∷ as') ≡ turn_count (a ∷ []) + turn_count as'
unfolding turn_count
turn_count-cons (adds t b) as' = omega arith
turn_count-cons (turns_at now) as' = omega arith
turn_count-cons shuts_down as' = omega arith
turn_count-cons stops as' = omega arith

turn_count-at_most : (a : Event) → turn_count (a ∷ []) ≤ 1
unfolding turn_count
turn_count-at_most (adds t b) = omega arith
turn_count-at_most (turns_at now) = omega arith
turn_count-at_most shuts_down = omega arith
turn_count-at_most stops = omega arith

jobs-append : (xs ys : List (Job × Bool)) → jobs (xs ++ ys) ≡ jobs xs ++ jobs ys
jobs-append [] ys = refl
jobs-append (x ∷ xs) ys = ap (λ l. x.0 ∷ l) (jobs-append xs ys)

-- From a thread that has not ended and whose list begins with these tasks, any actions that put nothing in front and
-- in which the thread looks at its list as often as there are tasks take all of these first, in their order; a shutdown
-- meanwhile does not stop that.
pub run-takes :
    (events : List Event) (q : List Job) (d : Dispatcher)
    → All IsOrdered events
    → All IsTask q
    → Waits q d
    → length q ≤ turn_count events
    → (more : List Job) × (jobs (run events d).0 ≡ q ++ more)
unfolding run turn_count
run-takes events [] d o tasks w enough = (jobs (run events d).0, refl)
run-takes [] (j ∷ js) d o tasks w enough = absurd (omega (arith, enough))
run-takes (a ∷ as') (terminate ∷ js) d o tasks w enough = absurd tasks.0
run-takes (a ∷ as') (job t ∷ js) d o tasks w enough =
    let c = turn_count-cons a as' in
    let split = jobs-append (step a d).0 (run as' (step a d).1).0 in
    elim (step-Waits a t js d o.0 w) [
      | inl (nothing, w', none_taken) ↦
          let (more, e) =
            run-takes as' (job t ∷ js) (step a d).1 o.1 tasks w'
              (omega (arith, c, none_taken, enough)) in
          (more, split ∙ rw nothing e)
      | inr (first, w') ↦
          let (more, e) =
            run-takes as' js (step a d).1 o.1 tasks.1 w'
              (omega (arith, c, enough, turn_count-at_most a)) in
          (more, split ∙ rw first (ap (λ l. job t ∷ l) e))
    ]

-- The tasks that come in front.
unfoldable pub front_count : List Event → ℕ
front_count [] = 0
front_count (adds t push_front ∷ as') = (if push_front then 1 else 0) + front_count as'
front_count (turns_at now ∷ as') = front_count as'
front_count (shuts_down ∷ as') = front_count as'
front_count (stops ∷ as') = front_count as'

-- The first list is left when elements of the second one are dropped.
unfoldable pub IsSublist : List Job → List Job → Type 0
IsSublist [] ys = Unit
IsSublist (x ∷ xs) [] = ⊥
IsSublist (x ∷ xs) (y ∷ ys) = ((x ≡ y) × IsSublist xs ys) ⊎ IsSublist (x ∷ xs) ys

IsSublist-skip : (y : Job) (xs ys : List Job) → IsSublist xs ys → IsSublist xs (y ∷ ys)
unfolding IsSublist
IsSublist-skip y [] ys h = tt
IsSublist-skip y (x ∷ xs) ys h = inr h

IsSublist-tail : (x : Job) (xs ys : List Job) → IsSublist (x ∷ xs) ys → IsSublist xs ys
unfolding IsSublist
IsSublist-tail x xs [] h = absurd h
IsSublist-tail x xs (y ∷ ys) (inl (e, h)) = IsSublist-skip y xs ys h
IsSublist-tail x xs (y ∷ ys) (inr h) = IsSublist-skip y xs ys (IsSublist-tail x xs ys h)

front_count-cons : (a : Event) (as' : List Event) → front_count as' ≤ front_count (a ∷ as')
unfolding front_count
front_count-cons (adds t b) as' = omega arith
front_count-cons (turns_at now) as' = omega arith
front_count-cons shuts_down as' = omega arith
front_count-cons stops as' = omega arith

-- A task that comes in front waits before the others, if the thread takes tasks on at all.
add_front-Waits :
    (t : Task) (q : List Job) (d : Dispatcher)
    → Waits q d
    → Waits q (add_task t true d) ⊎ Waits (job t ∷ q) (add_task t true d)
unfolding Waits add_task
add_front-Waits t q d (alive, goes_on, r, e) = elim (Bool-cases (is_running d.thread_state)) [
  | inl y ↦ rw y (inr (alive, goes_on, r, ap (λ l. job t ∷ l) e))
  | inr n ↦ rw n (inl (alive, goes_on, r, e))
]

shutdown-Waits : (q : List Job) (d : Dispatcher) → Waits q d → Waits q (shutdown_dispatcher d)
unfolding Waits shutdown_dispatcher
shutdown-Waits q d (alive, goes_on, r, e) = (
  alive,
  goes_on,
  r ++ terminate ∷ [],
  ap (λ l. l ++ terminate ∷ []) e ∙ append_assoc q r (terminate ∷ []),
)

-- From a thread that has not ended and whose list begins with these tasks, whatever is added in front or behind and whether it is shut
-- down or stopped meanwhile: if the thread looks at its list as often as there are tasks at first and tasks added in
-- front, then it takes all of the first ones, in their order.
pub run-takes_all :
    (events : List Event) (q : List Job) (d : Dispatcher)
    → All IsTask q
    → Waits q d
    → length q + front_count events ≤ turn_count events
    → IsSublist q (jobs (run events d).0)
unfolding run step turn_count IsSublist front_count Waits stop_thread is_terminated take_from
run-takes_all events [] d tasks w enough = tt
run-takes_all [] (j ∷ js) d tasks w enough = absurd (omega (arith, enough))
run-takes_all (a ∷ as') (terminate ∷ js) d tasks w enough = absurd tasks.0
run-takes_all (adds t true ∷ as') (job u ∷ js) d tasks w enough =
    elim (add_front-Waits t (job u ∷ js) d w) [
      | inl w' ↦ run-takes_all as' (job u ∷ js) (add_task t true d) tasks w' (omega (arith, enough))
      | inr w' ↦ IsSublist-tail (job t) (job u ∷ js) _ (
          run-takes_all as' (job t ∷ job u ∷ js) (add_task t true d) (tt, tasks) w'
            (omega (arith, enough)))
    ]
run-takes_all (adds t false ∷ as') (job u ∷ js) d tasks w enough =
    run-takes_all as' (job u ∷ js) (add_task t false d) tasks (add_task-Waits t (job u ∷ js) d w)
      (omega (arith, enough))
run-takes_all (turns_at now ∷ as') (job u ∷ js) d tasks (alive, goes_on, r, e) enough =
    let turn = taken now u js r d alive goes_on e in
    let rest =
      run-takes_all as' js (take_turn now d).1 tasks.1
        (subst (λ x. Waits js x.1) (sym turn) (execute-Waits now u js r d alive goes_on))
        (omega (arith, enough)) in
    let first : jobs (take_turn now d).0 ≡ job u ∷ [] = ap (λ x. jobs x.0) turn in
    subst (IsSublist (job u ∷ js))
      (sym (
        jobs-append (take_turn now d).0 _
        ∙ ap (λ l. l ++ jobs (run as' (take_turn now d).1).0) first))
      (inl (refl, rest))
run-takes_all (shuts_down ∷ as') (job u ∷ js) d tasks w enough =
    run-takes_all as' (job u ∷ js) (shutdown_dispatcher d) tasks (shutdown-Waits (job u ∷ js) d w)
      (omega (arith, enough))
run-takes_all (stops ∷ as') (job u ∷ js) d tasks (alive, goes_on, r, e) enough =
    run-takes_all as' (job u ∷ js) (stop_thread d) tasks (refl, goes_on, r, e)
      (omega (arith, enough))
