-- ===== src/TimedTasks/Execution.antt =====
-- When `check_and_execute` calls the operation of a task. The conditions on the clock are that all its
-- readings during the pass lie on one side of the trigger time.
use cpp_assistant.Prelude.{
  ℕ, ◌≡◌, refl, Bool, true, false, not, ◌&&◌, ◌||◌, some, List, [], ◌∷◌, ◌++◌, ◌<◌, arith, ℤ, leb_ℤ,
  if◌then◌else◌, sym, ap, ◌∙◌, subst, Bool-cases, inl, inr, text_eq, text_eq_refl,
}
use cpp_assistant.Prelude.TextMap.{find, modify, find-modify, find-modify-none}
use cpp_assistant.Strings.{Text}
use cpp_assistant.TimedTasks.{
  TimedTaskConfig, TimedTaskMap, is_null, is_periodic, trigger_time, retimed,
  set_event_trigger_time, check_from, check_and_execute, ret_ok,
}
use cpp_assistant.TimedTasks.Pass.{
  Distinct, times, turn, Visited, check_from-Visited, is_waiting, after_call, round_due, round_idle,
}

check-Visited :
    (clock : ℕ → ℤ) (name : Text) (t : TimedTaskConfig) (tasks : TimedTaskMap)
    → Distinct tasks
    → find name tasks ≡ some t
    → (tasks' : TimedTaskMap) × (calls : List Text) × (check_and_execute (some tasks) clock
        ≡ (calls, some tasks'))
      × Visited clock 1 (clock 0) name t tasks (calls, tasks')
unfolding check_and_execute
check-Visited clock name t tasks d h = (
  (check_from clock 1 (clock 0) tasks).1,
  (check_from clock 1 (clock 0) tasks).0,
  refl,
  check_from-Visited clock 1 (clock 0) name t tasks d (0, refl, omega arith) h,
)

-- A task that has an operation, is due at every reading of the clock, and is no event that has triggered,
-- is called once in a pass. After that an event has triggered, and a periodic task has a reading of the
-- clock as its last time that was made before the call: the `cur_time` with which the loop came to it,
-- behind the tasks before it.
pub due_task_runs_once :
    (clock : ℕ → ℤ) (name : Text) (t : TimedTaskConfig) (tasks : TimedTaskMap)
    → Distinct tasks
    → find name tasks ≡ some t
    → is_waiting t ≡ true
    → ((j : ℕ) → leb_ℤ (trigger_time t) (clock j) ≡ true)
    → (tasks' : TimedTaskMap) × (calls : List Text) × (before : TimedTaskMap)
      × (after : TimedTaskMap) × (k : ℕ) × (j : ℕ) × (check_and_execute (some tasks) clock
          ≡ (calls, some tasks'))
      × (times name calls ≡ 1)
      × (find name tasks' ≡ some (after_call t (clock j)))
      × (tasks ≡ before ++ ((name, t) ∷ after))
      × (turn clock 1 (clock 0) before ≡ (k, clock j))
      × (j < k)
due_task_runs_once clock name t tasks d h w due =
    let (tasks', calls, eq, (front, back, k, cur, parted, turned, (j, ej, lt), called, after)) =
      check-Visited clock name t tasks d h in
    let (called_now, changed) =
      round_due clock k cur t (subst (λ c. leb_ℤ (trigger_time t) c ≡ true) (sym ej) (due j)) w in
    (
      tasks',
      calls,
      front,
      back,
      k,
      j,
      eq,
      called ∙ ap (λ (b : Bool). if b then 1 else 0) called_now,
      after ∙ ap some changed ∙ ap (λ c. some (after_call t c)) ej,
      parted,
      turned ∙ ap (λ (c : ℤ). (k, c)) ej,
      lt,
    )

-- A task that is not due, has no operation, or is an event that has triggered, is not called in a pass,
-- and stays as it is.
pub idle_task_is_kept :
    (clock : ℕ → ℤ) (name : Text) (t : TimedTaskConfig) (tasks : TimedTaskMap)
    → Distinct tasks
    → find name tasks ≡ some t
    → ((j : ℕ) → (leb_ℤ (trigger_time t) (clock j) && is_waiting t) ≡ false)
    → (tasks' : TimedTaskMap) × (calls : List Text) × (check_and_execute (some tasks) clock
        ≡ (calls, some tasks'))
      × (times name calls ≡ 0)
      × (find name tasks' ≡ some t)
idle_task_is_kept clock name t tasks d h idle =
    let (tasks', calls, eq, (front, back, k, cur, parted, turned, (j, ej, lt), called, after)) =
      check-Visited clock name t tasks d h in
    let (not_called, same) =
      round_idle clock k cur t
        (subst (λ c. (leb_ℤ (trigger_time t) c && is_waiting t) ≡ false) (sym ej) (idle j)) in
    (
      tasks',
      calls,
      eq,
      called ∙ ap (λ (b : Bool). if b then 1 else 0) not_called,
      after ∙ ap some same,
    )

pub modify-Distinct :
    (k : Text) (f : TimedTaskConfig → TimedTaskConfig) (m : TimedTaskMap)
    → Distinct m
    → Distinct (modify k f m)
unfolding modify
modify-Distinct k f [] d = tt
modify-Distinct k f ((i, t) ∷ m) d = elim (Bool-cases (text_eq i k)) [
  | inl e ↦ rw e d
  | inr e ↦ rw e (find-modify-none k i f m d.0, modify-Distinct k f m d.1)
]

silent : (d n p h : Bool) → p ≡ false → h ≡ true → (d && (not n && (p || not h))) ≡ false
silent d n p h ep eh = rw (ep, eh) (nothing d n)
  where
    nothing : (d n : Bool) → (d && (not n && false)) ≡ false
    nothing true true = refl
    nothing true false = refl
    nothing false n = refl

pub set_event_trigger_time_eq :
    (tasks : TimedTaskMap) (name : Text) (t : TimedTaskConfig) (event_time time_offset : ℤ)
    → find name tasks ≡ some t
    → is_periodic t ≡ false
    → set_event_trigger_time (some tasks) name event_time time_offset
      ≡ (ret_ok, some (modify name (retimed event_time time_offset) tasks))
unfolding set_event_trigger_time
set_event_trigger_time_eq tasks name t event_time time_offset h hp =
    rw (h, set_event_trigger_time) (rw hp refl)

-- An event that has triggered stays silent: `set_event_trigger_time` gives it a new time and returns
-- RET_OK, but its operation is not called in a later pass, whatever the clock says.
pub retimed_event_stays_silent :
    (clock : ℕ → ℤ) (name : Text) (t : TimedTaskConfig) (tasks : TimedTaskMap)
    (event_time time_offset : ℤ)
    → Distinct tasks
    → find name tasks ≡ some t
    → is_periodic t ≡ false
    → t.has_triggered ≡ true
    → (tasks1 : TimedTaskMap) × (tasks2 : TimedTaskMap) × (calls : List Text)
      × (set_event_trigger_time (some tasks) name event_time time_offset ≡ (ret_ok, some tasks1))
      × (find name tasks1 ≡ some (retimed event_time time_offset t))
      × (check_and_execute (some tasks1) clock ≡ (calls, some tasks2))
      × (times name calls ≡ 0)
retimed_event_stays_silent clock name t tasks event_time time_offset d h hp ht =
    let tasks1 = modify name (retimed event_time time_offset) tasks in
    let later = retimed event_time time_offset t in
    let found : find name tasks1 ≡ some later =
      find-modify name name (retimed event_time time_offset) t tasks h
      ∙ rw (text_eq_refl name) refl in
    let (tasks2, calls, eq, never, _) =
      idle_task_is_kept clock name later tasks1
        (modify-Distinct name (retimed event_time time_offset) tasks d) found
        (λ j.
          silent (leb_ℤ (trigger_time later) (clock j)) (is_null t.operation) (is_periodic t)
            t.has_triggered hp ht) in
    (
      tasks1,
      tasks2,
      calls,
      set_event_trigger_time_eq tasks name t event_time time_offset h hp,
      found,
      eq,
      never,
    )
