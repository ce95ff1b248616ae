-- ===== src/TimedTasks/Examples.antt =====
-- A scheduler with a periodic task and an event.
use cpp_assistant.Prelude.{
  ℕ, ◌≡◌, refl, true, false, some, List, [], ◌∷◌, ◌++◌, ◌<◌, ℤ, pos, codes, ◌+ℤ◌, ◌*ℤ◌, text_eq,
}
use cpp_assistant.Prelude.TextMap.{find, insert}
use cpp_assistant.Strings.{Text}
use cpp_assistant.TimedTasks.{
  TimedTaskConfig, TimedTaskMap, trigger_time, register_one, check_and_execute, task_info_is_ok,
  actual_info, exists,
}
use cpp_assistant.TimedTasks.Pass.{Distinct, times, turn, after_call}
use cpp_assistant.TimedTasks.Execution.{due_task_runs_once, idle_task_is_kept}
use cpp_assistant.TimedTasks.Soundness.{is_sound}
use cpp_assistant.TimedTasks.Runs.{Reachable, created, registered, every_task_is_sound}

-- Every second, last at 2 seconds.
abbrev beat : TimedTaskConfig
beat = record {
  trigger_type = pos 2;
  has_triggered = false;
  time = pos 2000000;
  span = pos 1000;
  operation = some 1;
}

abbrev alarm : TimedTaskConfig
alarm = record {
  trigger_type = pos 0;
  has_triggered = true;
  time = pos 5;
  span = pos 0;
  operation = some 2;
}

abbrev both : TimedTaskMap
both = (codes "a", alarm) ∷ (codes "b", beat) ∷ []

both-Distinct : Distinct both
unfolding find text_eq
both-Distinct = (refl, (refl, tt))

beat_found : find (codes "b") both ≡ some beat
unfolding find text_eq
beat_found = refl

alarm_found : find (codes "a") both ≡ some alarm
unfolding find text_eq
alarm_found = refl

abbrev at_three : ℕ → ℤ
at_three = λ k. pos 3000000

due_task_runs_once_example :
    (tasks' : TimedTaskMap) × (calls : List Text) × (before : TimedTaskMap) × (after : TimedTaskMap)
    × (k : ℕ) × (j : ℕ) × (check_and_execute (some both) at_three ≡ (calls, some tasks'))
    × (times (codes "b") calls ≡ 1)
    × (find (codes "b") tasks' ≡ some (after_call beat (at_three j)))
    × (both ≡ before ++ ((codes "b", beat) ∷ after))
    × (turn at_three 1 (at_three 0) before ≡ (k, at_three j))
    × (j < k)
unfolding trigger_time ◌+ℤ◌ ◌*ℤ◌
due_task_runs_once_example =
    due_task_runs_once at_three (codes "b") beat both both-Distinct beat_found refl (λ j. refl)

abbrev at_two : ℕ → ℤ
at_two = λ k. pos 2500000

idle_task_is_kept_example :
    (tasks' : TimedTaskMap) × (calls : List Text) × (check_and_execute (some both) at_two
      ≡ (calls, some tasks'))
    × (times (codes "b") calls ≡ 0)
    × (find (codes "b") tasks' ≡ some beat)
unfolding trigger_time ◌+ℤ◌ ◌*ℤ◌
idle_task_is_kept_example =
    idle_task_is_kept at_two (codes "b") beat both both-Distinct beat_found (λ j. refl)

one-Reachable : Reachable (some ((codes "b", beat) ∷ []))
unfolding register_one exists find insert task_info_is_ok actual_info
one-Reachable = registered created (codes "b") beat

only_beat_found : find (codes "b") ((codes "b", beat) ∷ []) ≡ some beat
unfolding find text_eq
only_beat_found = refl

every_task_is_sound_example : Distinct ((codes "b", beat) ∷ []) × (is_sound beat ≡ true)
every_task_is_sound_example =
    every_task_is_sound ((codes "b", beat) ∷ []) (codes "b") beat one-Reachable only_beat_found
