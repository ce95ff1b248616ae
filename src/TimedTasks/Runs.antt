-- ===== src/TimedTasks/Runs.antt =====
-- The scheduler over time: calls of its operations in any order.
use cpp_assistant.Prelude.{
  some_inj, ℕ, ◌≡◌, refl, Bool, true, false, Option, none, some, [], ◌∷◌, ℤ, sym, ap, ◌∙◌, subst,
  Bool-cases, Option-cases, inl, inr, text_eq,
}
use cpp_assistant.Prelude.TextMap.{find}
use cpp_assistant.Strings.{Text}
use cpp_assistant.TimedTasks.{
  TimedTaskConfig, TimedTaskMap, is_null, is_periodic, retimed, exists, task_info_is_ok,
  actual_info, register_one, unregister_one, set_event_trigger_time, check_and_execute, ret_failed,
}
use cpp_assistant.TimedTasks.Pass.{Distinct, find-nil, find-here, find-next}
use cpp_assistant.TimedTasks.Execution.{modify-Distinct, set_event_trigger_time_eq}
use cpp_assistant.TimedTasks.Soundness.{
  is_sound, AllSound, sound_of, actual_info_sound, insert-Distinct, insert-AllSound, erase-Distinct,
  erase-AllSound, modify-AllSound, check_from-Fine,
}

-- The states that calls lead to, in any order, from a new scheduler.
pub data Reachable : Option TimedTaskMap → Type 0 where
  created : Reachable (some [])
  registered :
      {s : Option TimedTaskMap}
      → Reachable s
      → (name : Text) (info : TimedTaskConfig) → Reachable (register_one s name info).1
  unregistered :
      {s : Option TimedTaskMap} → Reachable s → (name : Text) → Reachable (unregister_one s name).1
  retimed_to :
      {s : Option TimedTaskMap}
      → Reachable s
      → (name : Text) (event_time time_offset : ℤ)
      → Reachable (set_event_trigger_time s name event_time time_offset).1
  checked :
      {s : Option TimedTaskMap}
      → Reachable s
      → (clock : ℕ → ℤ) → Reachable (check_and_execute s clock).1

abbrev Fine : Option TimedTaskMap → Type 0
Fine none = ⊥
Fine (some tasks) = Distinct tasks × AllSound tasks

exists-find :
    (tasks : TimedTaskMap) (name : Text) → exists (some tasks) name ≡ false → find name tasks ≡ none
unfolding exists
exists-find tasks name h = elim (Option-cases (find name tasks)) [
  | inl f ↦ f
  | inr (t, f) ↦
      let there : exists (some tasks) name ≡ true =
        ap (λ o. elim o as (λ (x : Option TimedTaskConfig). Bool) [ none ↦ false | some u ↦ true ])
          f in
      let no_way = sym there ∙ h in cc no_way
]

register_one-Fine :
    (s : Option TimedTaskMap) (name : Text) (info : TimedTaskConfig)
    → Fine s
    → Fine (register_one s name info).1
unfolding register_one
register_one-Fine (some tasks) name info (d, a) = elim (Bool-cases (exists (some tasks) name)) [
  | inl e ↦ rw e (d, a)
  | inr e ↦ elim (Bool-cases (task_info_is_ok info)) [
    | inr ok ↦ rw (e, ok) (d, a)
    | inl ok ↦
        rw (e, ok)
          (
            insert-Distinct name (actual_info info) tasks (exists-find tasks name e) d,
            insert-AllSound name (actual_info info) tasks (actual_info_sound info ok) a,
          )
  ]
]
register_one-Fine none name info h = h

unregister_one-Fine :
    (s : Option TimedTaskMap) (name : Text) → Fine s → Fine (unregister_one s name).1
unfolding unregister_one
unregister_one-Fine (some tasks) name (d, a) = elim (Bool-cases (exists (some tasks) name)) [
  | inr e ↦ rw e (d, a)
  | inl e ↦ rw e (erase-Distinct name tasks d, erase-AllSound name tasks a)
]
unregister_one-Fine none name h = h

retimed_sound :
    (t : TimedTaskConfig) (event_time time_offset : ℤ)
    → is_periodic t ≡ false
    → is_sound t ≡ true
    → is_sound (retimed event_time time_offset t) ≡ true
retimed_sound t event_time time_offset p h =
    sound_of (retimed event_time time_offset t) (is_null t.operation) false _ refl p refl
    ∙ sym (sound_of t (is_null t.operation) false _ refl p refl)
    ∙ h

AllSound-find :
    (name : Text) (t : TimedTaskConfig) (m : TimedTaskMap)
    → AllSound m
    → find name m ≡ some t
    → is_sound t ≡ true
AllSound-find name t [] a h = let nothing = sym (find-nil name) ∙ h in cc nothing
AllSound-find name t ((i, u) ∷ m) a h = elim (Bool-cases (text_eq i name)) [
  | inl e ↦ subst (λ v. is_sound v ≡ true) (some_inj (sym (find-here name i u m e) ∙ h)) a.0
  | inr e ↦ AllSound-find name t m a.1 (sym (find-next name i u m e) ∙ h)
]

set_unknown :
    (tasks : TimedTaskMap) (name : Text) (event_time time_offset : ℤ)
    → find name tasks ≡ none
    → set_event_trigger_time (some tasks) name event_time time_offset ≡ (ret_failed, some tasks)
unfolding set_event_trigger_time
set_unknown tasks name event_time time_offset h = rw (h, set_event_trigger_time) refl

set_periodic :
    (tasks : TimedTaskMap) (name : Text) (t : TimedTaskConfig) (event_time time_offset : ℤ)
    → find name tasks ≡ some t
    → is_periodic t ≡ true
    → set_event_trigger_time (some tasks) name event_time time_offset ≡ (ret_failed, some tasks)
unfolding set_event_trigger_time
set_periodic tasks name t event_time time_offset h p = rw (h, set_event_trigger_time) (rw p refl)

set_event_trigger_time-Fine :
    (s : Option TimedTaskMap) (name : Text) (event_time time_offset : ℤ)
    → Fine s
    → Fine (set_event_trigger_time s name event_time time_offset).1
set_event_trigger_time-Fine (some tasks) name event_time time_offset (d, a) =
    let to = λ (x : ℤ × Option TimedTaskMap). Fine x.1 in
    elim (Option-cases (find name tasks)) [
      | inl f ↦ subst to (sym (set_unknown tasks name event_time time_offset f)) (d, a)
      | inr (t, f) ↦ elim (Bool-cases (is_periodic t)) [
        | inl p ↦ subst to (sym (set_periodic tasks name t event_time time_offset f p)) (d, a)
        | inr p ↦
            subst to (sym (set_event_trigger_time_eq tasks name t event_time time_offset f p)) (
              modify-Distinct name (retimed event_time time_offset) tasks d,
              modify-AllSound name (retimed event_time time_offset) t tasks f
                  (retimed_sound t event_time time_offset p (AllSound-find name t tasks a f)) a,
            )
      ]
    ]
set_event_trigger_time-Fine none name event_time time_offset h = absurd h

check_and_execute-Fine :
    (s : Option TimedTaskMap) (clock : ℕ → ℤ) → Fine s → Fine (check_and_execute s clock).1
unfolding check_and_execute
check_and_execute-Fine (some tasks) clock (d, a) = check_from-Fine clock 1 (clock 0) tasks d a
check_and_execute-Fine none clock h = h

Reachable-Fine : (s : Option TimedTaskMap) → Reachable s → Fine s
Reachable-Fine _ created = (tt, tt)
Reachable-Fine _ (registered {s = s} r name info) =
    register_one-Fine s name info (Reachable-Fine s r)
Reachable-Fine _ (unregistered {s = s} r name) = unregister_one-Fine s name (Reachable-Fine s r)
Reachable-Fine _ (retimed_to {s = s} r name event_time time_offset) =
    set_event_trigger_time-Fine s name event_time time_offset (Reachable-Fine s r)
Reachable-Fine _ (checked {s = s} r clock) = check_and_execute-Fine s clock (Reachable-Fine s r)

-- Whatever calls were made in whatever order, the names of the tasks differ, and each task has an
-- operation and, if it is periodic, an interval from 1 millisecond to 24 hours.
pub every_task_is_sound :
    (tasks : TimedTaskMap) (name : Text) (t : TimedTaskConfig)
    → Reachable (some tasks)
    → find name tasks ≡ some t
    → Distinct tasks × (is_sound t ≡ true)
every_task_is_sound tasks name t r h =
    let (d, a) = Reachable-Fine (some tasks) r in (d, AllSound-find name t tasks a h)
