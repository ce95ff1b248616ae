-- ===== src/TimedTasks/Registration.antt =====
-- What `register_one` and `unregister_one` do to the tasks that can be found.
use cpp_assistant.Prelude.{
  ◌≡◌, refl, Bool, true, false, Option, none, some, pos, if◌then◌else◌, abs, sym, ap, ◌∙◌,
  Bool-cases, inl, inr, text_eq, text_eq_refl, text_eq_iff,
}
use cpp_assistant.Prelude.TextMap.{find, insert, erase, find-insert, find-erase}
use cpp_assistant.Strings.{Text}
use cpp_assistant.TimedTasks.{
  TimedTaskConfig, TimedTaskMap, is_periodic, clamped, exists, task_info_is_ok, actual_info,
  register_one, unregister_one, ret_ok,
}

exists-some :
    (tasks : TimedTaskMap) (name : Text) (t : TimedTaskConfig)
    → find name tasks ≡ some t
    → exists (some tasks) name ≡ true
unfolding exists
exists-some tasks name t h =
    ap (λ o. elim o as (λ (x : Option TimedTaskConfig). Bool) [ none ↦ false | some u ↦ true ]) h

exists-none :
    (tasks : TimedTaskMap) (name : Text) → find name tasks ≡ none → exists (some tasks) name ≡ false
unfolding exists
exists-none tasks name h =
    ap (λ o. elim o as (λ (x : Option TimedTaskConfig). Bool) [ none ↦ false | some u ↦ true ]) h

same_find :
    (name other : Text) (t : TimedTaskConfig) (tasks : TimedTaskMap)
    → find name tasks ≡ none
    → (if text_eq name other
        then none
        else (if text_eq name other then some t else find other tasks))
      ≡ find other tasks
same_find name other t tasks h = elim (Bool-cases (text_eq name other)) [
  | inl e ↦ rw e (sym (ap (λ n. find n tasks) (sym ((text_eq_iff name other).0 e)) ∙ h))
  | inr e ↦ rw e refl
]

-- A task under a new name that is accepted is found after `register_one`, with its interval brought
-- into the range allowed if it is periodic, and the sign of its event time taken away otherwise. A
-- second registration under the name changes nothing and returns RET_OK, and `unregister_one` makes
-- every name find what it found before.
pub register_one_finds :
    (tasks : TimedTaskMap) (name other : Text) (info info2 : TimedTaskConfig)
    → find name tasks ≡ none
    → task_info_is_ok info ≡ true
    → (tasks1 : TimedTaskMap) × (tasks2 : TimedTaskMap) × (register_one (some tasks) name info
        ≡ (ret_ok, some tasks1))
      × (find name tasks1
          ≡ some (
              if is_periodic info
              then record info { span = pos (clamped (abs info.span)) }
              else record info { time = pos (abs info.time) }))
      × (register_one (some tasks1) name info2 ≡ (ret_ok, some tasks1))
      × (unregister_one (some tasks1) name ≡ (ret_ok, some tasks2))
      × (find other tasks2 ≡ find other tasks)
unfolding register_one unregister_one actual_info
register_one_finds tasks name other info info2 h ok =
    let tasks1 = insert name (actual_info info) tasks in
    let found : find name tasks1 ≡ some (actual_info info) =
      find-insert name name (actual_info info) tasks h ∙ rw (text_eq_refl name) refl in
    let there = exists-some tasks1 name (actual_info info) found in
    (
      tasks1,
      erase name tasks1,
      rw (exists-none tasks name h, ok) refl,
      found,
      rw there refl,
      rw there refl,
      find-erase name other tasks1
          ∙ ap (λ o. if text_eq name other then none else o)
              (find-insert name other (actual_info info) tasks h)
          ∙ same_find name other (actual_info info) tasks h,
    )
