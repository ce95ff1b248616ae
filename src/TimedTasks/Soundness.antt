-- ===== src/TimedTasks/Soundness.antt =====
-- What every operation of the scheduler keeps: distinct names, and tasks that `register_one` accepts.
use cpp_assistant.Prelude.{
  both_true, some_inj, ℕ, ◌≡◌, refl, Bool, true, false, not, ◌&&◌, Option, none, some, [], ◌∷◌, ℤ,
  pos, leb_ℤ, arith, if◌then◌else◌, leb, sym, ap, ◌∙◌, subst, Bool-cases, inl, inr, text_eq,
  text_eq_iff, abs,
}
use cpp_assistant.Prelude.TextMap.{find, insert, erase, modify, find-insert, find-erase, text_lt}
use cpp_assistant.Strings.{Text}
use cpp_assistant.TimedTasks.{
  TimedTaskConfig, TimedTaskMap, is_null, is_periodic, trigger_time, round, clamped,
  min_trigger_interval, max_trigger_interval, task_info_is_ok, actual_info, check_from,
}
use cpp_assistant.TimedTasks.Pass.{
  Distinct, find-nil, find-here, find-next, is_waiting, round_due, round_idle,
}

-- A task with an operation, and with an interval in the range that the scheduler allows if it is
-- periodic.
unfoldable pub is_sound : TimedTaskConfig → Bool
is_sound t =
    not (is_null t.operation)
    && (if is_periodic t
        then leb_ℤ (pos min_trigger_interval) t.span && leb_ℤ t.span (pos max_trigger_interval)
        else true)

abbrev pub AllSound : TimedTaskMap → Type 0
AllSound [] = Unit {0}
AllSound ((name, t) ∷ m) = (is_sound t ≡ true) × AllSound m

has_operation : (b c : Bool) → (if b then false else c) ≡ true → b ≡ false
has_operation true c h = cc h
has_operation false c h = refl

clamped_bounds :
    (k : ℕ) → (leb min_trigger_interval (clamped k) && leb (clamped k) max_trigger_interval) ≡ true
clamped_bounds k = ground arith

actual_info_periodic :
    (info : TimedTaskConfig)
    → is_periodic info ≡ true
    → actual_info info ≡ record info { span = pos (clamped (abs info.span)) }
unfolding actual_info
actual_info_periodic info h = rw h refl

actual_info_event :
    (info : TimedTaskConfig)
    → is_periodic info ≡ false
    → actual_info info ≡ record info { time = pos (abs info.time) }
unfolding actual_info
actual_info_event info h = rw h refl

pub sound_of :
    (t : TimedTaskConfig) (n p i : Bool)
    → is_null t.operation ≡ n
    → is_periodic t ≡ p
    → (leb_ℤ (pos min_trigger_interval) t.span && leb_ℤ t.span (pos max_trigger_interval)) ≡ i
    → is_sound t ≡ (not n && (if p then i else true))
unfolding is_sound
sound_of t n p i en ep ei =
    ap
      (λ x.
        not x
        && (if is_periodic t
            then leb_ℤ (pos min_trigger_interval) t.span && leb_ℤ t.span (pos max_trigger_interval)
            else true))
      en
    ∙ ap
        (λ x.
          not n
          && (if x
              then leb_ℤ (pos min_trigger_interval) t.span
                && leb_ℤ t.span (pos max_trigger_interval)
              else true))
        ep
    ∙ ap (λ x. not n && (if p then x else true)) ei

clamped_bounds_ℤ :
    (k : ℕ)
    → (leb_ℤ (pos min_trigger_interval) (pos (clamped k))
        && leb_ℤ (pos (clamped k)) (pos max_trigger_interval))
      ≡ true
clamped_bounds_ℤ k = ground arith

pub actual_info_sound :
    (info : TimedTaskConfig) → task_info_is_ok info ≡ true → is_sound (actual_info info) ≡ true
unfolding task_info_is_ok
actual_info_sound info h =
    let op = has_operation (is_null info.operation) _ h in
    elim (Bool-cases (is_periodic info)) [
      | inl p ↦
          ap is_sound (actual_info_periodic info p)
          ∙ sound_of (record info { span = pos (clamped (abs info.span)) }) false true true op p
              (clamped_bounds_ℤ (abs info.span))
      | inr p ↦
          ap is_sound (actual_info_event info p)
          ∙ sound_of (record info { time = pos (abs info.time) }) false false _ op p refl
    ]

differ_sym : (a b : Text) → text_eq a b ≡ false → text_eq b a ≡ false
differ_sym a b h = ground (arith, text_eq_iff a b, text_eq_iff b a)

if_none : (b : Bool) (o : Option TimedTaskConfig) → o ≡ none → (if b then none else o) ≡ none
if_none true o h = refl
if_none false o h = h

pub insert-Distinct :
    (name : Text) (t : TimedTaskConfig) (m : TimedTaskMap)
    → find name m ≡ none
    → Distinct m
    → Distinct (insert name t m)
unfolding insert
insert-Distinct name t [] h d = (find-nil name, tt)
insert-Distinct name t ((i, s) ∷ m) h d = elim (Bool-cases (text_eq i name)) [
  | inl e ↦ let there = sym (find-here name i s m e) ∙ h in cc there
  | inr e ↦ elim (Bool-cases (text_lt name i)) [
    | inl l ↦ rw (e, l) (h, d)
    | inr l ↦
        let absent = sym (find-next name i s m e) ∙ h in
        rw (e, l)
          (
            find-insert name i t m absent ∙ rw (differ_sym i name e) d.0,
            insert-Distinct name t m absent d.1,
          )
  ]
]

pub insert-AllSound :
    (name : Text) (t : TimedTaskConfig) (m : TimedTaskMap)
    → is_sound t ≡ true
    → AllSound m
    → AllSound (insert name t m)
unfolding insert
insert-AllSound name t [] h a = (h, tt)
insert-AllSound name t ((i, s) ∷ m) h a = elim (Bool-cases (text_eq i name)) [
  | inl e ↦ rw e a
  | inr e ↦ elim (Bool-cases (text_lt name i)) [
    | inl l ↦ rw (e, l) (h, a)
    | inr l ↦ rw (e, l) (a.0, insert-AllSound name t m h a.1)
  ]
]

pub erase-Distinct : (name : Text) (m : TimedTaskMap) → Distinct m → Distinct (erase name m)
unfolding erase
erase-Distinct name [] d = tt
erase-Distinct name ((i, s) ∷ m) d = elim (Bool-cases (text_eq i name)) [
  | inl e ↦ rw e (erase-Distinct name m d.1)
  | inr e ↦
      rw e
        (find-erase name i m ∙ if_none (text_eq name i) (find i m) d.0, erase-Distinct name m d.1)
]

pub erase-AllSound : (name : Text) (m : TimedTaskMap) → AllSound m → AllSound (erase name m)
unfolding erase
erase-AllSound name [] a = tt
erase-AllSound name ((i, s) ∷ m) a = elim (Bool-cases (text_eq i name)) [
  | inl e ↦ rw e (erase-AllSound name m a.1)
  | inr e ↦ rw e (a.0, erase-AllSound name m a.1)
]

pub modify-AllSound :
    (name : Text) (f : TimedTaskConfig → TimedTaskConfig) (t : TimedTaskConfig) (m : TimedTaskMap)
    → find name m ≡ some t
    → is_sound (f t) ≡ true
    → AllSound m
    → AllSound (modify name f m)
unfolding modify
modify-AllSound name f t [] h s a = tt
modify-AllSound name f t ((i, u) ∷ m) h s a = elim (Bool-cases (text_eq i name)) [
  | inl e ↦
      rw e (subst (λ v. is_sound (f v) ≡ true) (some_inj (sym h ∙ find-here name i u m e)) s, a.1)
  | inr e ↦ rw e (a.0, modify-AllSound name f t m (sym (find-next name i u m e) ∙ h) s a.1)
]

changed_sound :
    (b : Bool) (t : TimedTaskConfig) (cur : ℤ)
    → is_sound (if b then record t { time = cur } else record t { has_triggered = true })
      ≡ is_sound t
unfolding is_sound
changed_sound true t cur = refl
changed_sound false t cur = refl

round_sound :
    (clock : ℕ → ℤ) (k : ℕ) (cur : ℤ) (t : TimedTaskConfig)
    → is_sound (round clock k cur t).task ≡ is_sound t
round_sound clock k cur t = elim (Bool-cases (leb_ℤ (trigger_time t) cur && is_waiting t)) [
  | inr e ↦ ap is_sound (round_idle clock k cur t e).1
  | inl e ↦
      let (due, waiting) = both_true (leb_ℤ (trigger_time t) cur) (is_waiting t) e in
      ap is_sound (round_due clock k cur t due waiting).1 ∙ changed_sound (is_periodic t) t cur
]

check_from-absent :
    (clock : ℕ → ℤ) (k : ℕ) (cur : ℤ) (name : Text) (m : TimedTaskMap)
    → find name m ≡ none
    → find name (check_from clock k cur m).1 ≡ none
unfolding check_from
check_from-absent clock k cur name [] h = h
check_from-absent clock k cur name ((i, s) ∷ m) h = elim (Bool-cases (text_eq i name)) [
  | inl e ↦ let there = sym (find-here name i s m e) ∙ h in cc there
  | inr e ↦
      find-next name i _ _ e
      ∙ check_from-absent clock (round clock k cur s).readings (round clock k cur s).cur_time name m
          (sym (find-next name i s m e) ∙ h)
]

pub check_from-Fine :
    (clock : ℕ → ℤ) (k : ℕ) (cur : ℤ) (m : TimedTaskMap)
    → Distinct m
    → AllSound m
    → Distinct (check_from clock k cur m).1 × AllSound (check_from clock k cur m).1
unfolding check_from
check_from-Fine clock k cur [] d a = (tt, tt)
check_from-Fine clock k cur ((i, s) ∷ m) d a =
    let r = round clock k cur s in
    let (d', a') = check_from-Fine clock r.readings r.cur_time m d.1 a.1 in
    (
      (check_from-absent clock r.readings r.cur_time i m d.0, d'),
      (round_sound clock k cur s ∙ a.0, a'),
    )
