-- ===== src/TimedTasks/Pass.antt =====
-- One pass of `check_and_execute` over the tasks: which operations it calls, and when.
use cpp_assistant.Prelude.{
  some_inj, ℕ, ◌+◌, ◌≡◌, refl, Bool, true, false, not, ◌&&◌, ◌||◌, none, some, List, [], ◌∷◌, ◌++◌,
  ◌<◌, ℤ, leb_ℤ, arith, if◌then◌else◌, sym, ap, ◌∙◌, subst, Bool-cases, inl, inr, ◌⊎◌, text_eq,
  text_eq_iff,
}
use cpp_assistant.Prelude.TextMap.{find}
use cpp_assistant.Strings.{Text}
use cpp_assistant.TimedTasks.{
  TimedTaskConfig, TimedTaskMap, is_null, is_periodic, trigger_time, Round, round, check_from,
}

-- The names in a std::map differ.
abbrev pub Distinct : TimedTaskMap → Type 0
Distinct [] = Unit {0}
Distinct ((name, t) ∷ m) = (find name m ≡ none) × Distinct m

-- How often a name occurs.
abbrev pub times : Text → List Text → ℕ
times name [] = 0
times name (c ∷ cs) = (if text_eq c name then 1 else 0) + times name cs

abbrev pub called_times : Round → ℕ
called_times r = if r.is_called then 1 else 0

-- `cur_time` is a reading of the clock in each round, made before it.
abbrev pub Read : (ℕ → ℤ) → ℕ → ℤ → Type 0
Read clock k cur = (j : ℕ) × (cur ≡ clock j) × (j < k)

-- How often the clock has been read, and `cur_time`, when the loop comes to the task behind these.
abbrev pub turn : (ℕ → ℤ) → ℕ → ℤ → TimedTaskMap → ℕ × ℤ
turn clock k cur [] = (k, cur)
turn clock k cur ((i, s) ∷ m) =
    turn clock (round clock k cur s).readings (round clock k cur s).cur_time m

round-Read :
    (clock : ℕ → ℤ) (k : ℕ) (cur : ℤ) (t : TimedTaskConfig)
    → Read clock k cur
    → Read clock (round clock k cur t).readings (round clock k cur t).cur_time
unfolding round
round-Read clock k cur t (j, e, lt) = elim (Bool-cases (is_null t.operation)) [
  | inl a ↦ rw a (j, e, lt)
  | inr a ↦ elim (Bool-cases (leb_ℤ (trigger_time t) cur)) [
    | inr b ↦ rw (a, b) (k, refl, omega arith)
    | inl b ↦ elim (Bool-cases (is_periodic t)) [
      | inl c ↦ rw (a, b, c) (k + 2, refl, omega arith)
      | inr c ↦ elim (Bool-cases t.has_triggered) [
        | inl d ↦ rw (a, b, c, d) (j, e, omega arith)
        | inr d ↦ rw (a, b, c, d) (k + 2, refl, omega arith)
      ]
    ]
  ]
]

pub find-nil : (name : Text) → find {V = TimedTaskConfig} name [] ≡ none
unfolding find
find-nil name = refl

pub find-here :
    (name i : Text) (s : TimedTaskConfig) (m : TimedTaskMap)
    → text_eq i name ≡ true
    → find name ((i, s) ∷ m) ≡ some s
unfolding find
find-here name i s m e = rw e refl

pub find-next :
    (name i : Text) (s : TimedTaskConfig) (m : TimedTaskMap)
    → text_eq i name ≡ false
    → find name ((i, s) ∷ m) ≡ find name m
unfolding find
find-next name i s m e = rw e refl

times-here :
    (name i : Text) (b : Bool) (cs : List Text)
    → text_eq i name ≡ true
    → times name (if b then i ∷ cs else cs) ≡ (if b then 1 else 0) + times name cs
times-here name i true cs e = rw e refl
times-here name i false cs e = omega arith

times-next :
    (name i : Text) (b : Bool) (cs : List Text)
    → text_eq i name ≡ false
    → times name (if b then i ∷ cs else cs) ≡ times name cs
times-next name i true cs e = rw e (omega arith)
times-next name i false cs e = refl

-- The pass calls the operations of its tasks only.
not_called :
    (clock : ℕ → ℤ) (k : ℕ) (cur : ℤ) (name : Text) (m : TimedTaskMap)
    → find name m ≡ none
    → times name (check_from clock k cur m).0 ≡ 0
unfolding check_from
not_called clock k cur name [] h = refl
not_called clock k cur name ((i, s) ∷ m) h = elim (Bool-cases (text_eq i name)) [
  | inl e ↦ let found = sym (find-here name i s m e) ∙ h in cc found
  | inr e ↦
      times-next name i (round clock k cur s).is_called _ e
      ∙ not_called clock (round clock k cur s).readings (round clock k cur s).cur_time name m
          (sym (find-next name i s m e) ∙ h)
]

plus_zero : (n : ℕ) → n + 0 ≡ n
plus_zero n = omega arith

-- What a pass does for one task: one round, with the time that the loop has behind the tasks before it.
abbrev pub Visited :
    (ℕ → ℤ) → ℕ → ℤ → Text → TimedTaskConfig → TimedTaskMap → List Text × TimedTaskMap → Type 0
Visited clock k₀ cur₀ name t m out =
    (before : TimedTaskMap) × (after : TimedTaskMap) × (k : ℕ) × (cur : ℤ) × (m
      ≡ before ++ ((name, t) ∷ after))
    × (turn clock k₀ cur₀ before ≡ (k, cur))
    × Read clock k cur
    × (times name out.0 ≡ called_times (round clock k cur t))
    × (find name out.1 ≡ some (round clock k cur t).task)

pub check_from-Visited :
    (clock : ℕ → ℤ) (k : ℕ) (cur : ℤ) (name : Text) (t : TimedTaskConfig) (m : TimedTaskMap)
    → Distinct m
    → Read clock k cur
    → find name m ≡ some t
    → Visited clock k cur name t m (check_from clock k cur m)
unfolding check_from
check_from-Visited clock k cur name t [] d r h = let nothing = sym (find-nil name) ∙ h in cc nothing
check_from-Visited clock k cur name t ((i, s) ∷ m) d r h = elim (Bool-cases (text_eq i name)) [
  | inl e ↦
      let same : s ≡ t = some_inj (sym (find-here name i s m e) ∙ h) in
      let rest : times name
            (check_from clock (round clock k cur s).readings (round clock k cur s).cur_time m).0
          ≡ 0 =
        not_called clock (round clock k cur s).readings (round clock k cur s).cur_time name m
          (subst (λ n. find n m ≡ none) ((text_eq_iff i name).0 e) d.0) in
      (
        [],
        m,
        k,
        cur,
        ap (λ (x : Text × TimedTaskConfig). x ∷ m) (λ q. ((text_eq_iff i name).0 e q, same q)),
        refl,
        r,
        times-here name i (round clock k cur s).is_called _ e
            ∙ ap (λ n. called_times (round clock k cur s) + n) rest
            ∙ plus_zero (called_times (round clock k cur s))
            ∙ ap (λ u. called_times (round clock k cur u)) same,
        find-here name i _ _ e ∙ ap (λ u. some (round clock k cur u).task) same,
      )
  | inr e ↦
      let (front, back, k', cur', parted, turned, r', calls, after) =
        check_from-Visited clock (round clock k cur s).readings (round clock k cur s).cur_time name
          t m d.1 (round-Read clock k cur s r) (sym (find-next name i s m e) ∙ h) in
      (
        (i, s) ∷ front,
        back,
        k',
        cur',
        ap (λ l. (i, s) ∷ l) parted,
        turned,
        r',
        times-next name i (round clock k cur s).is_called _ e ∙ calls,
        find-next name i _ _ e ∙ after,
      )
]

-- Whether a pass may call the operation of a task: it has one, and is no event that has triggered.
abbrev pub is_waiting : TimedTaskConfig → Bool
is_waiting t = not (is_null t.operation) && (is_periodic t || not t.has_triggered)

-- A task after its operation was called at `cur`.
abbrev pub after_call : TimedTaskConfig → ℤ → TimedTaskConfig
after_call t cur =
    if is_periodic t then record t { time = cur } else record t { has_triggered = true }

waiting_cases :
    (n p h : Bool) → (not n && (p || not h)) ≡ true → (n ≡ false) × ((p ≡ true) ⊎ (h ≡ false))
waiting_cases true p h e = cc e
waiting_cases false true h e = (refl, inl refl)
waiting_cases false false true e = cc e
waiting_cases false false false e = (refl, inr refl)

idle_cases :
    (d n p h : Bool)
    → (d && (not n && (p || not h))) ≡ false
    → (n ≡ true) ⊎ ((d ≡ false) ⊎ ((p ≡ false) × (h ≡ true)))
idle_cases d true p h e = inl refl
idle_cases false false p h e = inr (inl refl)
idle_cases true false true h e = cc e
idle_cases true false false true e = inr (inr (refl, refl))
idle_cases true false false false e = cc e

pub round_due :
    (clock : ℕ → ℤ) (k : ℕ) (cur : ℤ) (t : TimedTaskConfig)
    → leb_ℤ (trigger_time t) cur ≡ true
    → is_waiting t ≡ true
    → ((round clock k cur t).is_called ≡ true) × ((round clock k cur t).task ≡ after_call t cur)
unfolding round
round_due clock k cur t h w =
    let (a, c_or_d) = waiting_cases (is_null t.operation) (is_periodic t) t.has_triggered w in
    elim (Bool-cases (is_periodic t)) [
      | inl c ↦ rw (a, h, c) (refl, refl)
      | inr c ↦ elim c_or_d [
        | inl c' ↦ let no = sym c ∙ c' in cc no
        | inr d ↦ rw (a, h, c, d) (refl, refl)
      ]
    ]

pub round_idle :
    (clock : ℕ → ℤ) (k : ℕ) (cur : ℤ) (t : TimedTaskConfig)
    → (leb_ℤ (trigger_time t) cur && is_waiting t) ≡ false
    → ((round clock k cur t).is_called ≡ false) × ((round clock k cur t).task ≡ t)
unfolding round
round_idle clock k cur t h =
    elim (idle_cases (leb_ℤ (trigger_time t) cur) (is_null t.operation) (is_periodic t)
      t.has_triggered h) [
        | inl a ↦ rw a (refl, refl)
        | inr (inl b) ↦ elim (Bool-cases (is_null t.operation)) [
          | inl a ↦ rw a (refl, refl)
          | inr a ↦ rw (a, b) (refl, refl)
        ]
        | inr (inr (c, d)) ↦ elim (Bool-cases (is_null t.operation)) [
          | inl a ↦ rw a (refl, refl)
          | inr a ↦ elim (Bool-cases (leb_ℤ (trigger_time t) cur)) [
            | inr b ↦ rw (a, b) (refl, refl)
            | inl b ↦ rw (a, b, c, d) (refl, refl)
          ]
        ]
      ]
