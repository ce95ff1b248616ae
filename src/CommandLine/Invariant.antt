-- ===== src/CommandLine/Invariant.antt =====
-- Properties of the command line along a call of `parse`, argument by argument.
use cpp_assistant.Prelude.{
  ℕ, ◌+◌, ◌-◌, ◌≡◌, refl, Bool, true, false, not, ◌||◌, Option, none, some, List, [], ◌∷◌, length,
  ℤ, pos, negsuc, ◌==ℤ◌, if◌then◌else◌, ◌==◌, Bool-cases, drop, codes, Option-cases, inl, inr, take,
}
use cpp_assistant.Prelude.TextMap.{find}
use cpp_assistant.ReturnCode.{ca_ret, ca_ret_ok, unknown_cmd_line_option, excess_object_count}
use cpp_assistant.Strings.{Text, split}
use cpp_assistant.CommandLine.{CommandLine, add_value, add_single, set_is_specified}
use cpp_assistant.CommandLine.Parser.{
  Step, next, stop, fault, keep_value, mark_cluster, add_values, mark_long, find_long, parse_long,
  first_index, is_letter, parse_arg, parse_args, has_too_few, set_program, finish, parse_all, parse,
}

module _ (P : CommandLine → Type 0) where
  -- What a step keeps, which returns from `parse` with an error only.
  abbrev pub StepKeeps : Step → Type 0
  StepKeeps (next cl short) = P cl
  StepKeeps (stop ret cl) = P cl × ((ret ==ℤ ca_ret_ok) ≡ false)
  StepKeeps fault = Unit {0}

module _ (P : CommandLine → Type 0)
    (by_mark : (cl cl' : CommandLine) (name : Text)
      → set_is_specified cl name ≡ some cl'
      → P cl
      → P cl')
    (by_value : (cl : CommandLine) (short : Option Text) (t : Text)
      → P cl
      → P (add_value cl short t).1)
    (by_single : (cl : CommandLine) (t : Text) → P cl → P (add_single cl t)) where
  keep_value-keeps :
      (cl : CommandLine) (short : Option Text) (t : Text)
      → P cl
      → StepKeeps P (keep_value cl short t)
  unfolding keep_value
  keep_value-keeps cl short t h =
      let (ret, cl') = add_value cl short t in
      let kept : P cl' = by_value cl short t h in
      elim (Bool-cases (ret ==ℤ ca_ret unknown_cmd_line_option)) [
        | inl e ↦ rw e (kept, refl)
        | inr e ↦ rw e (elim (Bool-cases (ret ==ℤ ca_ret excess_object_count)) [
          | inl f ↦ rw f (by_single cl' t kept)
          | inr f ↦ rw f kept
        ])
      ]

  mark_cluster-keeps :
      (cl : CommandLine) (c : ℕ) (rest : Text) → P cl → StepKeeps P (mark_cluster cl c rest)
  unfolding mark_cluster
  mark_cluster-keeps cl c [] h = elim (Option-cases (set_is_specified cl (c ∷ []))) [
    | inl e ↦ rw (e, mark_cluster) (h, refl)
    | inr (cl', e) ↦ rw (e, mark_cluster) (by_mark cl cl' (c ∷ []) e h)
  ]
  mark_cluster-keeps cl c (d ∷ ds) h = elim (Option-cases (set_is_specified cl (c ∷ []))) [
    | inl e ↦ rw (e, mark_cluster) (h, refl)
    | inr (cl', e) ↦
        rw (e, mark_cluster) (mark_cluster-keeps cl' d ds (by_mark cl cl' (c ∷ []) e h))
  ]

  add_values-keeps :
      (cl : CommandLine) (short : Text) (vs : List Text) → P cl → P (add_values cl short vs)
  unfolding add_values
  add_values-keeps cl short [] h = h
  add_values-keeps cl short (v ∷ vs) h =
      add_values-keeps (add_value cl (some short) v).1 short vs (by_value cl (some short) v h)

  mark_long-keeps :
      (cl : CommandLine) (short : Text) (values : Option Text) (alloc_ok : Bool)
      → P cl
      → StepKeeps P (mark_long cl short values alloc_ok)
  unfolding mark_long
  mark_long-keeps cl short none alloc_ok h = elim (Option-cases (set_is_specified cl short)) [
    | inl e ↦ rw (e, mark_long) (h, refl)
    | inr (cl', e) ↦ rw (e, mark_long) (by_mark cl cl' short e h)
  ]
  mark_long-keeps cl short (some t) alloc_ok h = elim (Option-cases (set_is_specified cl short)) [
    | inl e ↦ rw (e, mark_long) (h, refl)
    | inr (cl', e) ↦
        rw (e, mark_long)
          (elim (Option-cases (split (some t) (pos (length t + 2)) (some (codes "|")) alloc_ok)) [
            | inl f ↦ rw f tt
            | inr (r, f) ↦ rw f (add_values-keeps cl' short r.1 (by_mark cl cl' short e h))
          ])
  ]

  find_long-keeps :
      (cl : CommandLine) (long : Text) (values : Option Text) (alloc_ok : Bool)
      → P cl
      → StepKeeps P (find_long cl long values alloc_ok)
  unfolding find_long
  find_long-keeps cl long values alloc_ok h =
      elim (Option-cases (find long cl.option_name_relations)) [
        | inl e ↦ rw (e, find_long) (h, refl)
        | inr (short, e) ↦ rw (e, find_long) (mark_long-keeps cl short values alloc_ok h)
      ]

  parse_long-keeps :
      (cl : CommandLine) (option : Text) (alloc_ok : Bool)
      → P cl
      → StepKeeps P (parse_long cl option alloc_ok)
  unfolding parse_long
  parse_long-keeps cl option alloc_ok h = elim (Option-cases (first_index b'=' option)) [
    | inl e ↦ rw (e, parse_long) (find_long-keeps cl option none alloc_ok h)
    | inr (i, e) ↦
        rw (e, parse_long)
          (elim (Bool-cases (i == 0 || i + 1 == length option)) [
            | inl f ↦ rw f (h, refl)
            | inr f ↦
                rw f (find_long-keeps cl (take i option) (some (drop (i + 1) option)) alloc_ok h)
          ])
  ]

  parse_arg-keeps :
      (cl : CommandLine) (short : Option Text) (arg : Text) (alloc_ok : Bool)
      → P cl
      → StepKeeps P (parse_arg cl short arg alloc_ok)
  unfolding parse_arg
  parse_arg-keeps cl short [] alloc_ok h = h
  parse_arg-keeps cl short (a ∷ []) alloc_ok h = keep_value-keeps cl short (a ∷ []) h
  parse_arg-keeps cl short (a ∷ b ∷ []) alloc_ok h = by_tests (a == b'-') (b == b'-') (is_letter b)
    where
      by_tests :
          (x y z : Bool)
          → StepKeeps P (
              if not x
              then keep_value cl short (a ∷ b ∷ [])
              else if y
              then next cl short
              else if z
              then mark_cluster cl b []
              else keep_value cl short (b ∷ []))
      by_tests false y z = keep_value-keeps cl short (a ∷ b ∷ []) h
      by_tests true true z = h
      by_tests true false true = mark_cluster-keeps cl b [] h
      by_tests true false false = keep_value-keeps cl short (b ∷ []) h
  parse_arg-keeps cl short (a ∷ b ∷ c ∷ rest) alloc_ok h =
      by_tests (a == b'-') (b == b'-') (is_letter b)
    where
      by_tests :
          (x y z : Bool)
          → StepKeeps P (
              if not x
              then keep_value cl short (a ∷ b ∷ c ∷ rest)
              else if not y
              then (if not z
                  then keep_value cl short (a ∷ b ∷ c ∷ rest)
                  else mark_cluster cl b (c ∷ rest))
              else parse_long cl (c ∷ rest) alloc_ok)
      by_tests false y z = keep_value-keeps cl short (a ∷ b ∷ c ∷ rest) h
      by_tests true false false = keep_value-keeps cl short (a ∷ b ∷ c ∷ rest) h
      by_tests true false true = mark_cluster-keeps cl b (c ∷ rest) h
      by_tests true true z = parse_long-keeps cl (c ∷ rest) alloc_ok h

  pub parse_args-keeps :
      (cl : CommandLine) (short : Option Text) (args : List (Option Text)) (alloc_ok : Bool)
      → P cl
      → StepKeeps P (parse_args cl short args alloc_ok)
  unfolding parse_args
  parse_args-keeps cl short [] alloc_ok h = h
  parse_args-keeps cl short (none ∷ args) alloc_ok h = parse_args-keeps cl short args alloc_ok h
  parse_args-keeps cl short (some arg ∷ args) alloc_ok h =
      go (parse_arg cl short arg alloc_ok) (parse_arg-keeps cl short arg alloc_ok h)
        (λ cl' short' h'. parse_args-keeps cl' short' args alloc_ok h')
    where
      go :
          (s : Step)
          → StepKeeps P s
          → ((cl' : CommandLine) (short' : Option Text)
              → P cl'
              → StepKeeps P (parse_args cl' short' args alloc_ok))
          → StepKeeps P (elim s [
            | next cl' short' ↦ parse_args cl' short' args alloc_ok
            | stop ret cl' ↦ stop ret cl'
            | fault ↦ fault
          ])
      go (next cl' short') k rest = rest cl' short' k
      go (stop ret cl') k rest = k
      go fault k rest = tt

  moved :
      {r ret : ℤ} {m cl : CommandLine}
      → ◌≡◌ {A = Option (ℤ × CommandLine)} (some (r, m)) (some (ret, cl))
      → P m
      → P cl
  moved {m = m} {cl = cl} e h = let same : m ≡ cl = cc in rw same at h

  pub finish-keeps :
      (s : Step) (ret : ℤ) (cl : CommandLine) → finish s ≡ some (ret, cl) → StepKeeps P s → P cl
  unfolding finish
  finish-keeps (next m short) ret cl e h = elim (Bool-cases (has_too_few m.option_entries)) [
    | inl few ↦ moved (rw few at e) h
    | inr enough ↦ moved (rw enough at e) h
  ]
  finish-keeps (stop r m) ret cl e h = moved e h.0
  finish-keeps fault ret cl e h = cc

  -- `parse`, whatever it returns. The program's name and directory are set first.
  pub parse-keeps :
      ((cl : CommandLine) (path : Text) → P cl → P (set_program cl path))
      → (cl cl' : CommandLine) (argc ret : ℤ) (argv : Option (List (Option Text))) (alloc_ok : Bool)
      → parse cl argc argv alloc_ok ≡ some (ret, cl')
      → P cl
      → P cl'
  unfolding parse parse_all
  parse-keeps by_program cl cl' argc ret none alloc_ok e h = moved e h
  parse-keeps by_program cl cl' (negsuc n) ret (some argv) alloc_ok e h = moved e h
  parse-keeps by_program cl cl' (pos n) ret (some argv) alloc_ok e h =
      elim (Bool-cases cl.has_parsed) [
        | inl done ↦ moved (simp done at e) h
        | inr fresh ↦ all (take (n + (1 - n)) argv) (simp fresh at e)
      ]
    where
      all : (args : List (Option Text)) → parse_all cl args alloc_ok ≡ some (ret, cl') → P cl'
      all [] e = cc
      all (none ∷ args) e = cc
      all (some path ∷ args) e =
          finish-keeps (parse_args (set_program cl path) none args alloc_ok) ret cl' e
            (parse_args-keeps (set_program cl path) none args alloc_ok (by_program cl path h))
