-- ===== src/CommandLine/Plain.antt =====
-- Arguments that are no options.
use cpp_assistant.Prelude.{
  ℕ, suc, ◌+◌, ◌-◌, ◌≡◌, refl, Bool, true, false, Option, none, some, List, [], ◌∷◌, ◌++◌, length,
  map, pos, arith, sym, ap, ◌∙◌, take, ◌==◌, append_assoc, append-nil, take_all, drop, codes,
  length-map, Option-cases, inl, inr,
}
use cpp_assistant.ReturnCode.{ca_ret_ok}
use cpp_assistant.Strings.{Text, last_index}
use cpp_assistant.CommandLine.{CommandLine, add_value, add_single}
use cpp_assistant.CommandLine.Parser.{
  next, keep_value, parse_arg, parse_args, has_too_few, set_program, finish, parse_all, parse,
  is_letter,
}

-- An argument with a first byte that is no dash.
abbrev pub NoDash : List Text → Type 0
NoDash [] = Unit {0}
NoDash ([] ∷ args) = ⊥
NoDash ((a ∷ rest) ∷ args) = ((a == b'-') ≡ false) × NoDash args

keep_single : (cl : CommandLine) (t : Text) → keep_value cl none t ≡ next (add_single cl t) none
unfolding keep_value add_value
keep_single cl t = refl

parse_arg-plain :
    (cl : CommandLine) (short : Option Text) (a : ℕ) (rest : Text) (alloc_ok : Bool)
    → (a == b'-') ≡ false
    → parse_arg cl short (a ∷ rest) alloc_ok ≡ keep_value cl short (a ∷ rest)
unfolding parse_arg
parse_arg-plain cl short a [] alloc_ok h = refl
parse_arg-plain cl short a (b ∷ []) alloc_ok h = rw h
parse_arg-plain cl short a (b ∷ c ∷ rest) alloc_ok h = rw h

abbrev add_singles : CommandLine → List Text → CommandLine
add_singles cl args = record cl { single_parameters = cl.single_parameters ++ args }

parse_args-next :
    (cl : CommandLine) (short : Option Text) (arg : Text) (args : List (Option Text))
    (alloc_ok : Bool)
    → {cl' : CommandLine} {short' : Option Text} → parse_arg cl short arg alloc_ok ≡ next cl' short'
    → parse_args cl short (some arg ∷ args) alloc_ok ≡ parse_args cl' short' args alloc_ok
unfolding parse_args
parse_args-next cl short arg args alloc_ok h = rw (h, parse_args) refl

set_program_lem :
    (cl : CommandLine) (path : Text)
    → (dir base : Text) × (set_program cl path
        ≡ record cl { program_directory = dir; program_name = base; has_parsed = true })
unfolding set_program
set_program_lem cl path = elim (Option-cases (last_index b'/' 0 path)) [
  | inl e ↦ (codes ".", path, rw (e, set_program) refl)
  | inr (i, e) ↦ (take i path, drop (i + 1) path, rw (e, set_program) refl)
]

parse_args-plain :
    (cl : CommandLine) (args : List Text) (alloc_ok : Bool)
    → NoDash args
    → parse_args cl none (map some args) alloc_ok ≡ next (add_singles cl args) none
unfolding parse_args
parse_args-plain cl [] alloc_ok h =
    ap (λ l. next (record cl { single_parameters = l }) none)
      (sym (append-nil cl.single_parameters))
parse_args-plain cl ([] ∷ args) alloc_ok h = absurd h
parse_args-plain cl ((a ∷ rest) ∷ args) alloc_ok h =
    parse_args-next cl none (a ∷ rest) (map some args) alloc_ok
      (parse_arg-plain cl none a rest alloc_ok h.0 ∙ keep_single cl (a ∷ rest))
    ∙ parse_args-plain (add_single cl (a ∷ rest)) args alloc_ok h.1
    ∙ ap (λ l. next (record cl { single_parameters = l }) none)
        (append_assoc cl.single_parameters ((a ∷ rest) ∷ []) args)

-- If nothing has been parsed yet and no specified option lacks values, a command line of the program and
-- arguments that are not empty and do not begin with a dash is parsed successfully: the arguments are put
-- behind the single parameters, in their order, and no option changes.
pub parse_plain :
    (cl : CommandLine) (path : Text) (args : List Text) (alloc_ok : Bool)
    → cl.has_parsed ≡ false
    → has_too_few cl.option_entries ≡ false
    → NoDash args
    → (cl' : CommandLine) × (parse cl
          (pos (suc (length args)))
          (some (some path ∷ map some args))
          alloc_ok
        ≡ some (ca_ret_ok, cl'))
      × (cl'.single_parameters ≡ cl.single_parameters ++ args)
      × (cl'.option_entries ≡ cl.option_entries)
      × (cl'.has_parsed ≡ true)
unfolding parse parse_all finish
parse_plain cl path args alloc_ok fresh enough h =
    let (dir, base, p) = set_program_lem cl path in
    let cl₀ = record cl { program_directory = dir; program_name = base; has_parsed = true } in
    let whole : take (suc (length args) + (1 - suc (length args))) (some path ∷ map some args)
        ≡ some path ∷ map some args =
      take_all _ _ (rw (length-map args some) (omega arith)) in
    (
      add_singles cl₀ args,
      simp (fresh, whole, p, parse_args-plain cl₀ args alloc_ok h, enough),
      refl,
      refl,
      refl,
    )

-- The value that a negative number gives: without its sign if it has one digit.
abbrev pub number_value : ℕ → Text → Text
number_value d [] = d ∷ []
number_value d (e ∷ rest) = b'-' ∷ d ∷ e ∷ rest

parse_arg-number :
    (cl : CommandLine) (d : ℕ) (rest : Text) (alloc_ok : Bool)
    → (d == b'-') ≡ false
    → is_letter d ≡ false
    → parse_arg cl none (b'-' ∷ d ∷ rest) alloc_ok ≡ next (add_single cl (number_value d rest)) none
unfolding parse_arg
parse_arg-number cl d [] alloc_ok hd hl = rw (hd, hl) (keep_single cl (d ∷ []))
parse_arg-number cl d (e ∷ rest) alloc_ok hd hl = rw (hd, hl) (keep_single cl (b'-' ∷ d ∷ e ∷ rest))

parse_args-number :
    (cl : CommandLine) (d : ℕ) (rest : Text) (alloc_ok : Bool)
    → (d == b'-') ≡ false
    → is_letter d ≡ false
    → parse_args cl none (some (b'-' ∷ d ∷ rest) ∷ []) alloc_ok
      ≡ next (add_single cl (number_value d rest)) none
unfolding parse_args
parse_args-number cl d rest alloc_ok hd hl =
    parse_args-next cl none (b'-' ∷ d ∷ rest) [] alloc_ok
      (parse_arg-number cl d rest alloc_ok hd hl)

-- An argument of a dash and bytes of which the first is neither a dash nor a letter, such as a negative
-- number, is taken for a single parameter where no specified option lacks values. It keeps its dash if
-- more than one byte follows, but loses it if one byte follows: `-12` stays, and `-5` becomes `5`.
pub parse_number :
    (cl : CommandLine) (path : Text) (d : ℕ) (rest : Text) (alloc_ok : Bool)
    → cl.has_parsed ≡ false
    → has_too_few cl.option_entries ≡ false
    → (d == b'-') ≡ false
    → is_letter d ≡ false
    → (cl' : CommandLine) × (parse cl
          (pos 2)
          (some (some path ∷ some (b'-' ∷ d ∷ rest) ∷ []))
          alloc_ok
        ≡ some (ca_ret_ok, cl'))
      × (cl'.single_parameters ≡ cl.single_parameters ++ number_value d rest ∷ [])
      × (cl'.option_entries ≡ cl.option_entries)
unfolding parse parse_all finish
parse_number cl path d rest alloc_ok fresh enough hd hl =
    let (dir, base, p) = set_program_lem cl path in
    let cl₀ = record cl { program_directory = dir; program_name = base; has_parsed = true } in
    (
      add_single cl₀ (number_value d rest),
      simp (fresh, p, parse_args-number cl₀ d rest alloc_ok hd hl, enough),
      refl,
      refl,
    )
