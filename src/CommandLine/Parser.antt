-- ===== src/CommandLine/Parser.antt =====
-- `command_line::parse`, argument by argument.
use cpp_assistant.Prelude.{
  ℕ, zero, suc, ◌+◌, ◌-◌, Bool, true, false, not, ◌&&◌, ◌||◌, Option, none, some, List, [], ◌∷◌,
  length, take, drop, ℤ, pos, negsuc, ◌==ℤ◌, if◌then◌else◌, leb, ltb, ◌==◌, codes,
}
use cpp_assistant.Prelude.TextMap.{find}
use cpp_assistant.ReturnCode.{
  ca_ret, ca_ret_ok, null_param, value_out_of_range, operation_already_done,
  unknown_cmd_line_option, excess_object_count, invalid_cmd_line_format,
  cmd_line_param_insufficient,
}
use cpp_assistant.Strings.{Text, split, last_index}
use cpp_assistant.CommandLine.{CommandLine, OptionValue, add_value, add_single, set_is_specified}

-- What one argument does: the loop goes on with the current short option, or `parse` returns.
pub data Step : Type 0 where
  next : CommandLine → Option Text → Step
  stop : ℤ → CommandLine → Step
  fault : Step

-- The macro ADD_VALUE: a value that its option has no room for becomes a single parameter, and the
-- option is no longer the current one.
unfoldable pub keep_value : CommandLine → Option Text → Text → Step
keep_value cl short value =
    let (ret, cl') = add_value cl short value in
    if ret ==ℤ ca_ret unknown_cmd_line_option
    then stop (ca_ret unknown_cmd_line_option) cl'
    else if ret ==ℤ ca_ret excess_object_count
    then next (add_single cl' value) none
    else next cl' short

abbrev pub is_letter : ℕ → Bool
is_letter c = leb b'a' c && leb c b'z' || leb b'A' c && leb c b'Z'

-- Each letter of a cluster such as `zxvf` is a short option. The last one becomes the current option.
unfoldable pub mark_cluster : CommandLine → ℕ → Text → Step
mark_cluster cl c [] = elim (set_is_specified cl (c ∷ [])) [
  | none ↦ stop (ca_ret unknown_cmd_line_option) cl
  | some cl' ↦ next cl' (some (c ∷ []))
]
mark_cluster cl c (d ∷ ds) = elim (set_is_specified cl (c ∷ [])) [
  | none ↦ stop (ca_ret unknown_cmd_line_option) cl
  | some cl' ↦ mark_cluster cl' d ds
]

-- `strchr(s, c)`, as an index.
unfoldable pub first_index : ℕ → Text → Option ℕ
first_index c [] = none
first_index c (d ∷ ds) =
    let rest : Option ℕ = elim (first_index c ds) [ none ↦ none | some i ↦ some (suc i) ] in
    if d == c then some zero else rest

-- The values of `--name=a|b`; what `add_value` returns is not looked at.
unfoldable pub add_values : CommandLine → Text → List Text → CommandLine
add_values cl short [] = cl
add_values cl short (v ∷ vs) = add_values (add_value cl (some short) v).1 short vs

-- The long option is known: its short name becomes the current option.
unfoldable pub mark_long : CommandLine → Text → Option Text → Bool → Step
mark_long cl short values alloc_ok = elim (set_is_specified cl short) [
  | none ↦ stop (ca_ret unknown_cmd_line_option) cl
  | some cl' ↦ elim values [
    | none ↦ next cl' (some short)
    | some text ↦ elim (split (some text) (pos (length text + 2)) (some (codes "|")) alloc_ok) [
      | none ↦ fault
      | some (ret, vs) ↦ next (add_values cl' short vs) (some short)
    ]
  ]
]

unfoldable pub find_long : CommandLine → Text → Option Text → Bool → Step
find_long cl long values alloc_ok = elim (find long cl.option_name_relations) [
  | none ↦ stop (ca_ret unknown_cmd_line_option) cl
  | some short ↦ mark_long cl short values alloc_ok
]

-- The argument behind `--`.
unfoldable pub parse_long : CommandLine → Text → Bool → Step
parse_long cl option alloc_ok = elim (first_index b'=' option) [
  | none ↦ find_long cl option none alloc_ok
  | some i ↦
      if i == 0 || i + 1 == length option
      then stop (ca_ret invalid_cmd_line_format) cl
      else find_long cl (take i option) (some (drop (i + 1) option)) alloc_ok
]

-- The body of the loop for one argument.
unfoldable pub parse_arg : CommandLine → Option Text → Text → Bool → Step
parse_arg cl short [] alloc_ok = next cl short
parse_arg cl short (a ∷ []) alloc_ok = keep_value cl short (a ∷ [])
parse_arg cl short (a ∷ b ∷ []) alloc_ok =
    if not (a == b'-')
    then keep_value cl short (a ∷ b ∷ [])
    else if b == b'-'
    then next cl short
    else if is_letter b
    then mark_cluster cl b []
    else keep_value cl short (b ∷ [])
parse_arg cl short (a ∷ b ∷ c ∷ rest) alloc_ok =
    if not (a == b'-')
    then keep_value cl short (a ∷ b ∷ c ∷ rest)
    else if not (b == b'-')
    then (if not (is_letter b)
        then keep_value cl short (a ∷ b ∷ c ∷ rest)
        else mark_cluster cl b (c ∷ rest))
    else parse_long cl (c ∷ rest) alloc_ok

-- The loop; a null argument is passed over.
unfoldable pub parse_args : CommandLine → Option Text → List (Option Text) → Bool → Step
parse_args cl short [] alloc_ok = next cl short
parse_args cl short (none ∷ args) alloc_ok = parse_args cl short args alloc_ok
parse_args cl short (some arg ∷ args) alloc_ok = elim (parse_arg cl short arg alloc_ok) [
  | next cl' short' ↦ parse_args cl' short' args alloc_ok
  | stop ret cl' ↦ stop ret cl'
  | fault ↦ fault
]

-- The check behind the loop.
unfoldable pub has_too_few : List (Text × OptionValue) → Bool
has_too_few [] = false
has_too_few ((k, v) ∷ m) =
    v.is_specified && ltb (length v.values) v.least_value_count || has_too_few m

unfoldable pub set_program : CommandLine → Text → CommandLine
set_program cl path = elim (last_index b'/' 0 path) [
  | none ↦ record cl { program_directory = codes "."; program_name = path; has_parsed = true }
  | some i ↦ record cl {
    program_directory = take i path;
    program_name = drop (i + 1) path;
    has_parsed = true;
  }
]

unfoldable pub finish : Step → Option (ℤ × CommandLine)
finish (next cl short) =
    if has_too_few cl.option_entries
    then some (ca_ret cmd_line_param_insufficient, cl)
    else some (ca_ret_ok, cl)
finish (stop ret cl) = some (ret, cl)
finish fault = none

unfoldable pub parse_all : CommandLine → List (Option Text) → Bool → Option (ℤ × CommandLine)
parse_all cl (some path ∷ args) alloc_ok =
    finish (parse_args (set_program cl path) none args alloc_ok)
parse_all cl _ alloc_ok = none

-- `parse`. `argv` has at least `argc` entries, and `argv[0]` is read whatever `argc` is.
unfoldable pub parse :
    CommandLine → ℤ → Option (List (Option Text)) → Bool → Option (ℤ × CommandLine)
parse cl argc none alloc_ok = some (ca_ret null_param, cl)
parse cl (negsuc n) (some argv) alloc_ok = some (ca_ret value_out_of_range, cl)
parse cl (pos n) (some argv) alloc_ok =
    if cl.has_parsed
    then some (ca_ret operation_already_done, cl)
    else parse_all cl (take (n + (1 - n)) argv) alloc_ok
