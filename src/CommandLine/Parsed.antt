-- ===== src/CommandLine/Parsed.antt =====
-- What a successful `parse` says of the options.
use cpp_assistant.Prelude.{
  ◌+◌, ◌-◌, ◌≤◌, ◌≡◌, Bool, true, false, Option, none, some, List, [], ◌∷◌, length, ℤ, pos, negsuc,
  arith, Bool-cases, Option-cases, inl, inr, ◌⊎◌, take,
}
use cpp_assistant.Prelude.TextMap.{find}
use cpp_assistant.ReturnCode.{ca_ret_ok}
use cpp_assistant.Strings.{Text, last_index}
use cpp_assistant.CommandLine.{CommandLine, OptionValue, get_option_value, resolve}
use cpp_assistant.CommandLine.Parser.{
  Step, next, stop, fault, parse_args, has_too_few, set_program, finish, parse_all, parse,
}
use cpp_assistant.CommandLine.Counts.{
  over_full, has_too_many, has_too_many-find, Few, StepFew, parse_args-Few,
}

has_too_few-find :
    (k : Text) (v : OptionValue) (m : List (Text × OptionValue))
    → find k m ≡ some v
    → has_too_few m ≡ false
    → v.is_specified ≡ true
    → v.least_value_count ≤ length v.values
unfolding has_too_few find
has_too_few-find k v [] e n h = cc
has_too_few-find k v ((j, w) ∷ m) e n h = ground (arith, has_too_few-find k v m)

finish-ok :
    (s : Step) (cl : CommandLine)
    → finish s ≡ some (ca_ret_ok, cl)
    → StepFew s
    → Few cl × (has_too_few cl.option_entries ≡ false)
unfolding finish
finish-ok (next m short) cl e h = ground arith
finish-ok (stop ret m) cl e h = ground arith
finish-ok fault cl e h = cc

set_program-Few : (cl : CommandLine) (path : Text) → Few cl → Few (set_program cl path)
unfolding set_program
set_program-Few cl path h = elim (Option-cases (last_index b'/' 0 path)) [
  | inl e ↦ rw (e, set_program) h
  | inr (i, e) ↦ rw (e, set_program) h
]

parse_all-ok :
    (cl cl' : CommandLine) (argv : List (Option Text)) (alloc_ok : Bool)
    → parse_all cl argv alloc_ok ≡ some (ca_ret_ok, cl')
    → Few cl
    → Few cl' × (has_too_few cl'.option_entries ≡ false)
unfolding parse_all
parse_all-ok cl cl' [] alloc_ok e h = cc
parse_all-ok cl cl' (none ∷ args) alloc_ok e h = cc
parse_all-ok cl cl' (some path ∷ args) alloc_ok e h =
    finish-ok (parse_args (set_program cl path) none args alloc_ok) cl' e
      (parse_args-Few (set_program cl path) none args alloc_ok (set_program-Few cl path h))

parse-ok :
    (cl cl' : CommandLine) (argc : ℤ) (argv : Option (List (Option Text))) (alloc_ok : Bool)
    → parse cl argc argv alloc_ok ≡ some (ca_ret_ok, cl')
    → Few cl
    → Few cl' × (has_too_few cl'.option_entries ≡ false)
unfolding parse
parse-ok cl cl' argc none alloc_ok e h = ground arith
parse-ok cl cl' (negsuc n) (some argv) alloc_ok e h = ground arith
parse-ok cl cl' (pos n) (some argv) alloc_ok e h = elim (Bool-cases cl.has_parsed) [
  | inl done ↦ ground arith
  | inr fresh ↦ parse_all-ok cl cl' (take (n + (1 - n)) argv) alloc_ok (simp fresh at e) h
]

over_full-false :
    (v : OptionValue)
    → over_full v ≡ false
    → v.is_specified ≡ true
    → v.least_value_count ≤ length v.values
    → (v.value_count_is_fixed ≡ false) ⊎ (length v.values ≡ v.least_value_count)
unfolding over_full
over_full-false v h s l = ground arith

-- After a successful `parse`, started with no option over its count, every specified option, asked for
-- by its short or by its long name, has the values that it needs: as many as its least count at least,
-- and just as many if the count is fixed.
pub parse_counts :
    (cl cl' : CommandLine) (argc : ℤ) (argv : Option (List (Option Text))) (alloc_ok : Bool)
    (name : Text) (v : OptionValue)
    → has_too_many cl.option_entries ≡ false
    → parse cl argc argv alloc_ok ≡ some (ca_ret_ok, cl')
    → get_option_value cl' name ≡ some v
    → v.is_specified ≡ true
    → (v.least_value_count ≤ length v.values)
      × ((v.value_count_is_fixed ≡ false) ⊎ (length v.values ≡ v.least_value_count))
unfolding get_option_value
parse_counts cl cl' argc argv alloc_ok name v few e at s =
    let (few', enough) = parse-ok cl cl' argc argv alloc_ok e few in
    let least = has_too_few-find (resolve cl' name) v cl'.option_entries at enough s in
    (
      least,
      over_full-false v (has_too_many-find (resolve cl' name) v cl'.option_entries at few') s least,
    )
