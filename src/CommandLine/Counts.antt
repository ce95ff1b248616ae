-- ===== src/CommandLine/Counts.antt =====
-- How many values an option ends up with.
use cpp_assistant.Prelude.{
  ◌≡◌, refl, Bool, false, ◌&&◌, ◌||◌, Option, none, some, List, [], ◌∷◌, length, arith, ltb,
  Bool-cases, Option-cases, inl, inr, length-append,
}
use cpp_assistant.Prelude.TextMap.{find, modify}
use cpp_assistant.Strings.{Text}
use cpp_assistant.CommandLine.{
  CommandLine, OptionValue, add_value, set_is_specified, mark, push_value, is_full,
  get_option_value, resolve,
}
use cpp_assistant.CommandLine.Invariant.{StepKeeps, parse_args-keeps}
use cpp_assistant.CommandLine.Parser.{Step, parse_args}

-- A specified option with a fixed count that has more values than it needs.
unfoldable pub over_full : OptionValue → Bool
over_full v = v.is_specified && v.value_count_is_fixed && ltb v.least_value_count (length v.values)

unfoldable pub has_too_many : List (Text × OptionValue) → Bool
has_too_many [] = false
has_too_many ((k, v) ∷ m) = over_full v || has_too_many m

has_too_many-modify :
    (k : Text) (f : OptionValue → OptionValue) (v : OptionValue) (m : List (Text × OptionValue))
    → find k m ≡ some v
    → over_full (f v) ≡ false
    → has_too_many m ≡ false
    → has_too_many (modify k f m) ≡ false
unfolding has_too_many find modify
has_too_many-modify k f v [] e h n = refl
has_too_many-modify k f v ((j, w) ∷ m) e h n = ground (arith, has_too_many-modify k f v m)

over_full-mark : (v : OptionValue) → over_full v ≡ false → over_full (mark v) ≡ false
unfolding over_full
over_full-mark v h = ground arith

over_full-push :
    (t : Text) (v : OptionValue) → is_full v ≡ false → over_full (push_value t v) ≡ false
unfolding over_full
over_full-push t v h = ground (arith, length-append v.values (t ∷ []))

pub has_too_many-find :
    (k : Text) (v : OptionValue) (m : List (Text × OptionValue))
    → find k m ≡ some v
    → has_too_many m ≡ false
    → over_full v ≡ false
unfolding has_too_many find
has_too_many-find k v [] e n = cc
has_too_many-find k v ((j, w) ∷ m) e n = ground (arith, has_too_many-find k v m)

abbrev pub Few : CommandLine → Type 0
Few cl = has_too_many cl.option_entries ≡ false

set_is_specified-Few :
    (cl cl' : CommandLine) (name : Text) → set_is_specified cl name ≡ some cl' → Few cl → Few cl'
unfolding set_is_specified get_option_value
set_is_specified-Few cl cl' name e h =
    elim (Option-cases (find (resolve cl name) cl.option_entries)) [
      | inl miss ↦ cc (rw (miss, set_is_specified) at e)
      | inr (v, hit) ↦ ground (
        arith,
        hit,
        has_too_many-modify (resolve cl name) mark v cl.option_entries hit
            (over_full-mark v (has_too_many-find (resolve cl name) v cl.option_entries hit h)) h,
      )
    ]

add_value-Few :
    (cl : CommandLine) (short : Option Text) (t : Text) → Few cl → Few (add_value cl short t).1
unfolding add_value
add_value-Few cl none t h = h
add_value-Few cl (some o) t h = elim (Option-cases (find o cl.option_entries)) [
  | inl miss ↦ rw (miss, add_value) h
  | inr (v, hit) ↦
      rw (hit, add_value)
        (elim (Bool-cases (is_full v)) [
          | inl full ↦ rw full h
          | inr room ↦ rw room (
              has_too_many-modify o (push_value t) v cl.option_entries hit (over_full-push t v room)
                h)
        ])
]

abbrev pub StepFew : Step → Type 0
StepFew s = StepKeeps Few s

pub parse_args-Few :
    (cl : CommandLine) (short : Option Text) (args : List (Option Text)) (alloc_ok : Bool)
    → Few cl
    → StepFew (parse_args cl short args alloc_ok)
parse_args-Few = parse_args-keeps Few set_is_specified-Few add_value-Few (λ cl t h. h)
