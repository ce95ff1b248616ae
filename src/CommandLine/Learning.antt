-- ===== src/CommandLine/Learning.antt =====
-- What `learn_option`, `learn_options` and `reset` do to the options that are known.
use cpp_assistant.Prelude.{
  ℕ, ◌≡◌, ◌≢◌, refl, Bool, true, false, Option, none, some, List, [], ◌∷◌, pos, arith,
  if◌then◌else◌, ◌||◌, Bool-cases, inl, inr, sym, ap, ◌∙◌, codes, text_eq, text_eq_refl, text_eq_ne,
}
use cpp_assistant.Prelude.TextMap.{find, insert, find-insert}
use cpp_assistant.ReturnCode.{ca_ret_ok}
use cpp_assistant.Strings.{Text, is_delim}
use cpp_assistant.Strings.Tokens.{joined, Pieces, split-joined}
use cpp_assistant.CommandLine.{
  CommandLine, OptionValue, Allocations, get_option_value, resolve, learn_names, learn_split,
  learn_option, default_values_of, or_empty, reset, forget, forget_all,
}

abbrev pub all_ok : Allocations
all_ok = record { names_ok = true; short_ok = true; long_ok = true; defaults_ok = true }

learn_names_eq :
    (cl : CommandLine) (short long : Text) (v : OptionValue)
    → find short cl.option_entries ≡ none
    → find long cl.option_name_relations ≡ none
    → learn_names cl short long v all_ok ≡ (
      ca_ret_ok,
      record cl {
        option_entries = insert short v cl.option_entries;
        option_name_relations = insert long short cl.option_name_relations;
      },
    )
unfolding learn_names
learn_names_eq cl short long v e r = rw (e, learn_names) (rw r)

-- `short,long` as a combination of names.
abbrev pub combined : Text → Text → Text
combined short long = joined b',' (short ∷ long ∷ [])

comma : is_delim (codes ",") b',' ≡ true
unfolding is_delim
comma = refl

learn_option_eq :
    (cl : CommandLine) (short long desc : Text) (least : ℕ) (assign defaults : Option Text)
    (fixed : Bool) (values : List Text)
    → Pieces (codes ",") (short ∷ long ∷ [])
    → default_values_of defaults true ≡ some values
    → learn_option cl
        (some (combined short long))
        (some desc)
        (pos least)
        assign
        defaults
        fixed
        all_ok
      ≡ some (
          learn_names cl short long
            (record {
              description = desc;
              assign_expression = or_empty assign;
              least_value_count = least;
              value_count_is_fixed = fixed;
              is_specified = false;
              values = values;
            })
            all_ok)
unfolding learn_option learn_split
learn_option_eq cl short long desc least assign defaults fixed values h ev =
    simp (split-joined (codes ",") b',' (short ∷ long ∷ []) comma h (λ e. cc e), ev)

by_short_name :
    (cl : CommandLine) (name : Text)
    → find name cl.option_name_relations ≡ none
    → get_option_value cl name ≡ find name cl.option_entries
unfolding get_option_value resolve
by_short_name cl name e = rw (e, resolve)

by_long_name :
    (cl : CommandLine) (name short : Text)
    → find name cl.option_name_relations ≡ some short
    → get_option_value cl name ≡ find short cl.option_entries
unfolding get_option_value resolve
by_long_name cl name short e = rw (e, resolve)

-- A name leads to the entry of the short name that it stands for.
get_option_value_eq :
    (cl : CommandLine) (name : Text)
    → get_option_value cl name ≡ find (resolve cl name) cl.option_entries
unfolding get_option_value
get_option_value_eq cl name = refl

resolve-learned :
    (cl : CommandLine) (short long other : Text) (v : OptionValue)
    → find long cl.option_name_relations ≡ none
    → resolve
        (record cl {
          option_entries = insert short v cl.option_entries;
          option_name_relations = insert long short cl.option_name_relations;
        })
        other
      ≡ (if text_eq long other then short else resolve cl other)
unfolding resolve
resolve-learned cl short long other v rl = elim (Bool-cases (text_eq long other)) [
  | inl same ↦ rw (find-insert long other short cl.option_name_relations rl, resolve) (rw same refl)
  | inr differ ↦
      rw (find-insert long other short cl.option_name_relations rl, resolve) (rw differ refl)
]

get-learned :
    (cl : CommandLine) (short long other : Text) (v : OptionValue)
    → find short cl.option_entries ≡ none
    → find long cl.option_name_relations ≡ none
    → get_option_value
        (record cl {
          option_entries = insert short v cl.option_entries;
          option_name_relations = insert long short cl.option_name_relations;
        })
        other
      ≡ (if text_eq long other || text_eq short (resolve cl other)
          then some v
          else get_option_value cl other)
get-learned cl short long other v es rl =
    let cl' = record cl {
      option_entries = insert short v cl.option_entries;
      option_name_relations = insert long short cl.option_name_relations;
    } in
    let led : resolve cl' other ≡ (if text_eq long other then short else resolve cl other) =
      resolve-learned cl short long other v rl in
    let there = find-insert short (resolve cl' other) v cl.option_entries es in
    get_option_value_eq cl' other ∙ there ∙ (elim (Bool-cases (text_eq long other)) [
      | inl same ↦ rw (led, same) (rw (text_eq_refl short) refl)
      | inr differ ↦ rw (led, differ, get_option_value_eq cl other) refl
    ])

-- Two names that are not empty and have no comma in them, joined by a comma, are learned as the short and
-- the long name of an option, where the short name is neither that of an option nor a long name, the long
-- name is no long name yet, the two differ, the least count is not negative, and every allocation succeeds. The option is found by both
-- names, with the description, the expression, the counts and the default values that were given. Every
-- other name, long or short, leads to what it led to before, but for one that stood for the short name.
pub learn_option_lem :
    (cl : CommandLine) (short long desc other : Text) (least : ℕ) (assign defaults : Option Text)
    (fixed : Bool) (values : List Text)
    → Pieces (codes ",") (short ∷ long ∷ [])
    → default_values_of defaults true ≡ some values
    → find short cl.option_entries ≡ none
    → find short cl.option_name_relations ≡ none
    → find long cl.option_name_relations ≡ none
    → short ≢ long
    → let v : OptionValue = record {
      description = desc;
      assign_expression = or_empty assign;
      least_value_count = least;
      value_count_is_fixed = fixed;
      is_specified = false;
      values = values;
    } in
      (cl' : CommandLine) × (learn_option cl
          (some (combined short long))
          (some desc)
          (pos least)
          assign
          defaults
          fixed
          all_ok
        ≡ some (ca_ret_ok, cl'))
      × (get_option_value cl' short ≡ some v)
      × (get_option_value cl' long ≡ some v)
      × (find other cl'.option_entries
          ≡ (if text_eq short other then some v else find other cl.option_entries))
      × (get_option_value cl' other ≡ (
          if text_eq long other || text_eq short (resolve cl other)
          then some v
          else get_option_value cl other))
learn_option_lem cl short long desc other least assign defaults fixed values h ev es rs rl ne =
    let v : OptionValue = record {
      description = desc;
      assign_expression = or_empty assign;
      least_value_count = least;
      value_count_is_fixed = fixed;
      is_specified = false;
      values = values;
    } in
    let cl' = record cl {
      option_entries = insert short v cl.option_entries;
      option_name_relations = insert long short cl.option_name_relations;
    } in
    let differ : text_eq long short ≡ false = text_eq_ne long short (λ e. ne (sym e)) in
    let by_short : find short cl'.option_entries ≡ some v =
      find-insert short short v cl.option_entries es ∙ rw (text_eq_refl short) refl in
    let no_long : find short cl'.option_name_relations ≡ none =
      find-insert long short short cl.option_name_relations rl ∙ rw differ rs in
    let as_long : find long cl'.option_name_relations ≡ some short =
      find-insert long long short cl.option_name_relations rl ∙ rw (text_eq_refl long) refl in
    (
      cl',
      learn_option_eq cl short long desc least assign defaults fixed values h ev
          ∙ ap some (learn_names_eq cl short long v es rl),
      by_short_name cl' short no_long ∙ by_short,
      by_long_name cl' long short as_long ∙ by_short,
      find-insert short other v cl.option_entries es,
      get-learned cl short long other v es rl,
    )

find-forget_all :
    (k : Text) (m : List (Text × OptionValue))
    → find k (forget_all m)
      ≡ elim (find k m) as (λ x. Option OptionValue) [ none ↦ none | some v ↦ some (forget v) ]
unfolding find forget_all
find-forget_all k [] = refl
find-forget_all k ((j, v) ∷ m) = ground (arith, find-forget_all k m)

-- `reset` keeps every option and forgets its values, the default values with them.
pub get_option_value-reset :
    (cl : CommandLine) (name : Text) (v : OptionValue)
    → get_option_value cl name ≡ some v
    → (get_option_value (reset cl) name ≡ some (record v { is_specified = false; values = [] }))
      × ((reset cl).has_parsed ≡ false)
      × ((reset cl).single_parameters ≡ [])
unfolding get_option_value reset resolve
get_option_value-reset cl name v e =
    (find-forget_all (resolve cl name) cl.option_entries ∙ (rw e), refl, refl)
