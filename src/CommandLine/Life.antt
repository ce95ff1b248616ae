-- ===== src/CommandLine/Life.antt =====
-- The life of a command line: options are learned, command lines parsed and the state reset, in any order.
use cpp_assistant.Prelude.{
  true, ltb_ℤ, some_inj, ◌≡◌, refl, Bool, Option, none, some, List, [], ◌∷◌, ℤ, pos, negsuc, length,
  Bool-cases, Option-cases, inl, inr, codes, ◌==ℤ◌, ◌∙◌, subst,
}
use cpp_assistant.Prelude.TextMap.{find, insert}
use cpp_assistant.ReturnCode.{ca_ret_ok}
use cpp_assistant.Strings.{Text, split, last_index}
use cpp_assistant.CommandLine.{
  UserOption, learn_each, learn_options, CommandLine, OptionValue, Allocations, add_value,
  set_is_specified, mark, push_value, is_full, get_option_value, resolve, learn_names, learn_split,
  learn_option, default_values_of, reset, new_command_line, second_or,
}
use cpp_assistant.CommandLine.Parser.{parse, set_program}
use cpp_assistant.CommandLine.Invariant.{parse-keeps}
use cpp_assistant.CommandLine.Names.{
  all_keys, Named, is_key-insert_same, all_keys-modify, all_keys-forget_all, all_keys-insert,
  all_keys-insert_name,
}

-- The command lines that calls lead to, in any order, from a new one.
pub data Reachable : CommandLine → Type 0 where
  created : (header format : Text) → Reachable (new_command_line header format)
  after_learning :
      {cl cl' : CommandLine} {ret : ℤ}
      → Reachable cl
      → (name desc : Option Text) (least : ℤ) (assign defaults : Option Text) (fixed : Bool)
        (mem : Allocations)
      → learn_option cl name desc least assign defaults fixed mem ≡ some (ret, cl')
      → Reachable cl'
  after_learning_all :
      {cl cl' : CommandLine} {ret : ℤ}
      → Reachable cl
      → (options : Option (List UserOption)) (mem : Allocations)
      → learn_options cl options mem ≡ some (ret, cl')
      → Reachable cl'
  after_parse :
      {cl cl' : CommandLine} {ret : ℤ}
      → Reachable cl
      → (argc : ℤ) (argv : Option (List (Option Text))) (alloc_ok : Bool)
      → parse cl argc argv alloc_ok ≡ some (ret, cl')
      → Reachable cl'
  after_reset : {cl : CommandLine} → Reachable cl → Reachable (reset cl)

set_is_specified-Named :
    (cl cl' : CommandLine) (name : Text)
    → set_is_specified cl name ≡ some cl'
    → Named cl
    → Named cl'
unfolding set_is_specified
set_is_specified-Named cl cl' name e h = elim (Option-cases (get_option_value cl name)) [
  | inl miss ↦ cc (rw (miss, set_is_specified) at e)
  | inr (v, hit) ↦
      let same = some_inj (rw (hit, set_is_specified) at e) in
      subst Named same
        (all_keys-modify cl.option_name_relations (resolve cl name) mark cl.option_entries ∙ h)
]

add_value-Named :
    (cl : CommandLine) (short : Option Text) (t : Text) → Named cl → Named (add_value cl short t).1
unfolding add_value
add_value-Named cl none t h = h
add_value-Named cl (some o) t h = elim (Option-cases (find o cl.option_entries)) [
  | inl miss ↦ rw (miss, add_value) h
  | inr (v, hit) ↦
      rw (hit, add_value)
        (elim (Bool-cases (is_full v)) [
          | inl full ↦ rw full h
          | inr room ↦
              rw room
                (all_keys-modify cl.option_name_relations o (push_value t) cl.option_entries ∙ h)
        ])
]

set_program-Named : (cl : CommandLine) (path : Text) → Named cl → Named (set_program cl path)
unfolding set_program
set_program-Named cl path h = elim (Option-cases (last_index b'/' 0 path)) [
  | inl e ↦ rw (e, set_program) h
  | inr (i, e) ↦ rw (e, set_program) h
]

learn_names-Named :
    (cl : CommandLine) (short long : Text) (v : OptionValue) (mem : Allocations)
    → Named cl
    → Named (learn_names cl short long v mem).1
unfolding learn_names
learn_names-Named cl short long v mem h = elim (Option-cases (find short cl.option_entries)) [
  | inr (w, e) ↦ rw (e, learn_names) h
  | inl e ↦
      rw (e, learn_names)
        (elim (Bool-cases mem.short_ok) [
          | inr f ↦ rw f h
          | inl f ↦ rw f (elim (Option-cases (find long cl.option_name_relations)) [
            | inr (s, g) ↦ rw g h
            | inl g ↦ rw g (elim (Bool-cases mem.long_ok) [
              | inr i ↦ rw i h
              | inl i ↦ rw i (
                  all_keys-insert_name cl.option_name_relations long short
                    (insert short v cl.option_entries)
                    (all_keys-insert cl.option_name_relations short v cl.option_entries h)
                    (is_key-insert_same short v cl.option_entries))
            ])
          ])
        ])
]

reached :
    {r ret : ℤ} {cl cl' : CommandLine}
    → ◌≡◌ {A = Option (ℤ × CommandLine)} (some (r, cl)) (some (ret, cl'))
    → Named cl
    → Named cl'
reached {cl = cl} {cl' = cl'} e h = let same : cl ≡ cl' = cc in rw same at h

learn_split-Named :
    (cl cl' : CommandLine) (names : List Text) (v : OptionValue) (mem : Allocations) (ret : ℤ)
    → learn_split cl names v mem ≡ some (ret, cl')
    → Named cl
    → Named cl'
unfolding learn_split
learn_split-Named cl cl' [] v mem ret e h = absurd (cc e)
learn_split-Named cl cl' (short ∷ more) v mem ret e h =
    reached e (learn_names-Named cl short (second_or short more) v mem h)

learn_option-Named :
    (cl cl' : CommandLine) (name desc : Option Text) (least : ℤ) (assign defaults : Option Text)
    (fixed : Bool) (mem : Allocations) (ret : ℤ)
    → learn_option cl name desc least assign defaults fixed mem ≡ some (ret, cl')
    → Named cl
    → Named cl'
unfolding learn_option
learn_option-Named cl cl' none desc least assign defaults fixed mem ret e h = reached e h
learn_option-Named cl cl' (some name) none least assign defaults fixed mem ret e h = reached e h
learn_option-Named cl cl' (some name) (some desc) (negsuc k) assign defaults fixed mem ret e h =
    reached e h
learn_option-Named cl cl' (some name) (some desc) (pos least) assign defaults fixed mem ret e h =
    elim (Option-cases (split (some name) (pos (length name)) (some (codes ",")) mem.names_ok)) [
      | inl f ↦ absurd (cc (rw (f, learn_option) at e))
      | inr ((r, names), f) ↦ elim (Option-cases (default_values_of defaults mem.defaults_ok)) [
        | inl g ↦ absurd (cc (rw (f, g) at e))
        | inr (values, g) ↦ elim (Bool-cases (r ==ℤ ca_ret_ok)) [
          | inr i ↦ reached (rw (f, g, i) at e) h
          | inl i ↦ learn_split-Named cl cl' names _ mem ret (rw (f, g, i) at e) h
        ]
      ]
    ]

learn_each-Named :
    (cl cl' : CommandLine) (options : List UserOption) (mem : Allocations) (ret : ℤ)
    → learn_each cl options mem ≡ some (ret, cl')
    → Named cl
    → Named cl'
unfolding learn_each
learn_each-Named cl cl' [] mem ret e h = reached e h
learn_each-Named cl cl' (o ∷ os) mem ret e h =
    elim (Option-cases (
      learn_option cl o.full_name o.user_description o.user_least_value_count
        o.user_assign_expression o.default_values true mem)) [
          | inl f ↦ absurd (cc (rw (f, learn_each) at e))
          | inr ((r, m), f) ↦
              let named : Named m =
                learn_option-Named cl m o.full_name o.user_description o.user_least_value_count
                  o.user_assign_expression o.default_values true mem r f h in
              elim (Bool-cases (ltb_ℤ r (pos 0))) [
                | inl failed ↦ reached (rw (f, failed) at e) named
                | inr learnt ↦ learn_each-Named m cl' os mem ret (rw (f, learnt) at e) named
              ]
        ]

learn_options-Named :
    (cl cl' : CommandLine) (options : Option (List UserOption)) (mem : Allocations) (ret : ℤ)
    → learn_options cl options mem ≡ some (ret, cl')
    → Named cl
    → Named cl'
unfolding learn_options
learn_options-Named cl cl' (some (o ∷ os)) mem ret e h =
    learn_each-Named cl cl' (o ∷ os) mem ret e h
learn_options-Named cl cl' (some []) mem ret e h = reached e h
learn_options-Named cl cl' none mem ret e h = reached e h

pub Reachable-Named : {cl : CommandLine} → Reachable cl → Named cl
unfolding reset all_keys
Reachable-Named (created header format) = refl
Reachable-Named (after_learning {cl} {cl'} {ret} r name desc least assign defaults fixed mem e) =
    learn_option-Named cl cl' name desc least assign defaults fixed mem ret e (Reachable-Named r)
Reachable-Named (after_learning_all {cl} {cl'} {ret} r options mem e) =
    learn_options-Named cl cl' options mem ret e (Reachable-Named r)
Reachable-Named (after_parse {cl} {cl'} {ret} r argc argv alloc_ok e) =
    parse-keeps Named set_is_specified-Named add_value-Named (λ cl t h. h) set_program-Named cl cl'
      argc ret argv alloc_ok e (Reachable-Named r)
Reachable-Named (after_reset {cl} r) =
    all_keys-forget_all cl.option_name_relations cl.option_entries ∙ Reachable-Named r
