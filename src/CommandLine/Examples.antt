-- ===== src/CommandLine/Examples.antt =====
-- A command line with one option, `-n` or `--num`.
use cpp_assistant.Prelude.{
  ℕ, ◌≡◌, ◌≤◌, refl, Bool, Option, none, some, List, [], ◌∷◌, map, pos, true, false, codes, text_eq,
  ◌⊎◌, ◌++◌,
}
use cpp_assistant.Prelude.TextMap.{find, modify, insert}
use cpp_assistant.ReturnCode.{ca_ret_ok}
use cpp_assistant.Strings.{Text, last_index, is_delim, split, split_text, tokens_from}
use cpp_assistant.CommandLine.{
  CommandLine, OptionValue, new_command_line, get_option_value, learn_option, add_value,
  set_is_specified, resolve, default_values_of, learn_split, learn_names,
}
use cpp_assistant.CommandLine.Parser.{
  parse_arg, parse, parse_all, finish, parse_args, parse_long, first_index, find_long, set_program,
  mark_long, keep_value, has_too_few,
}
use cpp_assistant.CommandLine.Counts.{has_too_many, over_full}
use cpp_assistant.CommandLine.Parsed.{parse_counts}
use cpp_assistant.CommandLine.Learning.{all_ok, combined, learn_option_lem}
use cpp_assistant.CommandLine.Usage.{usage, option_line}
use cpp_assistant.CommandLine.Life.{Reachable, created, after_learning, after_parse}
use cpp_assistant.CommandLine.Usable.{usage_lists}
use cpp_assistant.CommandLine.Plain.{parse_plain}

abbrev unused : CommandLine
unused = new_command_line [] []

abbrev num_of : Bool → List Text → OptionValue
num_of specified values = record {
  description = codes "number";
  assign_expression = [];
  least_value_count = 1;
  value_count_is_fixed = true;
  is_specified = specified;
  values = values;
}

abbrev learned : CommandLine
learned = record unused {
  option_entries = (codes "n", num_of false []) ∷ [];
  option_name_relations = (codes "num", codes "n") ∷ [];
}

abbrev parsed : CommandLine
parsed = record learned {
  program_directory = codes ".";
  program_name = codes "p";
  option_entries = (codes "n", num_of true (codes "3" ∷ [])) ∷ [];
  single_parameters = codes "x" ∷ [];
  has_parsed = true;
}

abbrev num_args : List (Option Text)
num_args = some (codes "p") ∷ some (codes "--num") ∷ some (codes "3") ∷ some (codes "x") ∷ []

parse-learned : parse learned (pos 4) (some num_args) true ≡ some (ca_ret_ok, parsed)
unfolding parse parse_all finish parse_args parse_arg parse_long first_index find_long find
    set_program last_index text_eq mark_long set_is_specified get_option_value resolve keep_value
    add_value has_too_few modify
parse-learned = refl

parse_counts_example : (1 ≤ 1) × ((true ≡ false) ⊎ (◌≡◌ {A = ℕ} 1 1))
unfolding has_too_many over_full get_option_value find text_eq resolve
parse_counts_example =
    parse_counts learned parsed (pos 4) (some num_args) true (codes "num")
      (num_of true (codes "3" ∷ [])) refl parse-learned refl refl

parse_plain_example :
    (cl' : CommandLine) × (parse learned
        (pos 3)
        (some (some (codes "/p") ∷ map some (codes "a" ∷ codes "b" ∷ [])))
        true
      ≡ some (ca_ret_ok, cl'))
    × (cl'.single_parameters ≡ codes "a" ∷ codes "b" ∷ [])
    × (cl'.option_entries ≡ learned.option_entries)
    × (cl'.has_parsed ≡ true)
unfolding has_too_few
parse_plain_example =
    parse_plain learned (codes "/p") (codes "a" ∷ codes "b" ∷ []) true refl refl (refl, (refl, tt))

seven : default_values_of (some (codes "7")) true ≡ some (codes "7" ∷ [])
unfolding default_values_of split split_text tokens_from is_delim
seven = refl

learn_option_lem_example :
    (cl' : CommandLine) × (learn_option unused
        (some (combined (codes "n") (codes "num")))
        (some (codes "number"))
        (pos 1)
        none
        (some (codes "7"))
        true
        all_ok
      ≡ some (ca_ret_ok, cl'))
    × (get_option_value cl' (codes "n") ≡ some (num_of false (codes "7" ∷ [])))
    × (get_option_value cl' (codes "num") ≡ some (num_of false (codes "7" ∷ [])))
    × (find (codes "z") cl'.option_entries ≡ none)
    × (get_option_value cl' (codes "z") ≡ none)
unfolding find is_delim text_eq get_option_value resolve
learn_option_lem_example =
    learn_option_lem unused (codes "n") (codes "num") (codes "number") (codes "z") 1 none
      (some (codes "7")) true (codes "7" ∷ [])
      (λ e. cc e, (refl, tt), (λ e. cc e, (refl, (refl, (refl, tt))), tt)) seven refl refl refl
      (λ e. cc e)

learned_eq :
    learn_option unused (some (codes "n,num")) (some (codes "number")) (pos 1) none none true all_ok
    ≡ some (ca_ret_ok, learned)
unfolding learn_option split split_text tokens_from is_delim default_values_of learn_split
    learn_names find insert
learned_eq = refl

parsed-Reachable : Reachable parsed
parsed-Reachable =
    after_parse
      (after_learning (created [] []) (some (codes "n,num")) (some (codes "number")) (pos 1) none
        none true all_ok learned_eq)
      (pos 4) (some num_args) true parse-learned

usage_lists_example :
    (text : Text) × (before : Text) × (after : Text) × (v : OptionValue) × (usage parsed
      ≡ some text)
    × (get_option_value parsed (codes "num") ≡ some v)
    × (text ≡ before ++ (option_line (codes "n") (codes "num") v ++ after))
unfolding find text_eq
usage_lists_example = usage_lists parsed (codes "num") (codes "n") parsed-Reachable refl

abbrev root_parsed : CommandLine
root_parsed = record learned { program_directory = []; program_name = codes "p"; has_parsed = true }
