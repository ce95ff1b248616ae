-- ===== src/CommandLine.antt =====
-- Command line options: code/libcpp_assistant/src/native/command_line.cpp and
-- include/cpp_assistant/native/command_line.h. A `none` result is an access outside of an array.
pub mod Parser
pub mod Usage
pub mod Names
pub mod Life
pub mod Usable
pub mod Result
pub mod Invariant
pub mod Counts
pub mod Parsed
pub mod Learning
pub mod Plain
mod Examples
use cpp_assistant.Prelude.{
  ℕ, ◌+◌, ◌≡◌, Bool, true, false, not, ◌&&◌, ◌||◌, Option, none, some, List, [], ◌∷◌, ◌++◌, length,
  ℤ, pos, negsuc, leb_ℤ, ltb_ℤ, ◌==ℤ◌, if◌then◌else◌, leb, ltb, codes, ◌>>=◌,
}
use cpp_assistant.Prelude.TextMap.{find, insert, modify}
use cpp_assistant.ReturnCode.{
  ca_ret, ca_ret_ok, null_param, value_out_of_range, invalid_param_value, object_already_exists,
  memory_alloc_failed, unknown_cmd_line_option, excess_object_count,
}
use cpp_assistant.Strings.{Text, split}

-- `option_value_t`. A count is stored only if it is not negative.
pub record OptionValue : Type 0 where
  pub description : Text
  pub assign_expression : Text
  pub least_value_count : ℕ
  pub value_count_is_fixed : Bool
  pub is_specified : Bool
  pub values : List Text

-- `m_option_entries` goes from short names, `m_option_name_relations` from long to short names.
pub record CommandLine : Type 0 where
  pub program_directory : Text
  pub program_name : Text
  pub usage_header : Text
  pub usage_format : Text
  pub option_entries : List (Text × OptionValue)
  pub option_name_relations : List (Text × Text)
  pub single_parameters : List Text
  pub has_parsed : Bool

abbrev pub new_command_line : Text → Text → CommandLine
new_command_line header format = record {
  program_directory = [];
  program_name = [];
  usage_header = header;
  usage_format = format;
  option_entries = [];
  option_name_relations = [];
  single_parameters = [];
  has_parsed = false;
}

-- The short name under which the entry of a short or a long name is kept.
unfoldable pub resolve : CommandLine → Text → Text
resolve cl name = elim (find name cl.option_name_relations) [ none ↦ name | some short ↦ short ]

unfoldable pub get_option_value : CommandLine → Text → Option OptionValue
get_option_value cl name = find (resolve cl name) cl.option_entries

abbrev pub mark : OptionValue → OptionValue
mark v = if v.is_specified then v else record v { is_specified = true; values = [] }

-- The macro SET_IS_SPECIFIED; `none` is its return of UNKNOWN_CMD_LINE_OPTION.
unfoldable pub set_is_specified : CommandLine → Text → Option CommandLine
set_is_specified cl name = elim (get_option_value cl name) [
  | none ↦ none
  | some v ↦ some (record cl { option_entries = modify (resolve cl name) mark cl.option_entries })
]

abbrev pub push_value : Text → OptionValue → OptionValue
push_value value v = record v { values = v.values ++ value ∷ [] }

abbrev pub is_full : OptionValue → Bool
is_full v = v.value_count_is_fixed && leb v.least_value_count (length v.values)

abbrev pub add_single : CommandLine → Text → CommandLine
add_single cl value = record cl { single_parameters = cl.single_parameters ++ value ∷ [] }

unfoldable pub add_value : CommandLine → Option Text → Text → ℤ × CommandLine
add_value cl none value = (ca_ret_ok, add_single cl value)
add_value cl (some option) value = elim (find option cl.option_entries) [
  | none ↦ (ca_ret unknown_cmd_line_option, cl)
  | some v ↦ if is_full v then (ca_ret excess_object_count, cl) else (
    ca_ret_ok,
    record cl { option_entries = modify option (push_value value) cl.option_entries },
  )
]

-- `reset`.
abbrev pub forget : OptionValue → OptionValue
forget v = record v { is_specified = false; values = [] }

unfoldable pub forget_all : List (Text × OptionValue) → List (Text × OptionValue)
forget_all [] = []
forget_all ((k, v) ∷ m) = (k, forget v) ∷ forget_all m

unfoldable pub reset : CommandLine → CommandLine
reset cl = record cl {
  option_entries = forget_all cl.option_entries;
  single_parameters = [];
  has_parsed = false;
}

-- Whether each allocation that `learn_option` makes succeeds, in their order.
pub record Allocations : Type 0 where
  pub names_ok : Bool
  pub short_ok : Bool
  pub long_ok : Bool
  pub defaults_ok : Bool

abbrev pub or_empty : Option Text → Text
or_empty none = []
or_empty (some t) = t

-- The default values are what `split` leaves in the vector, whatever it returns.
unfoldable pub default_values_of : Option Text → Bool → Option (List Text)
default_values_of none alloc_ok = some []
default_values_of (some t) alloc_ok = do
  (ret, values) ← split (some t) (pos (length t)) (some (codes " ")) alloc_ok
  some values

-- `learn_option` once the names are known. The insertions cannot fail there, since neither name is in
-- its map.
unfoldable pub learn_names : CommandLine → Text → Text → OptionValue → Allocations → ℤ × CommandLine
learn_names cl short long value mem = elim (find short cl.option_entries) [
  | some v ↦ (ca_ret object_already_exists, cl)
  | none ↦
      if not mem.short_ok
      then (ca_ret memory_alloc_failed, cl)
      else elim (find long cl.option_name_relations) [
        | some s ↦ (ca_ret object_already_exists, cl)
        | none ↦ if not mem.long_ok then (ca_ret memory_alloc_failed, cl) else (
          ca_ret_ok,
          record cl {
            option_entries = insert short value cl.option_entries;
            option_name_relations = insert long short cl.option_name_relations;
          },
        )
      ]
]

abbrev pub second_or : Text → List Text → Text
second_or short [] = short
second_or short (long ∷ more) = long

-- `option_names[0]` of no name at all is an access outside of the vector.
unfoldable pub learn_split :
    CommandLine → List Text → OptionValue → Allocations → Option (ℤ × CommandLine)
learn_split cl [] value mem = none
learn_split cl (short ∷ more) value mem =
    some (learn_names cl short (second_or short more) value mem)

unfoldable pub learn_option :
    CommandLine
    → Option Text
    → Option Text
    → ℤ
    → Option Text
    → Option Text
    → Bool
    → Allocations
    → Option (ℤ × CommandLine)
learn_option cl (some name) (some desc) (pos least) assign defaults fixed mem = do
  (ret, names) ← split (some name) (pos (length name)) (some (codes ",")) mem.names_ok
  values ← default_values_of defaults mem.defaults_ok
  if not (ret ==ℤ ca_ret_ok)
      then some (ca_ret invalid_param_value, cl)
      else learn_split cl names
          (record {
            description = desc;
            assign_expression = or_empty assign;
            least_value_count = least;
            value_count_is_fixed = fixed;
            is_specified = false;
            values = values;
          })
          mem
learn_option cl (some name) (some desc) (negsuc k) assign defaults fixed mem =
    some (ca_ret value_out_of_range, cl)
learn_option cl (some name) none least assign defaults fixed mem = some (ca_ret null_param, cl)
learn_option cl none desc least assign defaults fixed mem = some (ca_ret null_param, cl)

-- `user_option`. Its `value_count_is_fixed` is not handed on by `learn_options`.
pub record UserOption : Type 0 where
  pub full_name : Option Text
  pub user_description : Option Text
  pub user_least_value_count : ℤ
  pub user_value_count_is_fixed : Bool
  pub user_assign_expression : Option Text
  pub default_values : Option Text

unfoldable pub learn_each : CommandLine → List UserOption → Allocations → Option (ℤ × CommandLine)
learn_each cl [] mem = some (ca_ret_ok, cl)
learn_each cl (o ∷ os) mem = do
  (ret, cl') ←
      learn_option cl o.full_name o.user_description o.user_least_value_count
        o.user_assign_expression o.default_values true mem
  let rest = learn_each cl' os mem
  if ltb_ℤ ret (pos 0) then some (ret, cl') else rest

unfoldable pub learn_options :
    CommandLine → Option (List UserOption) → Allocations → Option (ℤ × CommandLine)
learn_options cl (some (o ∷ os)) mem = learn_each cl (o ∷ os) mem
learn_options cl _ mem = some (ca_ret invalid_param_value, cl)
