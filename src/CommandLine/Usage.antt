-- ===== src/CommandLine/Usage.antt =====
-- `usage` and `get_parsing_result`: the text that is saved in the holder, or printed.
use cpp_assistant.Prelude.{
  ℕ, suc, true, false, Option, none, some, List, [], ◌∷◌, ◌++◌, length, if◌then◌else◌, codes, ◌>>=◌,
}
use cpp_assistant.Prelude.TextMap.{find}
use cpp_assistant.ReturnCode.Messages.{decimal}
use cpp_assistant.Strings.{Text}
use cpp_assistant.CommandLine.{CommandLine, OptionValue}

-- A line feed.
abbrev pub line_end : Text
line_end = 10 ∷ []

abbrev pub or_default : Text → Text → Text
or_default default [] = default
or_default default (c ∷ cs) = c ∷ cs

abbrev pub shown_program : CommandLine → Text
shown_program cl = or_default (codes "[Unknown program name]") cl.program_name

abbrev pub header_line : CommandLine → Text → Text
header_line cl [] = []
header_line cl (c ∷ cs) = shown_program cl ++ (codes " - " ++ ((c ∷ cs) ++ line_end))

abbrev pub format_line : CommandLine → Text
format_line cl =
    codes "Format: "
    ++ (shown_program cl
        ++ (codes " "
            ++ (or_default (codes "[options ...] [targets ...]") cl.usage_format ++ line_end)))

abbrev pub option_line : Text → Text → OptionValue → Text
option_line short long v =
    codes "-"
    ++ (short
        ++ (codes ", --"
            ++ (long ++ (v.assign_expression ++ (codes ": " ++ (v.description ++ line_end))))))

-- The loop over the long names. A short name that has no entry gives the iterator `end()`, which must
-- not be read.
unfoldable pub option_lines : CommandLine → List (Text × Text) → Option Text
option_lines cl [] = some []
option_lines cl ((long, short) ∷ names) = do
  v ← find short cl.option_entries
  rest ← option_lines cl names
  some (option_line short long v ++ rest)

unfoldable pub usage : CommandLine → Option Text
usage cl = do
  lines ← option_lines cl cl.option_name_relations
  some (header_line cl cl.usage_header ++ (format_line cl ++ lines))

-- Values in brackets.
unfoldable pub bracketed : List Text → Text
bracketed [] = []
bracketed (v ∷ vs) = codes " [" ++ (v ++ (codes "]" ++ bracketed vs))

abbrev pub result_block : Text → OptionValue → Text
result_block short v =
    codes "********** -"
    ++ (short
        ++ (codes " **********"
            ++ (line_end
                ++ (codes "least value count: "
                    ++ (decimal v.least_value_count
                        ++ (line_end
                            ++ (decimal (length v.values)
                                ++ (codes " (default)value(s):"
                                    ++ (bracketed v.values ++ line_end)))))))))

unfoldable pub result_blocks : List (Text × OptionValue) → ℕ × Text
result_blocks [] = (0, [])
result_blocks ((short, v) ∷ m) =
    let (n, text) = result_blocks m in
    if v.is_specified then (suc n, result_block short v ++ text) else (n, text)

abbrev pub rule_line : Text
rule_line = codes "========================="

-- The directory and the name are null pointers, which `append` must not be given, where they are empty.
abbrev pub non_empty : Text → Option Text
non_empty [] = none
non_empty (c ∷ cs) = some (c ∷ cs)

unfoldable pub result_text : CommandLine → Text → Text → Text
result_text cl directory name =
    let (n, blocks) = result_blocks cl.option_entries in
    codes "Command line parsing result:"
    ++ (line_end
        ++ (codes "Program directory: "
            ++ (directory
                ++ (line_end
                    ++ (codes "Program name: "
                        ++ (name
                            ++ (line_end
                                ++ (rule_line
                                    ++ (line_end
                                        ++ (codes ">>> values of each option:"
                                            ++ (line_end
                                                ++ (blocks
                                                    ++ (codes ">>> summary: "
                                                        ++ (decimal n
                                                            ++ (codes " option(s) in total"
                                                            ++ (line_end
                                                            ++ (rule_line
                                                            ++ (line_end
                                                            ++ (codes ">>> single parameter(s):"
                                                            ++ (bracketed cl.single_parameters
                                                            ++ (line_end
                                                            ++ (codes ">>> summary: "
                                                            ++ (decimal
                                                            (length cl.single_parameters)
                                                            ++ (codes
                                                            " single parameter(s) in total"
                                                            ++ (line_end
                                                            ++ rule_line)))))))))))))))))))))))))

unfoldable pub get_parsing_result : CommandLine → Option Text
get_parsing_result cl = elim cl.has_parsed [
  | false ↦ some (codes "Command line parsing has not been executed yet.")
  | true ↦ do
    directory ← non_empty cl.program_directory
    name ← non_empty cl.program_name
    some (result_text cl directory name)
]
