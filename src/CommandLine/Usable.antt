-- ===== src/CommandLine/Usable.antt =====
-- `usage` over the life of a command line.
use cpp_assistant.Prelude.{
  some_inj, ◌≡◌, refl, true, some, List, [], ◌∷◌, ◌++◌, Bool-cases, inl, inr, text_eq, text_eq_iff,
  sym, ◌∙◌, ap, append_assoc,
}
use cpp_assistant.Prelude.TextMap.{find}
use cpp_assistant.Strings.{Text}
use cpp_assistant.CommandLine.{CommandLine, OptionValue, get_option_value, resolve}
use cpp_assistant.CommandLine.Names.{is_key, all_keys, is_key-find}
use cpp_assistant.CommandLine.Usage.{usage, option_lines, option_line, header_line, format_line}
use cpp_assistant.CommandLine.Life.{Reachable, Reachable-Named}

abbrev Listed : Text → Text → OptionValue → Text → Type 0
Listed long short v text =
    (before : Text) × (after : Text) × (text ≡ before ++ (option_line short long v ++ after))

option_lines-head :
    (cl : CommandLine) (l s : Text) (names : List (Text × Text)) (w : OptionValue) (rest : Text)
    → find s cl.option_entries ≡ some w
    → option_lines cl names ≡ some rest
    → option_lines cl ((l, s) ∷ names) ≡ some (option_line s l w ++ rest)
unfolding option_lines
option_lines-head cl l s names w rest e f = rw (e, f) refl

all_keys-head :
    (l s : Text) (names : List (Text × Text)) (m : List (Text × OptionValue))
    → all_keys ((l, s) ∷ names) m ≡ true
    → (is_key s m ≡ true) × (all_keys names m ≡ true)
unfolding all_keys
all_keys-head l s names m h = elim (Bool-cases (is_key s m)) [
  | inl k ↦ (k, rw k at h)
  | inr k ↦ absurd (cc (rw k at h))
]

option_lines-total :
    (cl : CommandLine) (names : List (Text × Text))
    → all_keys names cl.option_entries ≡ true
    → (text : Text) × (option_lines cl names ≡ some text)
unfolding option_lines
option_lines-total cl [] h = ([], refl)
option_lines-total cl ((l, s) ∷ names) h =
    let (k, ks) = all_keys-head l s names cl.option_entries h in
    let (w, e) = is_key-find s cl.option_entries k in
    let (rest, f) = option_lines-total cl names ks in
    (option_line s l w ++ rest, option_lines-head cl l s names w rest e f)

option_lines-lists :
    (cl : CommandLine) (names : List (Text × Text)) (long short : Text)
    → all_keys names cl.option_entries ≡ true
    → find long names ≡ some short
    → (text : Text) × (v : OptionValue) × (option_lines cl names ≡ some text)
      × (find short cl.option_entries ≡ some v)
      × Listed long short v text
unfolding find
option_lines-lists cl [] long short h e = absurd (cc e)
option_lines-lists cl ((l, s) ∷ names) long short h e =
    let (k, ks) = all_keys-head l s names cl.option_entries h in
    let (w, f) = is_key-find s cl.option_entries k in
    elim (Bool-cases (text_eq l long)) [
      | inl same ↦
          let (rest, g) = option_lines-total cl names ks in
          let same_long : l ≡ long = (text_eq_iff l long).0 same in
          let same_short : s ≡ short = some_inj (rw same at e) in
          (
            option_line s l w ++ rest,
            w,
            option_lines-head cl l s names w rest f g,
            rw same_short at f,
            ([], rest, rw (same_long, same_short) refl),
          )
      | inr differ ↦
          let (rest, v, g, at, (before, after, there)) =
            option_lines-lists cl names long short ks (rw differ at e) in
          (
            option_line s l w ++ rest,
            v,
            option_lines-head cl l s names w rest f g,
            at,
            (
              option_line s l w ++ before,
              after,
              ap (λ t. option_line s l w ++ t) there
                  ∙ sym
                      (append_assoc (option_line s l w) before (option_line short long v ++ after)),
            ),
          )
    ]

-- However options have been learned, command lines parsed and the state reset, `usage` never reads
-- behind its map of options: it gives a text, and each long name that is known has its line there, with
-- the short name, the assignment expression and the description of the entry that the long name finds.
pub usage_lists :
    (cl : CommandLine) (long short : Text)
    → Reachable cl
    → find long cl.option_name_relations ≡ some short
    → (text : Text) × (before : Text) × (after : Text) × (v : OptionValue) × (usage cl ≡ some text)
      × (get_option_value cl long ≡ some v)
      × (text ≡ before ++ (option_line short long v ++ after))
unfolding usage get_option_value resolve
usage_lists cl long short r e =
    let (lines, v, g, at, (before, after, there)) =
      option_lines-lists cl cl.option_name_relations long short (Reachable-Named r) e in
    let top = header_line cl cl.usage_header ++ format_line cl in
    (
      top ++ lines,
      top ++ before,
      after,
      v,
      rw g (ap some (sym (append_assoc (header_line cl cl.usage_header) (format_line cl) lines))),
      rw (e, resolve) at,
      ap (λ t. top ++ t) there ∙ sym (append_assoc top before (option_line short long v ++ after)),
    )
