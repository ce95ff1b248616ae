-- ===== src/Strings/Examples.antt =====
-- Texts and paths taken apart.
use cpp_assistant.Prelude.{◌≡◌, refl, none, some, List, [], ◌∷◌, pos, true, codes, text_eq}
use cpp_assistant.ReturnCode.{ca_ret_ok}
use cpp_assistant.Strings.{Text, is_delim, split, suffix_cut, split_dir_and_basename}
use cpp_assistant.Strings.Tokens.{Pieces, concat, without, split_lem, split-joined}
use cpp_assistant.Strings.Directory.{split-joined_path}

abbrev fields : List Text
fields = codes "ab" ∷ codes "c" ∷ []

split_lem_example :
    (ps : List Text) × (split (some (codes ",ab,,c")) (pos 6) (some (codes ",")) true
      ≡ some (ca_ret_ok, ps))
    × Pieces (codes ",") ps
    × (concat ps ≡ without (codes ",") (codes ",ab,,c"))
split_lem_example = split_lem (codes ",ab,,c") (codes ",") (λ e. cc e)

fields-Pieces : Pieces (codes ",;") fields
unfolding is_delim
fields-Pieces = (λ e. cc e, (refl, (refl, tt)), (λ e. cc e, (refl, tt), tt))

split-joined_example :
    split (some (codes "ab;c")) (pos 4) (some (codes ",;")) true ≡ some (ca_ret_ok, fields)
unfolding is_delim
split-joined_example = split-joined (codes ",;") b';' fields refl fields-Pieces (λ e. cc e)

split-joined_path_example :
    split_dir_and_basename text_eq (codes "a/b/c.d") b'/' none ≡ some (codes "a/b", codes "c.d")
unfolding suffix_cut
split-joined_path_example =
    split-joined_path text_eq b'/' (codes "a/b") (codes "c.d") none (refl, (refl, (refl, tt)))
      (λ e. cc e) (λ e. cc e)
