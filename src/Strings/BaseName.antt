-- ===== src/Strings/BaseName.antt =====
-- The base name of a path, with its suffix or without.
use cpp_assistant.Prelude.{
  ℕ, suc, ◌+◌, ◌-◌, ◌≡◌, ◌≢◌, refl, Bool, true, Option, none, some, [], ◌∷◌, ◌++◌, length, drop,
  get_elem?, arith, if◌then◌else◌, ap, ◌∙◌, take-append_self, text_eq,
}
use cpp_assistant.Strings.{
  Text, last_index, directory_of, get_directory, char_at, dot, cut_suffix, suffix_cut,
  split_dir_and_basename,
}
use cpp_assistant.Strings.Directory.{
  Absent, last_index_found, joined_path, directory_root, get_directory_eq, get_elem?-mem,
  split_dir_lem, char_at_lem, drop-append_self, not_dots_slash, split-joined_path,
}

suffix_none : (same : Text → Text → Bool) (base : Text) → suffix_cut same none base ≡ base
unfolding suffix_cut
suffix_none same base = refl

-- The root is the directory of `/base`, but the base name that is returned still has the slash in
-- front of it.
pub root_keeps_slash :
    (same : Text → Text → Bool) (base : Text)
    → Absent b'/' base
    → base ≢ []
    → split_dir_and_basename same (b'/' ∷ base) b'/' none ≡ some (b'/' ∷ [], b'/' ∷ base)
root_keeps_slash same [] h nb = absurd (nb refl)
root_keeps_slash same (b ∷ bs) h nb =
    let slash : ℕ = b'/' in
    let base = b ∷ bs in
    let path = slash ∷ base in
    let (last, el, nl) = get_elem?-mem slash base (length bs) h (omega arith) in
    let at_last : char_at path (length path - 1) ≡ some last =
      char_at_lem path (length path - 1) (omega arith)
      ∙ ap (get_elem? path) (let z : length path - 1 ≡ suc (length bs) = omega arith in z)
      ∙ el in
    let root = directory_root slash path (last_index_found slash 0 [] base h) in
    let (n1, n2) = not_dots_slash base in
    split_dir_lem same slash base (slash ∷ []) slash last b none
      (get_directory_eq slash base (slash ∷ []) slash root (λ e. absurd (omega arith))) at_last nl
      n1 n2 (char_at_lem path 1 (omega arith))
    ∙ ap (λ l. some (slash ∷ [], l))
        (suffix_none same _ ∙ ap (λ t. drop (if t then 2 else 0) path) h.0)

-- A base name with a last extension loses it where the suffix asked for is that extension.
pub cut_suffix_lem :
    (same : Text → Text → Bool) (stem ext : Text)
    → stem ≢ []
    → Absent dot ext
    → same ext ext ≡ true
    → cut_suffix same (dot ∷ ext) (stem ++ (dot ∷ ext)) ≡ stem
unfolding cut_suffix
cut_suffix_lem same [] ext ns h e = absurd (ns refl)
cut_suffix_lem same (c ∷ cs) ext ns h e =
    let name = c ∷ (cs ++ (dot ∷ ext)) in
    let at : last_index dot 0 name ≡ some (suc (length cs)) =
      last_index_found dot 0 (c ∷ cs) ext h ∙ ap some (omega arith) in
    let rest : same (drop (suc (length cs) + 1) name) ext ≡ true =
      ap (λ l. same l ext) (drop-append_self (c ∷ cs) ext dot) ∙ e in
    rw (at, cut_suffix) (ground (arith, rest, take-append_self (c ∷ cs) (dot ∷ ext)))

suffix_some :
    (same : Text → Text → Bool) (suffix base : Text)
    → suffix_cut same (some suffix) base ≡ cut_suffix same suffix base
unfolding suffix_cut
suffix_some same suffix base = refl

-- `split_dir_and_basename` of `dir/stem.ext` with the suffix `.ext` gives `dir` and `stem`.
pub split-joined_path_ext :
    (same : Text → Text → Bool) (delim : ℕ) (dir stem ext : Text)
    → Absent delim (stem ++ (dot ∷ ext))
    → dir ≢ []
    → stem ≢ []
    → Absent dot ext
    → same ext ext ≡ true
    → split_dir_and_basename same
        (joined_path dir delim (stem ++ (dot ∷ ext)))
        delim
        (some (dot ∷ ext))
      ≡ some (dir, stem)
split-joined_path_ext same delim dir [] ext h nd ns he e = absurd (ns refl)
split-joined_path_ext same delim dir (c ∷ cs) ext h nd ns he e =
    split-joined_path same delim dir (c ∷ (cs ++ (dot ∷ ext))) (some (dot ∷ ext)) h nd (λ e. cc e)
    ∙ ap (λ l. some (dir, l))
        (suffix_some same (dot ∷ ext) (c ∷ (cs ++ (dot ∷ ext)))
          ∙ cut_suffix_lem same (c ∷ cs) ext ns he e)

-- A path of one byte that is neither a slash nor a dot makes `split_dir_and_basename` read behind the
-- final zero of the path.
pub one_byte_path_faults :
    (same : Text → Text → Bool) (c : ℕ) (suffix : Option Text)
    → c ≢ b'/'
    → c ≢ b'.'
    → split_dir_and_basename same (c ∷ []) b'/' suffix ≡ none
unfolding split_dir_and_basename get_directory directory_of last_index char_at text_eq
one_byte_path_faults same c suffix hs hd = ground arith
