-- ===== src/Strings/Directory.antt =====
-- The directory and the base name of a path.
use cpp_assistant.Prelude.{
  ℕ, zero, suc, ◌+◌, ◌-◌, ◌<◌, ◌≡◌, ◌≢◌, refl, Bool, false, Option, none, some, [], ◌∷◌, ◌++◌,
  length, take, drop, get_elem?, arith, if◌then◌else◌, ap, ◌∙◌, ◌==◌, length-append,
  take-append_self, codes, text_eq,
}
use cpp_assistant.Strings.{
  Text, last_index, directory_of, get_directory, char_at, suffix_cut, split_dir_and_basename,
}

-- `d` does not occur.
abbrev pub Absent : ℕ → Text → Type 0
Absent d [] = Unit {0}
Absent d (c ∷ cs) = ((c == d) ≡ false) × Absent d cs

pub last_index-Absent : (d i : ℕ) (xs : Text) → Absent d xs → last_index d i xs ≡ none
unfolding last_index
last_index-Absent d i [] h = refl
last_index-Absent d i (c ∷ cs) h = rw (last_index-Absent d (suc i) cs h.1, h.0)

pub last_index_found :
    (d i : ℕ) (xs ys : Text) → Absent d ys → last_index d i (xs ++ (d ∷ ys)) ≡ some (i + length xs)
unfolding last_index
last_index_found d i [] ys h = rw (last_index-Absent d (suc i) ys h) (ground arith)
last_index_found d i (x ∷ xs) ys h = rw (last_index_found d (suc i) xs ys h) (ground arith)

-- A path of the form `dir/base`: the directory and the delimiter are in front of the base name.
abbrev pub joined_path : Text → ℕ → Text → Text
joined_path dir delim base = dir ++ (delim ∷ base)

directory_some :
    (delim n : ℕ) (path : Text)
    → last_index delim 0 path ≡ some n
    → n ≢ 0
    → directory_of path delim ≡ take n path
unfolding directory_of
directory_some delim n path e h = rw (e, directory_of) (ground arith)

pub directory_root :
    (delim : ℕ) (path : Text)
    → last_index delim 0 path ≡ some 0
    → directory_of path delim ≡ codes "/"
unfolding directory_of
directory_root delim path e = rw (e, directory_of)

directory_none :
    (delim : ℕ) (path : Text)
    → last_index delim 0 path ≡ none
    → text_eq path (codes "..") ≡ false
    → directory_of path delim ≡ codes "."
unfolding directory_of
directory_none delim path e h = rw (e, directory_of, h)

directory_of-joined :
    (delim : ℕ) (dir base : Text)
    → Absent delim base
    → dir ≢ []
    → directory_of (joined_path dir delim base) delim ≡ dir
directory_of-joined delim [] base h ne = absurd (ne refl)
directory_of-joined delim (c ∷ cs) base h ne =
    directory_some delim (suc (length cs)) (joined_path (c ∷ cs) delim base)
      (last_index_found delim 0 (c ∷ cs) base h ∙ ap some (omega arith)) (omega arith)
    ∙ take-append_self (c ∷ cs) (delim ∷ base)

-- The directory and the length of the path differ.
pub get_directory_eq :
    (c : ℕ) (cs dir : Text) (delim : ℕ)
    → directory_of (c ∷ cs) delim ≡ dir
    → length dir ≢ length (c ∷ cs)
    → get_directory (c ∷ cs) delim ≡ dir
unfolding get_directory
get_directory_eq c cs dir delim e h = rw e (ground arith)

pub get_elem?-append : (xs ys : Text) (y : ℕ) → get_elem? (xs ++ (y ∷ ys)) (length xs) ≡ some y
get_elem?-append [] ys y = refl
get_elem?-append (x ∷ xs) ys y = get_elem?-append xs ys y

pub get_elem?-mem :
    (d : ℕ) (xs : Text) (i : ℕ)
    → Absent d xs
    → i < length xs
    → (c : ℕ) × (get_elem? xs i ≡ some c) × ((c == d) ≡ false)
get_elem?-mem d [] i h lt = absurd (omega arith)
get_elem?-mem d (x ∷ xs) zero h lt = (x, refl, h.0)
get_elem?-mem d (x ∷ xs) (suc i) h lt = get_elem?-mem d xs i h.1 (omega arith)

get_elem?-append_right :
    (xs ys : Text) (i : ℕ) → get_elem? (xs ++ ys) (length xs + i) ≡ get_elem? ys i
get_elem?-append_right [] ys i = ap (get_elem? ys) (omega arith)
get_elem?-append_right (x ∷ xs) ys i =
    ap (get_elem? (x ∷ (xs ++ ys)))
      (let z : suc (length xs) + i ≡ suc (length xs + i) = omega arith in z)
    ∙ get_elem?-append_right xs ys i

pub split_dir_lem :
    (same : Text → Text → Bool) (c : ℕ) (cs dir : Text) (delim last next : ℕ) (suffix : Option Text)
    → let path = c ∷ cs in
      get_directory path delim ≡ dir
      → char_at path (length path - 1) ≡ some last
      → ((last == delim) ≡ false)
      → text_eq path (codes ".") ≡ false
      → text_eq path (codes "..") ≡ false
      → char_at path (length dir) ≡ some next
      → split_dir_and_basename same path delim suffix
        ≡ some
            (dir, suffix_cut same suffix (drop (if next == delim then length dir + 1 else 0) path))
unfolding split_dir_and_basename
split_dir_lem same c cs dir delim last next suffix ed el nl n1 n2 en = rw (ed, el, nl, n1, n2, en)

pub char_at_lem : (path : Text) (i : ℕ) → i < length path → char_at path i ≡ get_elem? path i
unfolding char_at
char_at_lem path i h = ground arith

length-joined_path :
    (dir base : Text) (delim : ℕ)
    → length (joined_path dir delim base) ≡ length dir + suc (length base)
length-joined_path dir base delim = length-append dir (delim ∷ base)

pub drop-append_self : (xs ys : Text) (y : ℕ) → drop (length xs + 1) (xs ++ (y ∷ ys)) ≡ ys
drop-append_self [] ys y = refl
drop-append_self (x ∷ xs) ys y =
    ap (λ k. drop k (x ∷ (xs ++ (y ∷ ys))))
      (let z : suc (length xs) + 1 ≡ suc (length xs + 1) = omega arith in z)
    ∙ drop-append_self xs ys y

-- A text that is longer than two bytes is neither "." nor "..".
not_dots :
    (path : Text)
    → 2 < length path
    → (text_eq path (codes ".") ≡ false) × (text_eq path (codes "..") ≡ false)
unfolding text_eq
not_dots [] h = absurd (omega arith)
not_dots (a ∷ []) h = absurd (omega arith)
not_dots (a ∷ b ∷ []) h = absurd (omega arith)
not_dots (a ∷ b ∷ c ∷ cs) h = ground arith

rest_is_base :
    (delim : ℕ) (dir base : Text)
    → drop (if delim == delim then length dir + 1 else 0) (joined_path dir delim base) ≡ base
rest_is_base delim dir base =
    ap (λ k. drop k (joined_path dir delim base))
      (let z : (if delim == delim then length dir + 1 else 0) ≡ length dir + 1 = ground arith in z)
    ∙ drop-append_self dir base delim

pub not_dots_slash :
    (cs : Text)
    → (text_eq (b'/' ∷ cs) (codes ".") ≡ false) × (text_eq (b'/' ∷ cs) (codes "..") ≡ false)
unfolding text_eq
not_dots_slash cs = (refl, refl)

-- `split_dir_and_basename` takes `dir/base` apart, where neither is empty and the base name has no
-- delimiter in it.
pub split-joined_path :
    (same : Text → Text → Bool) (delim : ℕ) (dir base : Text) (suffix : Option Text)
    → Absent delim base
    → dir ≢ []
    → base ≢ []
    → split_dir_and_basename same (joined_path dir delim base) delim suffix
      ≡ some (dir, suffix_cut same suffix base)
split-joined_path same delim [] base suffix h nd nb = absurd (nd refl)
split-joined_path same delim (c ∷ cs) [] suffix h nd nb = absurd (nb refl)
split-joined_path same delim (c ∷ cs) (b ∷ bs) suffix h nd nb =
    let dir = c ∷ cs in
    let base = b ∷ bs in
    let path = joined_path dir delim base in
    let size = length-joined_path dir base delim in
    let (last, el, nl) = get_elem?-mem delim base (length bs) h (omega arith) in
    let (n1, n2) = not_dots path (omega (arith, size)) in
    let at_last : char_at path (length path - 1) ≡ some last =
      char_at_lem path (length path - 1) (omega (arith, size))
      ∙ ap (get_elem? path)
          (let z : length path - 1 ≡ length dir + suc (length bs) = omega (arith, size) in z)
      ∙ get_elem?-append_right dir (delim ∷ base) (suc (length bs))
      ∙ el in
    let at_delim : char_at path (length dir) ≡ some delim =
      char_at_lem path (length dir) (omega (arith, size)) ∙ get_elem?-append dir base delim in
    split_dir_lem same c (cs ++ (delim ∷ base)) dir delim last delim suffix
      (get_directory_eq c (cs ++ (delim ∷ base)) dir delim (directory_of-joined delim dir base h nd)
        (λ e. absurd (omega (arith, size))))
      at_last nl n1 n2 at_delim
    ∙ ap (λ l. some (dir, suffix_cut same suffix l)) (rest_is_base delim dir base)
