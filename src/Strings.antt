-- ===== src/Strings.antt =====
-- Splitting texts and paths: code/libcpp_assistant/src/native/ca_string.cpp, and the inline
-- functions of include/cpp_assistant/native/ca_string.h. A C string is the list of its bytes,
-- without the final zero.
pub mod Tokens
pub mod Directory
pub mod BaseName
mod Examples
use cpp_assistant.Prelude.{
  ℕ, zero, suc, ◌+◌, ◌-◌, ◌≡◌, Bool, true, false, not, ◌&&◌, ◌||◌, Option, none, some, List, [],
  ◌∷◌, ◌++◌, length, take, drop, get_elem?, ℤ, pos, negsuc, leb_ℤ, if◌then◌else◌, ◌==◌, ltb, leb,
  ◌>>=◌, text_eq, codes,
}
use cpp_assistant.ReturnCode.{ca_ret, ca_ret_ok, invalid_param_value, memory_alloc_failed}

abbrev pub Text : Type 0
Text = List ℕ

-- CA_MAX_LEN_IN_STACK.
abbrev pub max_len_in_stack : ℕ
max_len_in_stack = 8192

unfoldable pub is_delim : Text → ℕ → Bool
is_delim [] c = false
is_delim (d ∷ ds) c = d == c || is_delim ds c

-- A token that has been read so far, in front of the later ones.
abbrev pub flush : Text → List Text → List Text
flush [] rest = rest
flush (c ∷ cs) rest = (c ∷ cs) ∷ rest

-- What repeated calls of `strtok_r` return, with `cur` read of the current token.
unfoldable pub tokens_from : Text → Text → Text → List Text
tokens_from delim cur [] = flush cur []
tokens_from delim cur (c ∷ cs) =
    let at_delim = flush cur (tokens_from delim [] cs) in
    let inside = tokens_from delim (cur ++ c ∷ []) cs in
    if is_delim delim c then at_delim else inside

abbrev pub tokens : Text → Text → List Text
tokens delim src = tokens_from delim [] src

-- The bytes of the buffer that the source is copied to.
abbrev pub buffer_size : ℕ → ℕ
buffer_size src_len = if ltb max_len_in_stack (src_len + 1) then src_len + 1 else max_len_in_stack

-- `split`. A source that does not fit into the buffer with its final zero is a write outside of it.
unfoldable pub split_text : ℕ → Bool → Text → Text → Option (ℤ × List Text)
split_text src_len alloc_ok src delim =
    if ltb max_len_in_stack (src_len + 1) && not alloc_ok
    then some (ca_ret memory_alloc_failed, [])
    else if ltb (length src) (buffer_size src_len)
    then some (ca_ret_ok, tokens delim src)
    else none

unfoldable pub split : Option Text → ℤ → Option Text → Bool → Option (ℤ × List Text)
split (some src) (pos (suc n)) (some delim) alloc_ok = split_text (suc n) alloc_ok src delim
split _ _ _ _ = some (ca_ret invalid_param_value, [])

-- The place of the last `delim` in a text, from index `i` on.
unfoldable pub last_index : ℕ → ℕ → Text → Option ℕ
last_index delim i [] = none
last_index delim i (c ∷ cs) = elim (last_index delim (suc i) cs) [
  | some j ↦ some j
  | none ↦ if c == delim then some i else none
]

-- `get_directory` of a path of exactly `path_len` bytes: the directory, of which the length is
-- returned.
unfoldable pub directory_of : Text → ℕ → Text
directory_of path delim = elim (last_index delim 0 path) [
  | none ↦ if text_eq path (codes "..") then codes ".." else codes "."
  | some n ↦ if n == 0 then codes "/" else take n path
]

-- The overload that returns a std::string of `path_len + 1` zeros, written to and then cut to the
-- directory, except where the directory is as long as the path.
unfoldable pub get_directory : Text → ℕ → Text
get_directory [] delim = []
get_directory (c ∷ cs) delim =
    let path = c ∷ cs in
    let dir = directory_of path delim in if length dir == length path then dir ++ 0 ∷ [] else dir

-- `path[i]` of a std::string: the final zero may be read, what lies behind it may not.
unfoldable pub char_at : Text → ℕ → Option ℕ
char_at path i = if i == length path then some 0 else get_elem? path i

abbrev pub dot : ℕ
dot = b'.'

-- The last extension of a base name is cut where it is the suffix asked for: `same` compares the
-- extension with the suffix behind its first byte.
unfoldable pub cut_suffix : (Text → Text → Bool) → Text → Text → Text
cut_suffix same suffix basename = elim (last_index dot 0 basename) [
  | none ↦ basename
  | some zero ↦ basename
  | some (suc n) ↦
      if (length basename == suc n + 1 && text_eq suffix (codes "."))
        || text_eq suffix (codes ".*")
        || same (drop (suc n + 1) basename) (drop 1 suffix)
      then take (suc n) basename
      else basename
]

unfoldable pub suffix_cut : (Text → Text → Bool) → Option Text → Text → Text
suffix_cut same none basename = basename
suffix_cut same (some suffix) basename = cut_suffix same suffix basename

-- `split_dir_and_basename`; `same` is the comparison that `is_case_sensitive` chooses.
unfoldable pub split_dir_and_basename :
    (Text → Text → Bool) → Text → ℕ → Option Text → Option (Text × Text)
split_dir_and_basename same [] delim suffix = some ([], [])
split_dir_and_basename same (c ∷ cs) delim suffix =
    let path = c ∷ cs in
    let dir = get_directory path delim in
    do
      last ← char_at path (length path - 1)
      if last == delim || text_eq path (codes ".") || text_eq path (codes "..")
          then some (dir, [])
          else (do
            next ← char_at path (length dir)
            let start : ℕ = if next == delim then length dir + 1 else 0
            some (dir, suffix_cut same suffix (drop start path)))
