-- ===== src/CommandLine/Result.antt =====
-- `get_parsing_result` behind a call of `parse`.
use cpp_assistant.Prelude.{
  some_inj, ℕ, suc, ◌+◌, ◌-◌, ◌≡◌, ◌≢◌, refl, Bool, true, false, Option, none, some, List, [], ◌∷◌,
  ◌++◌, ℤ, pos, length, Bool-cases, Option-cases, inl, inr, arith, sym, ◌∙◌, ◌↔◌, subst, ap, take,
  drop, take-append_self,
}
use cpp_assistant.Prelude.TextMap.{find}
use cpp_assistant.Strings.{Text, last_index}
use cpp_assistant.Strings.Directory.{Absent, last_index_found}
use cpp_assistant.CommandLine.{CommandLine, add_value, set_is_specified, get_option_value, is_full}
use cpp_assistant.CommandLine.Parser.{parse, parse_all, parse_args, set_program}
use cpp_assistant.CommandLine.Invariant.{parse_args-keeps, finish-keeps}
use cpp_assistant.CommandLine.Usage.{get_parsing_result, result_text}

-- The directory and the name of the program, once a parse has started.
abbrev Started : Text → Text → CommandLine → Type 0
Started dir base cl =
    (cl.has_parsed ≡ true) × (cl.program_directory ≡ dir) × (cl.program_name ≡ base)

set_is_specified-Started :
    (dir base : Text) (cl cl' : CommandLine) (name : Text)
    → set_is_specified cl name ≡ some cl'
    → Started dir base cl
    → Started dir base cl'
unfolding set_is_specified
set_is_specified-Started dir base cl cl' name e h = elim (Option-cases (get_option_value cl name)) [
  | inl miss ↦ cc (rw (miss, set_is_specified) at e)
  | inr (v, hit) ↦ subst (Started dir base) (some_inj (rw (hit, set_is_specified) at e)) h
]

add_value-Started :
    (dir base : Text) (cl : CommandLine) (short : Option Text) (t : Text)
    → Started dir base cl
    → Started dir base (add_value cl short t).1
unfolding add_value
add_value-Started dir base cl none t h = h
add_value-Started dir base cl (some o) t h = elim (Option-cases (find o cl.option_entries)) [
  | inl miss ↦ rw (miss, add_value) h
  | inr (v, hit) ↦
      rw (hit, add_value)
        (elim (Bool-cases (is_full v)) [ inl full ↦ rw full h | inr room ↦ rw room h ])
]

drop-past : (dir : Text) (c : ℕ) (base : Text) → drop (length dir + 1) (dir ++ (c ∷ base)) ≡ base
drop-past [] c base = refl
drop-past (x ∷ dir) c base =
    let longer : length (x ∷ dir) + 1 ≡ suc (length dir + 1) = omega arith in
    ap (λ k. drop k ((x ∷ dir) ++ (c ∷ base))) longer ∙ drop-past dir c base

set_program-Started :
    (cl : CommandLine) (dir base : Text)
    → Absent b'/' base
    → Started dir base (set_program cl (dir ++ (b'/' ∷ base)))
unfolding set_program
set_program-Started cl dir base h =
    let found : last_index b'/' 0 (dir ++ (b'/' ∷ base)) ≡ some (length dir) =
      last_index_found b'/' 0 dir base h ∙ ap some (omega arith) in
    rw (found, set_program) (refl, take-append_self dir (b'/' ∷ base), drop-past dir b'/' base)

parse-Started :
    (cl cl' : CommandLine) (n : ℕ) (dir base : Text) (args : List (Option Text)) (alloc_ok : Bool)
    (ret : ℤ)
    → cl.has_parsed ≡ false
    → Absent b'/' base
    → parse cl (pos (suc n)) (some (some (dir ++ (b'/' ∷ base)) ∷ args)) alloc_ok ≡ some (ret, cl')
    → Started dir base cl'
unfolding parse parse_all
parse-Started cl cl' n dir base args alloc_ok ret fresh h e =
    let path = dir ++ (b'/' ∷ base) in
    let at_least_one : suc n + (1 - suc n) ≡ suc n = omega arith in
    let read : take (suc n + (1 - suc n)) (some path ∷ args) ≡ some path ∷ take n args =
      ap (λ k. take k (some path ∷ args)) at_least_one in
    let looped =
      parse_args-keeps (Started dir base) (set_is_specified-Started dir base)
        (add_value-Started dir base) (λ c t k. k) (set_program cl path) none (take n args) alloc_ok
        (set_program-Started cl dir base h) in
    finish-keeps (Started dir base) (set_is_specified-Started dir base) (add_value-Started dir base)
      (λ c t k. k) (parse_args (set_program cl path) none (take n args) alloc_ok) ret cl'
      (simp (fresh, read) at e) looped

get_parsing_result-text :
    (cl : CommandLine) (c : ℕ) (cs : Text) (b : ℕ) (bs : Text)
    → Started (c ∷ cs) (b ∷ bs) cl
    → get_parsing_result cl ≡ some (result_text cl (c ∷ cs) (b ∷ bs))
unfolding get_parsing_result
get_parsing_result-text cl c cs b bs (p, d, n) = rw (p, d, n) refl

get_parsing_result-Started :
    (cl : CommandLine) (dir base : Text)
    → base ≢ []
    → Started dir base cl
    → (get_parsing_result cl ≡ none) ↔ (dir ≡ [])
unfolding get_parsing_result
get_parsing_result-Started cl dir [] ne h = absurd (ne refl)
get_parsing_result-Started cl [] (b ∷ bs) ne (p, d, n) = ((λ e. refl), λ e. rw (p, d) refl)
get_parsing_result-Started cl (c ∷ cs) (b ∷ bs) ne h =
    ((λ e. absurd (cc (sym e ∙ get_parsing_result-text cl c cs b bs h))), λ e. absurd (cc e))

-- `parse` is called on a command line that has not been parsed, with a program's path that ends in a
-- slash and a base name that is not empty, and returns anything. `get_parsing_result` then gives its
-- text, unless nothing is in front of the slash: for a program in the root directory the directory's
-- name is a null pointer, which is appended to the text.
pub get_parsing_result-parse :
    (cl cl' : CommandLine) (n : ℕ) (dir base : Text) (args : List (Option Text)) (alloc_ok : Bool)
    (ret : ℤ)
    → cl.has_parsed ≡ false
    → Absent b'/' base
    → base ≢ []
    → parse cl (pos (suc n)) (some (some (dir ++ (b'/' ∷ base)) ∷ args)) alloc_ok ≡ some (ret, cl')
    → (get_parsing_result cl' ≡ none) ↔ (dir ≡ [])
get_parsing_result-parse cl cl' n dir base args alloc_ok ret fresh h ne e =
    get_parsing_result-Started cl' dir base ne
      (parse-Started cl cl' n dir base args alloc_ok ret fresh h e)
