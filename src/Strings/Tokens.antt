-- ===== src/Strings/Tokens.antt =====
-- What `split` gives: the pieces between the delimiters.
use cpp_assistant.Prelude.{
  ℕ, ◌≡◌, ◌≢◌, refl, true, false, some, List, [], ◌∷◌, ◌++◌, length, pos, arith, if◌then◌else◌, sym,
  ap, ◌∙◌, Bool-cases, inl, inr, append_assoc, append-nil,
}
use cpp_assistant.ReturnCode.{ca_ret_ok}
use cpp_assistant.Strings.{Text, is_delim, flush, tokens_from, tokens, split_text, split}

-- A piece has at least one byte, and no delimiter among its bytes.
abbrev pub Plain : Text → Text → Type 0
Plain delim [] = Unit {0}
Plain delim (c ∷ cs) = (is_delim delim c ≡ false) × Plain delim cs

abbrev pub Pieces : Text → List Text → Type 0
Pieces delim [] = Unit {0}
Pieces delim (p ∷ ps) = (p ≢ []) × Plain delim p × Pieces delim ps

pub Plain-append : (delim xs ys : Text) → Plain delim xs → Plain delim ys → Plain delim (xs ++ ys)
Plain-append delim [] ys px py = py
Plain-append delim (x ∷ xs) ys px py = (px.0, Plain-append delim xs ys px.1 py)

flush-Pieces :
    (delim cur : Text) (ps : List Text)
    → Plain delim cur
    → Pieces delim ps
    → Pieces delim (flush cur ps)
flush-Pieces delim [] ps pc pp = pp
flush-Pieces delim (c ∷ cs) ps pc pp = (λ e. cc e, pc, pp)

tokens_from-Pieces :
    (delim cur src : Text) → Plain delim cur → Pieces delim (tokens_from delim cur src)
unfolding tokens_from
tokens_from-Pieces delim cur [] p = flush-Pieces delim cur [] p tt
tokens_from-Pieces delim cur (c ∷ cs) p = elim (Bool-cases (is_delim delim c)) [
  | inl e ↦ rw e (flush-Pieces delim cur _ p (tokens_from-Pieces delim [] cs tt))
  | inr e ↦
      rw e (tokens_from-Pieces delim (cur ++ c ∷ []) cs (Plain-append delim cur (c ∷ []) p (e, tt)))
]

abbrev pub concat : List Text → Text
concat [] = []
concat (p ∷ ps) = p ++ concat ps

-- A text without its delimiters.
abbrev pub without : Text → Text → Text
without delim [] = []
without delim (c ∷ cs) = if is_delim delim c then without delim cs else c ∷ without delim cs

concat-flush : (cur : Text) (ps : List Text) → concat (flush cur ps) ≡ cur ++ concat ps
concat-flush [] ps = refl
concat-flush (c ∷ cs) ps = refl

concat-tokens_from :
    (delim cur src : Text) → concat (tokens_from delim cur src) ≡ cur ++ without delim src
unfolding tokens_from
concat-tokens_from delim cur [] = concat-flush cur []
concat-tokens_from delim cur (c ∷ cs) = elim (Bool-cases (is_delim delim c)) [
  | inl e ↦ rw (e, concat-flush, concat-tokens_from delim [] cs)
  | inr e ↦
      rw (e, concat-tokens_from delim (cur ++ c ∷ []) cs)
        (append_assoc cur (c ∷ []) (without delim cs))
]

split_ok :
    (src delim : Text)
    → src ≢ []
    → split (some src) (pos (length src)) (some delim) true ≡ some (ca_ret_ok, tokens delim src)
unfolding split split_text
split_ok [] delim h = absurd (h refl)
split_ok (c ∷ cs) delim h = ground arith

-- With the length of a source that is not empty, and if its allocation succeeds, `split` succeeds and never
-- accesses memory outside of its buffer. No
-- piece is empty or has a delimiter in it, and together the pieces are the source without its delimiters.
pub split_lem :
    (src delim : Text)
    → src ≢ []
    → (ps : List Text) × (split (some src) (pos (length src)) (some delim) true
        ≡ some (ca_ret_ok, ps))
      × Pieces delim ps
      × (concat ps ≡ without delim src)
split_lem src delim h = (
  tokens delim src,
  split_ok src delim h,
  tokens_from-Pieces delim [] src tt,
  concat-tokens_from delim [] src,
)

step_inside :
    (delim cur cs : Text) (c : ℕ)
    → is_delim delim c ≡ false
    → tokens_from delim cur (c ∷ cs) ≡ tokens_from delim (cur ++ c ∷ []) cs
unfolding tokens_from
step_inside delim cur cs c h = rw h

step_delim :
    (delim cur cs : Text) (c : ℕ)
    → is_delim delim c ≡ true
    → tokens_from delim cur (c ∷ cs) ≡ flush cur (tokens delim cs)
unfolding tokens_from
step_delim delim cur cs c h = rw h

pub tokens_from-Plain :
    (delim cur p rest : Text)
    → Plain delim p
    → tokens_from delim cur (p ++ rest) ≡ tokens_from delim (cur ++ p) rest
tokens_from-Plain delim cur [] rest h = ap (λ l. tokens_from delim l rest) (sym (append-nil cur))
tokens_from-Plain delim cur (c ∷ cs) rest h =
    step_inside delim cur (cs ++ rest) c h.0
    ∙ tokens_from-Plain delim (cur ++ c ∷ []) cs rest h.1
    ∙ ap (λ l. tokens_from delim l rest) (append_assoc cur (c ∷ []) cs)

-- The pieces with `d` between them.
abbrev pub joined : ℕ → List Text → Text
joined d [] = []
joined d (p ∷ []) = p
joined d (p ∷ q ∷ ps) = p ++ (d ∷ joined d (q ∷ ps))

flush-piece : (p : Text) (ps : List Text) → p ≢ [] → flush p ps ≡ p ∷ ps
flush-piece [] ps h = absurd (h refl)
flush-piece (c ∷ cs) ps h = refl

tokens_from-nil : (delim cur : Text) → tokens_from delim cur [] ≡ flush cur []
unfolding tokens_from
tokens_from-nil delim cur = refl

pub tokens-joined :
    (delim : Text) (d : ℕ) (ps : List Text)
    → is_delim delim d ≡ true
    → Pieces delim ps
    → tokens delim (joined d ps) ≡ ps
tokens-joined delim d [] hd h = tokens_from-nil delim []
tokens-joined delim d (p ∷ []) hd h =
    ap (tokens delim) (sym (append-nil p))
    ∙ tokens_from-Plain delim [] p [] h.1
    ∙ tokens_from-nil delim p
    ∙ flush-piece p [] h.0
tokens-joined delim d (p ∷ q ∷ ps) hd h =
    tokens_from-Plain delim [] p (d ∷ joined d (q ∷ ps)) h.1
    ∙ step_delim delim p (joined d (q ∷ ps)) d hd
    ∙ ap (flush p) (tokens-joined delim d (q ∷ ps) hd h.2)
    ∙ flush-piece p (q ∷ ps) h.0

joined-nonempty : (d : ℕ) (p : Text) (ps : List Text) → p ≢ [] → joined d (p ∷ ps) ≢ []
joined-nonempty d [] ps h = absurd (h refl)
joined-nonempty d (c ∷ cs) [] h = λ e. cc e
joined-nonempty d (c ∷ cs) (q ∷ ps) h = λ e. cc e

-- Texts that are not empty and have no delimiter in them come back from `split` in their order after
-- they were joined by a delimiter.
pub split-joined :
    (delim : Text) (d : ℕ) (ps : List Text)
    → is_delim delim d ≡ true
    → Pieces delim ps
    → ps ≢ []
    → let src = joined d ps in
      split (some src) (pos (length src)) (some delim) true ≡ some (ca_ret_ok, ps)
split-joined delim d [] hd h ne = absurd (ne refl)
split-joined delim d (p ∷ ps) hd h ne =
    split_ok (joined d (p ∷ ps)) delim (joined-nonempty d p ps h.0)
    ∙ ap (λ l. some (ca_ret_ok, l)) (tokens-joined delim d (p ∷ ps) hd h)
