-- ===== src/Prelude/TextMap.antt =====
-- A std::map with text keys, as an association list in the order of its keys.
use Prim.Native.Nat.{ℕ}
use mathlib.Core.Path.{◌≡◌, refl}
use mathlib.Core.Bool.{Bool, true, false}
use mathlib.Core.Option.{Option, none, some}
use mathlib.Core.List.{List, [], ◌∷◌}
use native.Mathlib.Omega.{arith}
use cpp_assistant.Prelude.Tests.{◌==◌, ltb, if◌then◌else◌}
use cpp_assistant.Prelude.Texts.{text_eq, text_eq_iff}

-- `strcmp(a, b) < 0`.
unfoldable pub text_lt : List ℕ → List ℕ → Bool
text_lt [] [] = false
text_lt [] (y ∷ ys) = true
text_lt (x ∷ xs) [] = false
text_lt (x ∷ xs) (y ∷ ys) =
    let rest = text_lt xs ys in if ltb x y then true else if x == y then rest else false

module _ {ℓ} {V : Type ℓ} where
  unfoldable pub find : List ℕ → List (List ℕ × V) → Option V
  find k [] = none
  find k ((j, v) ∷ m) = if text_eq j k then some v else find k m

  -- `insert`: a key that is there keeps its value.
  unfoldable pub insert : List ℕ → V → List (List ℕ × V) → List (List ℕ × V)
  insert k v [] = (k, v) ∷ []
  insert k v ((j, w) ∷ m) =
      let rest = insert k v m in
      if text_eq j k
      then (j, w) ∷ m
      else if text_lt k j
      then (k, v) ∷ ((j, w) ∷ m)
      else (j, w) ∷ rest

  -- A change of the value that an iterator points to.
  unfoldable pub modify : List ℕ → (V → V) → List (List ℕ × V) → List (List ℕ × V)
  modify k f [] = []
  modify k f ((j, v) ∷ m) = if text_eq j k then (j, f v) ∷ m else (j, v) ∷ modify k f m

  -- `erase(key)`.
  unfoldable pub erase : List ℕ → List (List ℕ × V) → List (List ℕ × V)
  erase k [] = []
  erase k ((j, v) ∷ m) = let rest = erase k m in if text_eq j k then rest else (j, v) ∷ rest

  pub find-insert :
      (k j : List ℕ) (v : V) (m : List (List ℕ × V))
      → find k m ≡ none
      → find j (insert k v m) ≡ (if text_eq k j then some v else find j m)
  unfolding find insert
  find-insert k j v [] h = refl
  find-insert k j v ((i, w) ∷ m) h =
      ground (arith, text_eq_iff i k, text_eq_iff i j, text_eq_iff k j, find-insert k j v m)

  pub find-modify :
      (k j : List ℕ) (f : V → V) (v : V) (m : List (List ℕ × V))
      → find k m ≡ some v
      → find j (modify k f m) ≡ (if text_eq k j then some (f v) else find j m)
  unfolding find modify
  find-modify k j f v [] h = cc
  find-modify k j f v ((i, w) ∷ m) h =
      ground (arith, text_eq_iff i k, text_eq_iff i j, text_eq_iff k j, find-modify k j f v m)

  pub find-modify-none :
      (k j : List ℕ) (f : V → V) (m : List (List ℕ × V))
      → find j m ≡ none
      → find j (modify k f m) ≡ none
  unfolding find modify
  find-modify-none k j f [] h = refl
  find-modify-none k j f ((i, w) ∷ m) h =
      ground (arith, text_eq_iff i k, text_eq_iff i j, text_eq_iff k j, find-modify-none k j f m)

  pub find-erase :
      (k j : List ℕ) (m : List (List ℕ × V))
      → find j (erase k m) ≡ (if text_eq k j then none else find j m)
  unfolding find erase
  find-erase k j [] = ground arith
  find-erase k j ((i, w) ∷ m) =
      ground (arith, text_eq_iff i k, text_eq_iff i j, text_eq_iff k j, find-erase k j m)
