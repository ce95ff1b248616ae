-- ===== src/Prelude/Slices.antt =====
-- Slices of lists: what `take`, `drop` and a write of a block do to one another.
use Prim.Native.Nat.{ℕ, zero, suc, ◌+◌, ◌-◌, ◌≤◌, min}
use mathlib.Core.Path.{◌≡◌, refl, ap, ◌∙◌, sym}
use mathlib.Core.List.{List, [], ◌∷◌, ◌++◌}
use native.Mathlib.Omega.{arith}
use cpp_assistant.Prelude.Lists.{length, take, drop, length-append, length-take, length-drop}

module _ {ℓ} {A : Type ℓ} where
  -- `src` written over `xs` from index `i` on.
  abbrev pub overwrite : List A → ℕ → List A → List A
  overwrite xs i src = take i xs ++ (src ++ drop (i + length src) xs)

  pub take-nil : (n : ℕ) → take n (let e : List A = [] in e) ≡ []
  take-nil zero = refl
  take-nil (suc n) = refl

  pub drop-nil : (n : ℕ) → drop n (let e : List A = [] in e) ≡ []
  drop-nil zero = refl
  drop-nil (suc n) = refl

  pub drop-drop : (m n : ℕ) (xs : List A) → drop m (drop n xs) ≡ drop (n + m) xs
  drop-drop m zero xs = ap (λ k. drop k xs) (omega arith)
  drop-drop m (suc n) [] = drop-nil m ∙ sym (drop-nil (suc n + m))
  drop-drop m (suc n) (x ∷ xs) =
      drop-drop m n xs
      ∙ ap (λ k. drop k (x ∷ xs)) (let e : suc (n + m) ≡ suc n + m = omega arith in e)

  pub take-take : (m n : ℕ) (xs : List A) → m ≤ n → take m (take n xs) ≡ take m xs
  take-take zero n xs h = refl
  take-take (suc m) zero xs h = absurd (omega arith)
  take-take (suc m) (suc n) [] h = refl
  take-take (suc m) (suc n) (x ∷ xs) h = ap (λ l. x ∷ l) (take-take m n xs (omega arith))

  pub take-take-min : (m n : ℕ) (xs : List A) → take m (take n xs) ≡ take (min n m) xs
  take-take-min zero n xs = ap (λ k. take k xs) (let e : zero ≡ min n zero = omega arith in e)
  take-take-min (suc m) zero xs =
      ap (λ k. take k xs) (let e : zero ≡ min zero (suc m) = omega arith in e)
  take-take-min (suc m) (suc n) [] = sym (take-nil (min (suc n) (suc m)))
  take-take-min (suc m) (suc n) (x ∷ xs) =
      ap (λ l. x ∷ l) (take-take-min m n xs)
      ∙ ap (λ k. take k (x ∷ xs)) (let e : suc (min n m) ≡ min (suc n) (suc m) = omega arith in e)

  pub drop-take : (a b : ℕ) (xs : List A) → drop a (take b xs) ≡ take (b - a) (drop a xs)
  drop-take zero b xs = ap (λ k. take k xs) (omega arith)
  drop-take (suc a) zero xs =
      ap (λ k. take k (drop (suc a) xs)) (let e : zero ≡ zero - suc a = omega arith in e)
  drop-take (suc a) (suc b) [] = sym (take-nil (suc b - suc a))
  drop-take (suc a) (suc b) (x ∷ xs) =
      drop-take a b xs
      ∙ ap (λ k. take k (drop a xs)) (let e : b - a ≡ suc b - suc a = omega arith in e)

  pub take_all : (n : ℕ) (xs : List A) → length xs ≤ n → take n xs ≡ xs
  take_all zero [] h = refl
  take_all zero (x ∷ xs) h = absurd (omega arith)
  take_all (suc n) [] h = refl
  take_all (suc n) (x ∷ xs) h = ap (λ l. x ∷ l) (take_all n xs (omega arith))

  pub drop_all : (n : ℕ) (xs : List A) → length xs ≤ n → drop n xs ≡ []
  drop_all zero [] h = refl
  drop_all zero (x ∷ xs) h = absurd (omega arith)
  drop_all (suc n) [] h = refl
  drop_all (suc n) (x ∷ xs) h = drop_all n xs (omega arith)

  pub take-append :
      (n : ℕ) (xs ys : List A) → take n (xs ++ ys) ≡ take n xs ++ take (n - length xs) ys
  take-append n [] ys = ground (arith, take-nil n)
  take-append zero (x ∷ xs) ys = ground arith
  take-append (suc n) (x ∷ xs) ys = ground (arith, take-append n xs ys)

  pub drop-append :
      (n : ℕ) (xs ys : List A) → drop n (xs ++ ys) ≡ drop n xs ++ drop (n - length xs) ys
  drop-append n [] ys = ground (arith, drop-nil n)
  drop-append zero (x ∷ xs) ys = ground arith
  drop-append (suc n) (x ∷ xs) ys = ground (arith, drop-append n xs ys)

  pub length-overwrite :
      (xs : List A) (i : ℕ) (src : List A)
      → i + length src ≤ length xs
      → length (overwrite xs i src) ≡ length xs
  length-overwrite xs i src h = omega (
    arith,
    length-append (take i xs) (src ++ drop (i + length src) xs),
    length-append src (drop (i + length src) xs),
    length-take i xs,
    length-drop (i + length src) xs,
  )

  pub take-append_self : (xs ys : List A) → take (length xs) (xs ++ ys) ≡ xs
  take-append_self [] ys = refl
  take-append_self (x ∷ xs) ys = ap (λ l. x ∷ l) (take-append_self xs ys)

  -- A slice that ends with what was just written behind it.
  pub slice-overwrite :
      (xs : List A) (a b k : ℕ) (src : List A)
      → a ≤ b
      → b + length src ≤ length xs
      → k ≡ b + length src - a
      → take k (drop a (overwrite xs b src)) ≡ take (b - a) (drop a xs) ++ src
  slice-overwrite xs a b k src h hb e =
      ap (take k) (drop-append a (take b xs) rest)
      ∙ ap (λ l. take k (l ++ drop (a - length (take b xs)) rest)) (drop-take a b xs)
      ∙ ap (λ j. take k (kept ++ drop j rest))
          (let e0 : a - length (take b xs) ≡ 0 = omega (arith, length-take b xs) in e0)
      ∙ take-append k kept rest
      ∙ ap (λ l. l ++ take (k - length kept) rest) (take_all k kept (omega (arith, size)))
      ∙ ap (λ j. kept ++ take j rest)
          (let e1 : k - length kept ≡ length src = omega (arith, size) in e1)
      ∙ ap (λ l. kept ++ l) (take-append_self src (drop (b + length src) xs))
    where
      kept : List A
      kept = take (b - a) (drop a xs)

      rest : List A
      rest = src ++ drop (b + length src) xs

      size : length kept ≡ b - a
      size = omega (arith, length-take (b - a) (drop a xs), length-drop a xs)
