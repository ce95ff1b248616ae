-- ===== src/ReturnCode/Decimal.antt =====
-- The digits of a number: the fuel is enough.
use cpp_assistant.Prelude.{
  ℕ, zero, suc, ◌+◌, ◌-◌, ◌*◌, ◌/◌, ◌%◌, ◌<◌, ◌≡◌, refl, false, [], ◌∷◌, ◌++◌, ltb, arith, ◌∙◌,
  Bool-cases, inl, inr,
}
use cpp_assistant.ReturnCode.Messages.{Message, digits, decimal}

-- The number that digits stand for, behind those of `n`.
abbrev pub value_from : ℕ → Message → ℕ
value_from n [] = n
value_from n (c ∷ cs) = value_from (n * 10 + (c - b'0')) cs

value_from-append :
    (n c : ℕ) (cs : Message) → value_from n (cs ++ c ∷ []) ≡ value_from n cs * 10 + (c - b'0')
value_from-append n c [] = refl
value_from-append n c (d ∷ cs) = value_from-append (n * 10 + (d - b'0')) c cs

value_from-digits : (fuel n : ℕ) → n < fuel → value_from 0 (digits fuel n) ≡ n
unfolding digits
value_from-digits zero n h = absurd (omega arith)
value_from-digits (suc fuel) n h = elim (Bool-cases (ltb n 10)) [
  | inl e ↦ rw e (omega arith)
  | inr e ↦ rw e (
      value_from-append 0 (b'0' + n % 10) (digits fuel (n / 10))
      ∙ shifted (value_from-digits fuel (n / 10) (omega (arith, not_small e))))
]
  where
    not_small : ltb n 10 ≡ false → n / 10 < n
    not_small e = ground arith

    shifted : {v : ℕ} → v ≡ n / 10 → v * 10 + (b'0' + n % 10 - b'0') ≡ n
    shifted e = omega (arith, e)

-- The digits of a number stand for it.
pub value_from-decimal : (n : ℕ) → value_from 0 (decimal n) ≡ n
value_from-decimal n = value_from-digits (n + 1) n (omega arith)
