-- ===== src/SequentialBuffer/Appending.antt =====
-- What bytes put into the block at the write position do to the bytes held.
use cpp_assistant.Prelude.{
  ℕ, ◌+◌, ◌-◌, ◌≤◌, ◌≡◌, List, ◌++◌, length, ℤ, pos, arith, leb_ℤ, overwrite, slice-overwrite,
  length-overwrite, Bool-cases, inl, inr, if◌then◌else◌,
}
use cpp_assistant.SequentialBuffer.{overflow_pos}
use cpp_assistant.SequentialBuffer.Layout.{Positions, contents_of}

-- A position that reaches the size is set to OVERFLOW_POS.
abbrev pub next_pos : ℕ → ℕ → ℤ
next_pos size p = if leb_ℤ (pos size) (pos p) then overflow_pos else pos p

pub overwritten :
    (mem : List ℕ) (a b : ℕ) (src : List ℕ)
    → Positions (length mem) (pos a) (pos b)
    → b + length src ≤ length mem
    → let m = overwrite mem b src in
      let w = next_pos (length mem) (b + length src) in
      (length m ≡ length mem)
      × Positions (length mem) (pos a) w
      × (contents_of m (pos a) w ≡ contents_of mem (pos a) (pos b) ++ src)
overwritten mem a b src p h =
    let el : length (overwrite mem b src) ≡ length mem = length-overwrite mem b src h in
    elim (Bool-cases (leb_ℤ (pos (length mem)) (pos (b + length src)))) [
      | inl t ↦ rw t (
        el,
        omega arith,
        slice-overwrite mem a b (length (overwrite mem b src) - a) src (omega arith) h
            (ground arith),
      )
      | inr f ↦ rw f (
        el,
        ground arith,
        slice-overwrite mem a b (b + length src - a) src (omega arith) h (omega arith),
      )
    ]
