-- ===== src/SequentialBuffer/Settling.antt =====
-- What `if (has_overflown_pointer()) move_data_to_header();` leaves.
use cpp_assistant.Prelude.{
  ℕ, zero, suc, ◌≤◌, ◌<◌, ◌≡◌, refl, Option, some, List, length, ℤ, pos, negsuc, arith, true, false,
  ap, Bool-cases, inl, inr,
}
use cpp_assistant.SequentialBuffer.{
  SequentialBuffer, overflow_pos, header_if, has_overflown_pointer,
}
use cpp_assistant.SequentialBuffer.Layout.{held, Positions, contents_of, length-contents_of}
use cpp_assistant.SequentialBuffer.Moving.{Packed, move_data_to_header-Moved}

-- The positions when neither is at or past the end, or the block is full from its start.
abbrev pub Settled : ℕ → ℕ → ℤ → Type 0
Settled n a (pos b) = (a ≤ b) × (b < n)
Settled n a (negsuc zero) = (a ≡ 0) × (0 < n)
Settled n a (negsuc (suc k)) = ⊥

abbrev pub Settles : List ℕ → ℤ → ℤ → Option SequentialBuffer → Type 0
Settles mem r w out =
    (mem' : List ℕ) × (a : ℕ) × (w' : ℤ) × (out ≡ some (held mem' (pos a) w'))
    × (length mem' ≡ length mem)
    × Settled (length mem) a w'
    × (contents_of mem' (pos a) w' ≡ contents_of mem r w)

Settled-of_Packed : (n : ℕ) (w : ℤ) → Packed n w → Settled n 0 w
Settled-of_Packed n (pos b) p = omega arith
Settled-of_Packed n (negsuc zero) p = omega arith
Settled-of_Packed n (negsuc (suc k)) p = absurd p

settled_by_move :
    (mem : List ℕ) (r w : ℤ)
    → Positions (length mem) r w
    → Settles mem r w (header_if true (held mem r w))
settled_by_move mem r w p =
    let (k, m, v, eo, el, packed, ec) = move_data_to_header-Moved mem r w p in
    (m, 0, v, rw eo, el, Settled-of_Packed (length mem) v packed, ec)

-- The two positions that need no move are both indices below the size.
no_overflow :
    (mem : List ℕ) (r w : ℤ)
    → Positions (length mem) r w
    → has_overflown_pointer (held mem r w) ≡ false
    → Settles mem r w (some (held mem r w))
unfolding has_overflown_pointer
no_overflow mem (pos a) (pos b) p h = (mem, a, pos b, refl, refl, ground arith, refl)
no_overflow mem (pos a) (negsuc zero) p h = absurd (ground arith)
no_overflow mem (negsuc zero) w p h = absurd (ground arith)
no_overflow mem (pos a) (negsuc (suc k)) p h = absurd p
no_overflow mem (negsuc (suc k)) w p h = absurd p

pub settles :
    (mem : List ℕ) (r w : ℤ)
    → Positions (length mem) r w
    → Settles mem r w (header_if (has_overflown_pointer (held mem r w)) (held mem r w))
settles mem r w p = elim (Bool-cases (has_overflown_pointer (held mem r w))) [
  | inl e ↦ rw e (settled_by_move mem r w p)
  | inr e ↦ rw e (no_overflow mem r w p e)
]

-- A buffer that is not full: the bytes between two indices below the size.
abbrev pub Roomy : List ℕ → ℤ → ℤ → Option SequentialBuffer → Type 0
Roomy mem r w out =
    (mem' : List ℕ) × (a : ℕ) × (b : ℕ) × (out ≡ some (held mem' (pos a) (pos b)))
    × (length mem' ≡ length mem)
    × (a ≤ b)
    × (b < length mem)
    × (contents_of mem' (pos a) (pos b) ≡ contents_of mem r w)

pub settles-Roomy :
    (mem : List ℕ) (r w : ℤ)
    → Positions (length mem) r w
    → length (contents_of mem r w) < length mem
    → Roomy mem r w (header_if (has_overflown_pointer (held mem r w)) (held mem r w))
settles-Roomy mem r w p lt = go (settles mem r w p)
  where
    go :
        Settles mem r w (header_if (has_overflown_pointer (held mem r w)) (held mem r w))
        → Roomy mem r w (header_if (has_overflown_pointer (held mem r w)) (held mem r w))
    go (m, a, pos b, eo, el, st, ec) = (m, a, b, eo, el, st.0, st.1, ec)
    go (m, a, negsuc zero, eo, el, st, ec) =
        absurd
          (omega (arith, ap length ec, length-contents_of m (pos a) overflow_pos (omega arith)))
    go (m, a, negsuc (suc k), eo, el, st, ec) = absurd st
