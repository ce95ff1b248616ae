-- ===== src/SequentialBuffer/Moving.antt =====
-- `move_data_to_header` on the states that occur.
use cpp_assistant.Prelude.{
  length-overwrite, ℕ, zero, suc, ◌+◌, ◌-◌, ◌≤◌, ◌<◌, ◌≡◌, refl, Option, some, List, length, take,
  drop, ℤ, pos, negsuc, arith, length-take, length-drop, overwrite, take-append, take_all,
  zero-==-suc, Bool-cases, inl, inr, if◌then◌else◌, ◌∙◌, load-eq-some, store-eq-some, append-nil,
  leb_ℤ,
}
use cpp_assistant.SequentialBuffer.{SequentialBuffer, overflow_pos, move_data_to_header, shift_down}
use cpp_assistant.SequentialBuffer.Layout.{held, Positions, held_size, contents_of, data_size_lem}

-- The block after the bytes from `r` on have moved to its start.
abbrev pub shifted : List ℕ → ℕ → ℕ → List ℕ
shifted mem r n = overwrite mem 0 (take n (drop r mem))

pub length-slice : (mem : List ℕ) (r n : ℕ) → r + n ≤ length mem → length (take n (drop r mem)) ≡ n
length-slice mem r n h = omega (arith, length-take n (drop r mem), length-drop r mem)

pub shift_down_lem :
    (mem : List ℕ) (r n : ℕ) (w : ℤ)
    → r + n ≤ length mem
    → shift_down (held mem (pos r) w) (pos n)
      ≡ some (
        pos n,
        record {
          block = some (shifted mem r n);
          total_size = length mem;
          read_pos = pos 0;
          write_pos = pos n;
        },
      )
unfolding shift_down
shift_down_lem mem r n w h =
    rw (load-eq-some mem r n h)
      (rw (store-eq-some mem 0 (take n (drop r mem)) (omega (arith, length-slice mem r n h))))

pub length-shifted :
    (mem : List ℕ) (r n : ℕ) → r + n ≤ length mem → length (shifted mem r n) ≡ length mem
length-shifted mem r n h =
    length-overwrite mem 0 (take n (drop r mem)) (omega (arith, length-slice mem r n h))

-- The start of the shifted block is what lay at `r`.
pub take-shifted :
    (mem : List ℕ) (r n : ℕ) → r + n ≤ length mem → take n (shifted mem r n) ≡ take n (drop r mem)
take-shifted mem r n h =
    take-append n (take n (drop r mem)) (drop (0 + length (take n (drop r mem))) mem)
    ∙ ground (
      arith,
      length-slice mem r n h,
      take_all n (take n (drop r mem)) (omega (arith, length-slice mem r n h)),
      append-nil (take n (drop r mem)),
    )

-- Where the write position can be once the data starts at index 0.
abbrev pub Packed : ℕ → ℤ → Type 0
Packed n (pos w) = w < n
Packed n (negsuc zero) = 0 < n
Packed n (negsuc (suc k)) = ⊥

-- What `move_data_to_header` leaves: the same bytes, from index 0 on.
abbrev pub Moved : List ℕ → ℤ → ℤ → Option (ℤ × SequentialBuffer) → Type 0
Moved mem r w out =
    (k : ℤ) × (mem' : List ℕ) × (w' : ℤ) × (out ≡ some (k, held mem' (pos 0) w'))
    × (length mem' ≡ length mem)
    × Packed (length mem) w'
    × (contents_of mem' (pos 0) w' ≡ contents_of mem r w)

shift_down-Moved :
    (mem : List ℕ) (r n : ℕ) (w : ℤ)
    → r + n ≤ length mem
    → 0 < r
    → n ≡ held_size (length mem) (pos r) w
    → Moved mem (pos r) w (shift_down (held mem (pos r) w) (pos n))
shift_down-Moved mem r n w h h0 e = (
  pos n,
  shifted mem r n,
  pos n,
  ground (arith, shift_down_lem mem r n w h, length-shifted mem r n h),
  length-shifted mem r n h,
  omega arith,
  ground (arith, take-shifted mem r n h),
)

at_start :
    (mem : List ℕ) (w : ℤ)
    → Positions (length mem) (pos 0) w
    → Moved mem (pos 0) w (
        some (
          pos 0,
          held mem (pos 0) (
              if leb_ℤ (pos (length mem)) (pos (held_size (length mem) (pos 0) w))
              then overflow_pos
              else w),
        ))
at_start mem (pos w) p = elim (Bool-cases (leb_ℤ (pos (length mem)) (pos (w - 0)))) [
  | inl e ↦ (pos 0, mem, overflow_pos, rw e, refl, omega arith, ground arith)
  | inr e ↦ (pos 0, mem, pos w, rw e, refl, ground arith, refl)
]
at_start mem (negsuc zero) p = elim (Bool-cases (leb_ℤ (pos (length mem)) (pos (length mem - 0)))) [
  | inl e ↦ (pos 0, mem, overflow_pos, rw e, refl, omega arith, ground arith)
  | inr e ↦ (pos 0, mem, overflow_pos, rw e, refl, omega arith, refl)
]
at_start mem (negsuc (suc k)) p = absurd p

-- `move_data_to_header` never faults on such a buffer, and keeps its bytes.
pub move_data_to_header-Moved :
    (mem : List ℕ) (r w : ℤ)
    → Positions (length mem) r w
    → Moved mem r w (move_data_to_header (held mem r w))
unfolding move_data_to_header
move_data_to_header-Moved mem (pos zero) w p = rw (data_size_lem mem (pos 0) w p) (at_start mem w p)
move_data_to_header-Moved mem (pos (suc r)) (pos w) p =
    rw (data_size_lem mem (pos (suc r)) (pos w) p, zero-==-suc r)
      (shift_down-Moved mem (suc r) (w - suc r) (pos w) (omega arith) (omega arith) refl)
move_data_to_header-Moved mem (pos (suc r)) (negsuc zero) p =
    rw (data_size_lem mem (pos (suc r)) (negsuc zero) p, zero-==-suc r)
      (shift_down-Moved mem (suc r) (length mem - suc r) (negsuc zero) (omega arith) (omega arith)
        refl)
move_data_to_header-Moved mem (pos (suc r)) (negsuc (suc k)) p = absurd p
move_data_to_header-Moved mem (negsuc zero) (negsuc zero) p =
    (pos 0, mem, pos 0, refl, refl, p, refl)
move_data_to_header-Moved mem (negsuc zero) (negsuc (suc k)) p = absurd p
move_data_to_header-Moved mem (negsuc zero) (pos w) p = absurd p
move_data_to_header-Moved mem (negsuc (suc k)) w p = absurd p

pub Packed-Positions : (n : ℕ) (w : ℤ) → Packed n w → Positions n (pos 0) w
Packed-Positions n (pos w) p = omega arith
Packed-Positions n (negsuc zero) p = p
Packed-Positions n (negsuc (suc k)) p = absurd p
