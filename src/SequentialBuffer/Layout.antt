-- ===== src/SequentialBuffer/Layout.antt =====
-- The states that a buffer with a block can be in, and the bytes that it holds in each.
use cpp_assistant.Prelude.{
  ℕ, zero, suc, ◌+◌, ◌-◌, ◌≤◌, ◌<◌, ◌≡◌, refl, some, List, length, take, drop, ℤ, pos, negsuc,
  pos_part, ◌-ℤ◌, arith, length-take, length-drop, leb, subst, sym, ap, ◌∙◌,
}
use cpp_assistant.SequentialBuffer.{SequentialBuffer, data_size, free_size, empty, full}

-- A buffer over the block `mem`.
abbrev pub held : List ℕ → ℤ → ℤ → SequentialBuffer
held mem r w = record { block = some mem; total_size = length mem; read_pos = r; write_pos = w }

-- The positions that occur over a block of `n` bytes: both are indices, or the write position has
-- run off the end, or both have.
abbrev pub Positions : ℕ → ℤ → ℤ → Type 0
Positions n (pos r) (pos w) = (r ≤ w) × (w ≤ n) × (r < n)
Positions n (pos r) (negsuc zero) = r < n
Positions n (pos r) (negsuc (suc k)) = ⊥
Positions n (negsuc zero) (negsuc zero) = 0 < n
Positions n (negsuc zero) (negsuc (suc k)) = ⊥
Positions n (negsuc zero) (pos w) = ⊥
Positions n (negsuc (suc k)) w = ⊥

-- How many bytes lie between the positions, and from where.
abbrev pub held_size : ℕ → ℤ → ℤ → ℕ
held_size n (pos r) (pos w) = w - r
held_size n (pos r) (negsuc k) = n - r
held_size n (negsuc j) w = 0

abbrev pub contents_of : List ℕ → ℤ → ℤ → List ℕ
contents_of mem r w = take (held_size (length mem) r w) (drop (pos_part r) mem)

pub data_size_lem :
    (mem : List ℕ) (r w : ℤ)
    → Positions (length mem) r w
    → data_size (held mem r w) ≡ pos (held_size (length mem) r w)
unfolding data_size ◌-ℤ◌
data_size_lem mem (pos r) (pos w) p = ground arith
data_size_lem mem (pos r) (negsuc zero) p = ground arith
data_size_lem mem (pos r) (negsuc (suc k)) p = absurd p
data_size_lem mem (negsuc zero) (negsuc zero) p = refl
data_size_lem mem (negsuc zero) (negsuc (suc k)) p = absurd p
data_size_lem mem (negsuc zero) (pos w) p = absurd p
data_size_lem mem (negsuc (suc k)) w p = absurd p

pub held_size_le : (n : ℕ) (r w : ℤ) → Positions n r w → pos_part r + held_size n r w ≤ n
held_size_le n (pos r) (pos w) p = omega arith
held_size_le n (pos r) (negsuc zero) p = omega arith
held_size_le n (pos r) (negsuc (suc k)) p = absurd p
held_size_le n (negsuc zero) (negsuc zero) p = omega arith
held_size_le n (negsuc zero) (negsuc (suc k)) p = absurd p
held_size_le n (negsuc zero) (pos w) p = absurd p
held_size_le n (negsuc (suc k)) w p = absurd p

pub length-contents_of :
    (mem : List ℕ) (r w : ℤ)
    → Positions (length mem) r w
    → length (contents_of mem r w) ≡ held_size (length mem) r w
length-contents_of mem r w p = omega (
  arith,
  length-take (held_size (length mem) r w) (drop (pos_part r) mem),
  length-drop (pos_part r) mem,
  held_size_le (length mem) r w p,
)

pub free_size_lem :
    (mem : List ℕ) (r w : ℤ)
    → Positions (length mem) r w
    → free_size (held mem r w) ≡ pos (length mem - held_size (length mem) r w)
unfolding free_size ◌-ℤ◌
free_size_lem mem r w p =
    rw (data_size_lem mem r w p) (ground (arith, held_size_le (length mem) r w p))

pub empty_lem :
    (mem : List ℕ) (r w : ℤ)
    → Positions (length mem) r w
    → empty (held mem r w) ≡ leb (held_size (length mem) r w) 0
unfolding empty
empty_lem mem r w p = rw (data_size_lem mem r w p) (ground arith)

pub full_lem :
    (mem : List ℕ) (r w : ℤ)
    → Positions (length mem) r w
    → full (held mem r w) ≡ leb (length mem) (held_size (length mem) r w)
unfolding full
full_lem mem r w p = rw (data_size_lem mem r w p) (ground arith)

-- A buffer with room for `cap` bytes that holds the queue `q`.
abbrev pub Holds : ℕ → List ℕ → SequentialBuffer → Type 0
Holds cap q s =
    (mem : List ℕ) × (r : ℤ) × (w : ℤ) × (s ≡ held mem r w)
    × (length mem ≡ cap)
    × Positions cap r w
    × (contents_of mem r w ≡ q)

pub not-Positions : (n : ℕ) (r : ℤ) (k : ℕ) → Positions n r (negsuc (suc k)) → ⊥
not-Positions n (pos r) k p = p
not-Positions n (negsuc zero) k p = p
not-Positions n (negsuc (suc j)) k p = p

pub data_size-Holds :
    (size : ℕ) (q : List ℕ) (s : SequentialBuffer) → Holds size q s → data_size s ≡ pos (length q)
data_size-Holds size q s (mem, r, w, es, el, p, eq) =
    let p' : Positions (length mem) r w = subst (λ k. Positions k r w) (sym el) p in
    rw es (
      data_size_lem mem r w p'
      ∙ ap pos (sym (length-contents_of mem r w p'))
      ∙ ap (λ l. pos (length l)) eq)
