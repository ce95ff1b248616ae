-- ===== src/SequentialBuffer/WritePointer.antt =====
-- `get_write_pointer` and `move_write_pointer`, while the buffer is not full.
use cpp_assistant.Prelude.{
  ℕ, ◌+◌, ◌-◌, ◌≤◌, ◌<◌, ◌≡◌, refl, Option, some, List, ◌++◌, length, ℤ, pos, ◌-ℤ◌, arith, leb_ℤ,
  sym, ap, ◌∙◌, subst, min_ℤ-pos, pos-+ℤ, if◌then◌else◌, store, overwrite, store-eq-some,
}
use cpp_assistant.SequentialBuffer.{
  SequentialBuffer, overflow_pos, header_if, has_overflown_pointer, advance_write,
  move_write_pointer, get_write_pointer,
}
use cpp_assistant.SequentialBuffer.Layout.{held, Positions, contents_of, Holds}
use cpp_assistant.SequentialBuffer.Appending.{next_pos, overwritten}
use cpp_assistant.SequentialBuffer.Settling.{settles-Roomy}

advance_write_eq :
    (mem : List ℕ) (r : ℤ) (b n : ℕ)
    → b < length mem
    → b + n ≤ length mem
    → advance_write (held mem r (pos b)) (pos n) ≡ (
      pos n,
      held mem r (if leb_ℤ (pos (length mem)) (pos (b + n)) then overflow_pos else pos (b + n)),
    )
unfolding advance_write ◌-ℤ◌
advance_write_eq mem r b n h hn = ground (arith, min_ℤ-pos n (length mem - b), pos-+ℤ b n)

get_write_pointer_eq :
    (mem m : List ℕ) (r w : ℤ) (a b : ℕ)
    → header_if (has_overflown_pointer (held mem r w)) (held mem r w)
      ≡ some (held m (pos a) (pos b))
    → get_write_pointer (held mem r w) ≡ some (some (pos b), held m (pos a) (pos b))
unfolding get_write_pointer
get_write_pointer_eq mem m r w a b e = rw e

pub same_pointer :
    (b b' : ℕ) (s t : SequentialBuffer)
    → ◌≡◌ {A = Option (Option ℤ × SequentialBuffer)}
        (some (some (pos b), s))
        (some (some (pos b'), t))
    → (b ≡ b') × (s ≡ t)
same_pointer b b' s t e = ground arith

-- `get_write_pointer` gives an index of the block, behind the bytes held, and keeps these.
pub get_write_pointer-Roomy :
    (size : ℕ) (q : List ℕ) (s : SequentialBuffer)
    → Holds size q s
    → length q < size
    → (m : List ℕ) × (a : ℕ) × (b : ℕ) × (get_write_pointer s
        ≡ some (some (pos b), held m (pos a) (pos b)))
      × (length m ≡ size)
      × (a ≤ b)
      × (b < size)
      × (contents_of m (pos a) (pos b) ≡ q)
get_write_pointer-Roomy size q s (mem, r, w, es, el, p, eq) lt =
    let placed = subst (λ k. Positions k r w) (sym el) p in
    let (m, a, b, eo, em, hab, hb, ec) =
      settles-Roomy mem r w placed (omega (arith, ap length eq)) in
    (m, a, b, rw es (get_write_pointer_eq mem m r w a b eo), em ∙ el, hab, omega arith, ec ∙ eq)

move_write_pointer_eq :
    (mem : List ℕ) (a b n : ℕ)
    → a ≤ b
    → b < length mem
    → 0 < n
    → b + n ≤ length mem
    → move_write_pointer (held mem (pos a) (pos b)) (pos n)
      ≡ some (pos n, held mem (pos a) (next_pos (length mem) (b + n)))
unfolding move_write_pointer has_overflown_pointer
move_write_pointer_eq mem a b n h hb h0 hn = ground (arith, advance_write_eq mem (pos a) b n hb hn)

-- The size of the object is that of its block.
move_write_pointer_sized :
    (m m' : List ℕ) (a b n size : ℕ)
    → length m' ≡ length m
    → length m ≡ size
    → move_write_pointer (held m' (pos a) (pos b)) (pos n)
      ≡ some (pos n, held m' (pos a) (next_pos (length m') (b + n)))
    → move_write_pointer (record (held m (pos a) (pos b)) { block = some m' }) (pos n)
      ≡ some (pos n, held m' (pos a) (next_pos size (b + n)))
move_write_pointer_sized m m' a b n size el em h = ground arith

-- A client that copies bytes to the write pointer of a buffer that is not full, at most up to the end
-- of the block, and then moves the write pointer by their number, appends these bytes.
pub direct_write_enqueues :
    (size b : ℕ) (q bytes : List ℕ) (s s1 : SequentialBuffer)
    → Holds size q s
    → length q < size
    → get_write_pointer s ≡ some (some (pos b), s1)
    → 0 < length bytes
    → b + length bytes ≤ size
    → (block : List ℕ) × (s2 : SequentialBuffer) × (store s1.block (pos b) bytes ≡ some block)
      × (move_write_pointer (record s1 { block = some block }) (pos (length bytes))
          ≡ some (pos (length bytes), s2))
      × Holds size (q ++ bytes) s2
direct_write_enqueues size b q bytes s s1 h lt got h0 room =
    let (m, a, b', eo, em, hab, hb, ec) = get_write_pointer-Roomy size q s h lt in
    let (eb, e1) = same_pointer b b' s1 (held m (pos a) (pos b')) (sym got ∙ eo) in
    let (el, p', ew) = overwritten m a b bytes (omega arith) (omega arith) in
    let same : next_pos (length m) (b + length bytes) ≡ next_pos size (b + length bytes) =
      ap (λ k. next_pos k (b + length bytes)) em in
    (
      overwrite m b bytes,
      held (overwrite m b bytes) (pos a) (next_pos size (b + length bytes)),
      rw e1 (store-eq-some m b bytes (omega arith)),
      rw (e1, ← eb)
          (move_write_pointer_sized m (overwrite m b bytes) a b (length bytes) size el em (
            move_write_pointer_eq (overwrite m b bytes) a b (length bytes) (omega arith)
              (omega arith) h0 (omega arith))),
      (
        overwrite m b bytes,
        pos a,
        next_pos size (b + length bytes),
        refl,
        el ∙ em,
        subst (λ k. Positions k (pos a) (next_pos k (b + length bytes))) em p',
        rw (← same) ew ∙ ap (λ l. l ++ bytes) (ap (λ k. contents_of m (pos a) (pos k)) eb ∙ ec),
      ),
    )
