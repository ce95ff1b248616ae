-- ===== src/SequentialBuffer/Reading.antt =====
-- `read`: which bytes leave the buffer.
use cpp_assistant.Prelude.{
  ℕ, zero, suc, ◌+◌, ◌-◌, ◌≤◌, ◌<◌, ◌≡◌, refl, Option, some, List, [], length, take, drop, ℤ, pos,
  negsuc, ◌+ℤ◌, arith, true, load-eq-some, leb_ℤ, min, sym, ap, ◌∙◌, min_ℤ-pos, pos-+ℤ, dec_lt,
  subst, take-take, drop_all, drop-drop, drop-take, Bool-cases, inl, inr, length-take, ◌>>=◌,
}
use cpp_assistant.SequentialBuffer.{
  SequentialBuffer, overflow_pos, take_out, read, read_some, header_if,
}
use cpp_assistant.SequentialBuffer.Queue.{dequeue}
use cpp_assistant.SequentialBuffer.Layout.{
  held, Positions, held_size, contents_of, held_size_le, data_size_lem, empty_lem,
  length-contents_of, Holds,
}
use cpp_assistant.SequentialBuffer.Moving.{Packed, move_data_to_header-Moved, Packed-Positions}

-- What a read of `n` bytes gives and leaves.
abbrev pub Takes : List ℕ → ℤ → ℤ → ℕ → Option (ℤ × List ℕ × SequentialBuffer) → Type 0
Takes mem r w n out =
    (mem' : List ℕ) × (r' : ℤ) × (w' : ℤ) × (out
      ≡ some (pos n, take n (contents_of mem r w), held mem' r' w'))
    × (length mem' ≡ length mem)
    × Positions (length mem) r' w'
    × (contents_of mem' r' w' ≡ drop n (contents_of mem r w))

take-take-drop :
    (a n h : ℕ) (mem : List ℕ) → n ≤ h → take n (drop a mem) ≡ take n (take h (drop a mem))
take-take-drop a n h mem p = sym (take-take n h (drop a mem) p)

drop-contents :
    (a n h : ℕ) (mem : List ℕ) → take (h - n) (drop (a + n) mem) ≡ drop n (take h (drop a mem))
drop-contents a n h mem = sym (drop-take n h (drop a mem) ∙ ap (take (h - n)) (drop-drop n a mem))

take_out_inside :
    (mem : List ℕ) (a n : ℕ) (w : ℤ)
    → Positions (length mem) (pos a) w
    → n ≤ held_size (length mem) (pos a) w
    → a + n < length mem
    → Takes mem (pos a) w n (take_out (held mem (pos a) w) (pos n))
unfolding take_out ◌+ℤ◌
take_out_inside mem a n (pos b) p h lt = rw (load-eq-some mem a n (omega arith)) (
  mem,
  pos (a + n),
  pos b,
  ground (arith, take-take-drop a n (b - a) mem h),
  refl,
  omega arith,
  ground (arith, drop-contents a n (b - a) mem),
)
take_out_inside mem a n (negsuc zero) p h lt = rw (load-eq-some mem a n (omega arith)) (
  mem,
  pos (a + n),
  overflow_pos,
  ground (arith, take-take-drop a n (length mem - a) mem h),
  refl,
  omega arith,
  ground (arith, drop-contents a n (length mem - a) mem),
)
take_out_inside mem a n (negsuc (suc k)) p h lt = absurd p

take_out_last :
    (mem : List ℕ) (n : ℕ)
    → 0 < length mem
    → n ≡ length mem
    → Takes mem (pos 0) overflow_pos n (take_out (held mem (pos 0) overflow_pos) (pos n))
unfolding take_out ◌+ℤ◌
take_out_last mem n p e = rw (load-eq-some mem 0 n (omega arith)) (
  mem,
  overflow_pos,
  overflow_pos,
  ground (arith, take-take-drop 0 n (length mem - 0) mem (omega arith)),
  refl,
  p,
  sym (drop_all n (take (length mem - 0) mem) (omega (arith, length-take (length mem - 0) mem))),
)

-- What matters of the state before a read is the size of the block and the bytes held.
Takes-of-eq :
    (m mem : List ℕ) (a b r w : ℤ) (n : ℕ) (out : Option (ℤ × List ℕ × SequentialBuffer))
    → length m ≡ length mem
    → contents_of m a b ≡ contents_of mem r w
    → Takes m a b n out
    → Takes mem r w n out
Takes-of-eq m mem a b r w n out el ec (m', a', b', eo, el', p, eb) =
    (m', a', b', rw (← ec) eo, el' ∙ el, subst (λ k. Positions k a' b') el p, rw (← ec) eb)

read-Packed :
    (m : List ℕ) (w : ℤ) (n : ℕ)
    → Packed (length m) w
    → 0 < n
    → n ≡ held_size (length m) (pos 0) w
    → Takes m (pos 0) w n (take_out (held m (pos 0) w) (pos n))
read-Packed m (pos b) n q h e =
    take_out_inside m 0 n (pos b) (omega arith) (omega arith) (omega arith)
read-Packed m (negsuc zero) n q h e = take_out_last m n q (omega arith)
read-Packed m (negsuc (suc k)) n q h e = absurd q

-- The bytes reach the end of the block: `read` moves them to its start first.
read_to_end :
    (mem : List ℕ) (r w : ℤ) (n : ℕ)
    → Positions (length mem) r w
    → 0 < n
    → n ≡ held_size (length mem) r w
    → Takes mem r w n (header_if true (held mem r w) >>= λ s. take_out s (pos n))
read_to_end mem r w n p h e =
    let (k, m, v, eo, el, packed, ec) = move_data_to_header-Moved mem r w p in
    let packed' = subst (λ j. Packed j v) (sym el) packed in
    rw eo (
      Takes-of-eq m mem (pos 0) v r w n _ el ec (
        read-Packed m v n packed' h (
          omega (
            arith,
            ap length ec,
            length-contents_of mem r w p,
            length-contents_of m (pos 0) v (Packed-Positions (length m) v packed'),
          ))))

to_end :
    (mem : List ℕ) (a : ℕ) (w : ℤ) (n : ℕ)
    → Positions (length mem) (pos a) w
    → n ≤ held_size (length mem) (pos a) w
    → length mem ≤ a + n
    → n ≡ held_size (length mem) (pos a) w
to_end mem a w n p le h = omega (arith, held_size_le (length mem) (pos a) w p)

read_some-Takes :
    (mem : List ℕ) (r w : ℤ) (n : ℕ)
    → Positions (length mem) r w
    → 0 < n
    → n ≤ held_size (length mem) r w
    → Takes mem r w n (read_some (held mem r w) (pos n))
unfolding read_some
read_some-Takes mem (pos a) w n p h le =
    rw (pos-+ℤ a n) (elim (Bool-cases (leb_ℤ (pos (length mem)) (pos (a + n)))) [
      | inl e ↦ rw e (read_to_end mem (pos a) w n p h (to_end mem a w n p le (ground arith)))
      | inr e ↦ rw e (take_out_inside mem a n w p le (ground arith))
    ])
read_some-Takes mem (negsuc j) w n p h le = absurd (omega arith)

read-eq-read_some :
    (mem : List ℕ) (r w : ℤ) (len : ℕ)
    → Positions (length mem) r w
    → let h = held_size (length mem) r w in
      0 < min len h
      → read (held mem r w) (pos len) true ≡ read_some (held mem r w) (pos (min len h))
unfolding read
read-eq-read_some mem r w len p lt = ground (
  arith,
  empty_lem mem r w p,
  data_size_lem mem r w p,
  min_ℤ-pos len (held_size (length mem) r w),
)

read-eq-zero :
    (mem : List ℕ) (r w : ℤ) (len : ℕ)
    → Positions (length mem) r w
    → min len (held_size (length mem) r w) ≡ 0
    → read (held mem r w) (pos len) true ≡ some (pos 0, [], held mem r w)
unfolding read
read-eq-zero mem r w len p e = ground (arith, empty_lem mem r w p)

-- `read` of `len` bytes into some destination.
read-Takes :
    (mem : List ℕ) (r w : ℤ) (len : ℕ)
    → Positions (length mem) r w
    → Takes mem r w (min len (held_size (length mem) r w)) (read (held mem r w) (pos len) true)
read-Takes mem r w len p =
    let n = min len (held_size (length mem) r w) in
    elim (dec_lt 0 n) [
      | yes h ↦ rw (read-eq-read_some mem r w len p h) (read_some-Takes mem r w n p h (omega arith))
      | no h ↦
          let e : n ≡ 0 = omega arith in
          rw (read-eq-zero mem r w len p e, e) (mem, r, w, refl, refl, p, refl)
    ]

-- A buffer that holds `q` gives its oldest bytes, as many as are asked for and there are, in their
-- order. It holds the others after that, and no access is out of the block.
pub read_dequeues :
    (size len : ℕ) (q : List ℕ) (s : SequentialBuffer)
    → Holds size q s
    → let n = min len (length q) in
      (s' : SequentialBuffer) × (read s (pos len) true ≡ some (pos n, (dequeue q n).0, s'))
      × Holds size (dequeue q n).1 s'
read_dequeues size len q s (mem, r, w, es, el, p, eq) =
    let placed = subst (λ k. Positions k r w) (sym el) p in
    let (mem', r', w', eo, el', p', eb) = read-Takes mem r w len placed in
    let n : held_size (length mem) r w ≡ length q =
      sym (length-contents_of mem r w placed) ∙ ap length eq in
    (
      held mem' r' w',
      rw (es, ← n, ← eq) eo,
      (mem', r', w', refl, el' ∙ el, subst (λ k. Positions k r' w') el p', rw (← n, ← eq) eb),
    )
