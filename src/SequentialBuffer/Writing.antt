-- ===== src/SequentialBuffer/Writing.antt =====
-- `write`: which bytes join the buffer, while its write position is an index.
use cpp_assistant.Prelude.{
  ℕ, zero, suc, ◌+◌, ◌-◌, ◌≤◌, ◌<◌, ◌≡◌, refl, Option, some, List, ◌++◌, length, take, ℤ, pos,
  negsuc, arith, true, false, load-eq-some, store-eq-some, leb_ℤ, min, sym, ap, ◌∙◌, subst,
  min_ℤ-pos, pos-+ℤ, dec_lt, take-take-min, overwrite, length-overwrite, Bool-cases, inl, inr,
  length-take, append-nil, ◌>>=◌,
}
use cpp_assistant.SequentialBuffer.{
  SequentialBuffer, put_in, write, write_some, header_if, is_overflow,
}
use cpp_assistant.SequentialBuffer.Appending.{next_pos, overwritten}
use cpp_assistant.SequentialBuffer.Queue.{enqueue}
use cpp_assistant.SequentialBuffer.Layout.{
  held, Positions, held_size, contents_of, full_lem, free_size_lem, length-contents_of, Holds,
  not-Positions,
}
use cpp_assistant.SequentialBuffer.Moving.{Packed, move_data_to_header-Moved, Packed-Positions}

-- What a write of the first `n` bytes of `src` leaves.
abbrev pub Puts : List ℕ → ℤ → ℤ → ℕ → List ℕ → Option (ℤ × SequentialBuffer) → Type 0
Puts mem r w n src out =
    (mem' : List ℕ) × (r' : ℤ) × (w' : ℤ) × (out ≡ some (pos n, held mem' r' w'))
    × (length mem' ≡ length mem)
    × Positions (length mem) r' w'
    × (contents_of mem' r' w' ≡ contents_of mem r w ++ take n src)

put_in_eq :
    (mem : List ℕ) (r : ℤ) (b n : ℕ) (src : List ℕ)
    → n ≤ length src
    → b + n ≤ length mem
    → put_in (held mem r (pos b)) (pos n) (some src)
      ≡ some (pos n, held (overwrite mem b (take n src)) r (next_pos (length mem) (b + n)))
unfolding put_in
put_in_eq mem r b n src hs hb =
    let e : length (take n src) ≡ n = omega (arith, length-take n src) in
    rw
      (
        load-eq-some src 0 n (omega arith),
        store-eq-some mem b (take n src) (omega arith),
        pos-+ℤ b n,
      )
      (ground (arith, length-overwrite mem b (take n src) (omega arith)))

put_in-Puts :
    (mem : List ℕ) (a b n : ℕ) (src : List ℕ)
    → Positions (length mem) (pos a) (pos b)
    → n ≤ length src
    → b + n ≤ length mem
    → Puts mem (pos a) (pos b) n src (put_in (held mem (pos a) (pos b)) (pos n) (some src))
put_in-Puts mem a b n src p hs hb =
    let e : length (take n src) ≡ n = omega (arith, length-take n src) in
    let (el, p', ec) = overwritten mem a b (take n src) p (omega arith) in
    let at : next_pos (length mem) (b + length (take n src)) ≡ next_pos (length mem) (b + n) =
      rw e in
    rw (put_in_eq mem (pos a) b n src hs hb) (
      overwrite mem b (take n src),
      pos a,
      next_pos (length mem) (b + n),
      refl,
      el,
      rw (← at) p',
      rw (← at) ec,
    )

Puts-of-eq :
    (m mem : List ℕ) (a b r w : ℤ) (n : ℕ) (src : List ℕ) (out : Option (ℤ × SequentialBuffer))
    → length m ≡ length mem
    → contents_of m a b ≡ contents_of mem r w
    → Puts m a b n src out
    → Puts mem r w n src out
Puts-of-eq m mem a b r w n src out el ec (m', a', b', eo, el', p, eb) =
    (m', a', b', eo, el' ∙ el, subst (λ k. Positions k a' b') el p, rw (← ec) eb)

put_in-Packed :
    (m : List ℕ) (v : ℤ) (n : ℕ) (src : List ℕ)
    → Packed (length m) v
    → n ≤ length src
    → 0 < n
    → held_size (length m) (pos 0) v + n ≤ length m
    → Puts m (pos 0) v n src (put_in (held m (pos 0) v) (pos n) (some src))
put_in-Packed m (pos b) n src q hs h0 h = put_in-Puts m 0 b n src (omega arith) hs (omega arith)
put_in-Packed m (negsuc zero) n src q hs h0 h = absurd (omega arith)
put_in-Packed m (negsuc (suc k)) n src q hs h0 h = absurd q

-- The free bytes at the end of the block do not suffice: `write` moves the data first.
write_moved :
    (mem : List ℕ) (r w : ℤ) (n : ℕ) (src : List ℕ)
    → Positions (length mem) r w
    → n ≤ length src
    → 0 < n
    → held_size (length mem) r w + n ≤ length mem
    → Puts mem r w n src (header_if true (held mem r w) >>= λ s. put_in s (pos n) (some src))
write_moved mem r w n src p hs h0 h =
    let (k, m, v, eo, el, packed, ec) = move_data_to_header-Moved mem r w p in
    let packed' = subst (λ j. Packed j v) (sym el) packed in
    rw eo (
      Puts-of-eq m mem (pos 0) v r w n src _ el ec (
        put_in-Packed m v n src packed' hs h0 (
          omega (
            arith,
            ap length ec,
            length-contents_of mem r w p,
            length-contents_of m (pos 0) v (Packed-Positions (length m) v packed'),
          ))))

write_some-Puts :
    (mem : List ℕ) (r : ℤ) (b n : ℕ) (src : List ℕ)
    → Positions (length mem) r (pos b)
    → n ≤ length src
    → 0 < n
    → held_size (length mem) r (pos b) + n ≤ length mem
    → Puts mem r (pos b) n src (write_some (held mem r (pos b)) (pos n) (some src))
unfolding write_some
write_some-Puts mem (pos a) b n src p hs h0 h =
    rw (pos-+ℤ b n) (elim (Bool-cases (leb_ℤ (pos (length mem)) (pos (b + n)))) [
      | inl e ↦ rw e (write_moved mem (pos a) (pos b) n src p hs h0 h)
      | inr e ↦ rw e (put_in-Puts mem a b n src p hs (ground arith))
    ])
write_some-Puts mem (negsuc zero) b n src p hs h0 h = absurd p
write_some-Puts mem (negsuc (suc k)) b n src p hs h0 h = absurd p

write-eq-write_some :
    (mem : List ℕ) (r w : ℤ) (len : ℕ) (src : List ℕ)
    → Positions (length mem) r w
    → let n = min len (length mem - held_size (length mem) r w) in
      0 < n
      → write (held mem r w) (pos len) (some src) ≡ write_some (held mem r w) (pos n) (some src)
unfolding write
write-eq-write_some mem r w len src p lt = ground (
  arith,
  full_lem mem r w p,
  free_size_lem mem r w p,
  min_ℤ-pos len (length mem - held_size (length mem) r w),
)

pub write-eq-zero :
    (mem : List ℕ) (r w : ℤ) (len : ℕ) (src : List ℕ)
    → Positions (length mem) r w
    → min len (length mem - held_size (length mem) r w) ≡ 0
    → write (held mem r w) (pos len) (some src) ≡ some (pos 0, held mem r w)
unfolding write
write-eq-zero mem r w len src p e = ground (arith, full_lem mem r w p)

write-Puts :
    (mem : List ℕ) (r : ℤ) (b len : ℕ) (src : List ℕ)
    → Positions (length mem) r (pos b)
    → len ≤ length src
    → Puts mem r
        (pos b)
        (min len (length mem - held_size (length mem) r (pos b)))
        src
        (write (held mem r (pos b)) (pos len) (some src))
write-Puts mem r b len src p hs =
    let n = min len (length mem - held_size (length mem) r (pos b)) in
    elim (dec_lt 0 n) [
      | yes h ↦
          rw (write-eq-write_some mem r (pos b) len src p h)
            (write_some-Puts mem r b n src p (omega arith) h (omega arith))
      | no h ↦
          let e : n ≡ 0 = omega arith in
          rw (write-eq-zero mem r (pos b) len src p e, e)
            (mem, r, pos b, refl, refl, p, sym (append-nil (contents_of mem r (pos b))))
    ]

-- A write to a buffer that holds `q`, while its write position is an index, appends as many bytes of
-- the source as there is room for. It returns their number, and no access is out of the block.
pub write_enqueues :
    (size len : ℕ) (q src : List ℕ) (s : SequentialBuffer)
    → Holds size q s
    → is_overflow s.write_pos ≡ false
    → len ≤ length src
    → (s' : SequentialBuffer) × (write s (pos len) (some src)
        ≡ some (pos (min len (size - length q)), s'))
      × Holds size (enqueue size q (take len src)) s'
write_enqueues size len q src s (mem, r, pos b, es, el, p, eq) free hs =
    let placed = subst (λ k. Positions k r (pos b)) (sym el) p in
    let (mem', r', w', eo, el', p', eb) = write-Puts mem r b len src placed hs in
    let n : length mem - held_size (length mem) r (pos b) ≡ size - length q =
      omega (arith, length-contents_of mem r (pos b) placed, ap length eq) in
    (
      held mem' r' w',
      rw (es, ← n) eo,
      (
        mem',
        r',
        w',
        refl,
        el' ∙ el,
        subst (λ k. Positions k r' w') el p',
        rw (take-take-min (size - length q) len src, ← n, ← eq) eb,
      ),
    )
write_enqueues size len q src s (mem, r, negsuc zero, es, el, p, eq) free hs =
    let f = subst (λ t. is_overflow t.write_pos ≡ false) es free in cc f
write_enqueues size len q src s (mem, r, negsuc (suc k), es, el, p, eq) free hs =
    absurd (not-Positions size r k p)
