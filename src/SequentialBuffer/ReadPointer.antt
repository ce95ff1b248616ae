-- ===== src/SequentialBuffer/ReadPointer.antt =====
-- `get_read_pointer` and `move_read_pointer`, while the buffer is not full.
use cpp_assistant.Prelude.{
  ℕ, zero, suc, ◌+◌, ◌-◌, ◌≤◌, ◌<◌, ◌≡◌, refl, some, List, length, take, drop, ℤ, pos, negsuc,
  arith, leb_ℤ, min, sym, ap, ◌∙◌, subst, min_ℤ-pos, pos-+ℤ, Bool-cases, inl, inr, if◌then◌else◌,
  drop-take, drop-drop, drop_all, load, load-eq-some,
}
use cpp_assistant.SequentialBuffer.{
  SequentialBuffer, header_if, has_overflown_pointer, advance_read, move_read_pointer,
  get_read_pointer,
}
use cpp_assistant.SequentialBuffer.Layout.{
  held, Positions, held_size, contents_of, held_size_le, data_size_lem, length-contents_of, Holds,
}
use cpp_assistant.SequentialBuffer.Settling.{Settled, settles, settles-Roomy}

advance_read_eq :
    (mem : List ℕ) (a b off : ℕ)
    → a ≤ b
    → b < length mem
    → 0 < off
    → advance_read (held mem (pos a) (pos b)) (pos off) ≡ (
      pos (min off (b - a)),
      if leb_ℤ (pos b) (pos (a + off))
          then held mem (pos 0) (pos 0)
          else held mem (pos (a + off)) (pos b),
    )
unfolding advance_read
advance_read_eq mem a b off h hb h0 =
    rw
      (
        data_size_lem mem (pos a) (pos b) (omega arith),
        min_ℤ-pos off (b - a),
        pos-+ℤ a (min off (b - a)),
      )
      (ground arith)

-- What lies between the positions after `read_pos` went on by `off`.
advance_read-Holds :
    (mem : List ℕ) (a b off : ℕ)
    → a ≤ b
    → b < length mem
    → 0 < off
    → let q = contents_of mem (pos a) (pos b) in
      let (d, s) = advance_read (held mem (pos a) (pos b)) (pos off) in
      (d ≡ pos (min off (length q))) × Holds (length mem) (drop (min off (length q)) q) s
advance_read-Holds mem a b off h hb h0 =
    let e : length (contents_of mem (pos a) (pos b)) ≡ b - a =
      length-contents_of mem (pos a) (pos b) (omega arith) in
    rw (advance_read_eq mem a b off h hb h0, e)
      (
        refl,
        elim (Bool-cases (leb_ℤ (pos b) (pos (a + off)))) [
          | inl t ↦ rw t (
            mem,
            pos 0,
            pos 0,
            refl,
            refl,
            omega arith,
            sym (drop_all (min off (b - a)) (contents_of mem (pos a) (pos b)) (ground (arith, e))),
          )
          | inr f ↦ rw f (
            mem,
            pos (a + off),
            pos b,
            refl,
            refl,
            ground arith,
            drop-slice mem a b off (min off (b - a)) (ground arith),
          )
        ],
      )
  where
    drop-slice :
        (mem : List ℕ) (a b off n : ℕ)
        → n ≡ off
        → take (b - (a + off)) (drop (a + off) mem) ≡ drop n (take (b - a) (drop a mem))
    drop-slice mem a b off n en = rw en (
        ap (λ k. take k (drop (a + off) mem))
          (let e : b - (a + off) ≡ b - a - off = omega arith in e)
        ∙ ap (take (b - a - off)) (sym (drop-drop off a mem))
        ∙ sym (drop-take off (b - a) (drop a mem)))

move_read_pointer_eq :
    (mem : List ℕ) (r w : ℤ) (off : ℕ) (t : SequentialBuffer)
    → 0 < off
    → header_if (has_overflown_pointer (held mem r w)) (held mem r w) ≡ some t
    → move_read_pointer (held mem r w) (pos off) ≡ some (advance_read t (pos off))
unfolding move_read_pointer
move_read_pointer_eq mem r w off t h e = rw e (ground arith)

-- On a buffer that is not full, moving the read pointer by `off` drops the oldest bytes, as many as
-- are asked for and there are, returns their number and keeps the others.
pub move_read_pointer_dequeues :
    (size off : ℕ) (q : List ℕ) (s : SequentialBuffer)
    → Holds size q s
    → length q < size
    → 0 < off
    → let n = min off (length q) in
      (s' : SequentialBuffer) × (move_read_pointer s (pos off) ≡ some (pos n, s'))
      × Holds size (drop n q) s'
move_read_pointer_dequeues size off q s (mem, r, w, es, el, p, eq) lt h0 =
    let placed = subst (λ k. Positions k r w) (sym el) p in
    let (m, a, b, eo, em, hab, hb, ec) =
      settles-Roomy mem r w placed (omega (arith, ap length eq)) in
    let (d, hold) = advance_read-Holds m a b off hab (omega arith) h0 in
    let same : contents_of m (pos a) (pos b) ≡ q = ec ∙ eq in
    (
      (advance_read (held m (pos a) (pos b)) (pos off)).1,
      rw es (
          move_read_pointer_eq mem r w off _ h0 eo
          ∙ ap (λ (x : ℤ). some (x, (advance_read (held m (pos a) (pos b)) (pos off)).1))
              (d ∙ ap (λ l. pos (min off (length l))) same)),
      subst
          (λ k.
            Holds k (drop (min off (length q)) q)
              (advance_read (held m (pos a) (pos b)) (pos off)).1)
          (em ∙ el)
          (subst
            (λ l.
              Holds (length m) (drop (min off (length l)) l)
                (advance_read (held m (pos a) (pos b)) (pos off)).1)
            same hold),
    )

get_read_pointer_eq :
    (mem m : List ℕ) (r w w' : ℤ) (a : ℕ)
    → header_if (has_overflown_pointer (held mem r w)) (held mem r w) ≡ some (held m (pos a) w')
    → get_read_pointer (held mem r w) ≡ some (some (pos a), held m (pos a) w')
unfolding get_read_pointer
get_read_pointer_eq mem m r w w' a e = rw e

Settled-Positions : (n a : ℕ) (w : ℤ) → Settled n a w → Positions n (pos a) w
Settled-Positions n a (pos b) p = omega arith
Settled-Positions n a (negsuc zero) p = omega arith
Settled-Positions n a (negsuc (suc k)) p = absurd p

-- `get_read_pointer` gives the place of the block at which the bytes of the buffer lie, in their order,
-- and keeps them.
pub get_read_pointer_lem :
    (size : ℕ) (q : List ℕ) (s : SequentialBuffer)
    → Holds size q s
    → (a : ℕ) × (s' : SequentialBuffer) × (get_read_pointer s ≡ some (some (pos a), s'))
      × (load s'.block (pos a) (pos (length q)) ≡ some q)
      × Holds size q s'
get_read_pointer_lem size q s (mem, r, w, es, el, p, eq) =
    let placed = subst (λ k. Positions k r w) (sym el) p in
    let (m, a, w', eo, em, st, ec) = settles mem r w placed in
    let settled = subst (λ k. Settled k a w') (sym em) st in
    let within = Settled-Positions (length m) a w' settled in
    let size_of : held_size (length m) (pos a) w' ≡ length q =
      sym (length-contents_of m (pos a) w' within) ∙ ap length (ec ∙ eq) in
    (
      a,
      held m (pos a) w',
      rw es (get_read_pointer_eq mem m r w w' a eo),
      load-eq-some m a (length q) (omega (arith, held_size_le (length m) (pos a) w' within))
          ∙ ap some (ap (λ k. take k (drop a m)) (sym size_of) ∙ ec ∙ eq),
      (m, pos a, w', refl, em ∙ el, subst (λ k. Positions k (pos a) w') (em ∙ el) within, ec ∙ eq),
    )
