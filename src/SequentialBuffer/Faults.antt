-- ===== src/SequentialBuffer/Faults.antt =====
-- Where a buffer does not behave as the queue: a write position that has run off the end.
use cpp_assistant.Prelude.{
  ℕ, zero, suc, ◌-◌, ◌≤◌, ◌<◌, ◌≡◌, refl, Option, none, some, List, [], length, take, ℤ, pos,
  negsuc, ◌+ℤ◌, ◌-ℤ◌, arith, min, sym, ap, ◌∙◌, subst, load, store, Option-cases, inl, inr,
  min_ℤ-pos, take_all,
}
use cpp_assistant.SequentialBuffer.{
  SequentialBuffer, overflow_pos, header_if, has_overflown_pointer, write, write_some, put_in,
  advance_read, move_read_pointer, advance_write, move_write_pointer,
}
use cpp_assistant.SequentialBuffer.Layout.{
  held, Positions, held_size, contents_of, data_size_lem, full_lem, free_size_lem,
  length-contents_of, Holds,
}
use cpp_assistant.SequentialBuffer.Settling.{Settles, settles}

store_before : (block : Option (List ℕ)) (k : ℕ) (src : List ℕ) → store block (negsuc k) src ≡ none
unfolding store
store_before none k src = refl
store_before (some mem) k src = refl

put_in_faults :
    (mem : List ℕ) (r : ℤ) (n : ℕ) (src : List ℕ)
    → put_in (held mem r overflow_pos) (pos n) (some src) ≡ none
unfolding put_in
put_in_faults mem r n src = elim (Option-cases (load (some src) (pos 0) (pos n))) [
  | inl e ↦ rw e
  | inr (bytes, e) ↦ rw (e, store_before (some mem) 0 bytes)
]

write_some_faults :
    (mem : List ℕ) (r : ℤ) (n : ℕ) (src : List ℕ)
    → 0 < n
    → n ≤ length mem
    → write_some (held mem r overflow_pos) (pos n) (some src) ≡ none
unfolding write_some ◌+ℤ◌
write_some_faults mem r n src h hn = ground (arith, put_in_faults mem r n src)

write_faults :
    (mem : List ℕ) (r : ℤ) (len : ℕ) (src : List ℕ)
    → Positions (length mem) r overflow_pos
    → held_size (length mem) r overflow_pos < length mem
    → 0 < len
    → write (held mem r overflow_pos) (pos len) (some src) ≡ none
unfolding write
write_faults mem r len src p lt h =
    let free = length mem - held_size (length mem) r overflow_pos in
    ground (
      arith,
      full_lem mem r overflow_pos p,
      free_size_lem mem r overflow_pos p,
      min_ℤ-pos len free,
      write_some_faults mem r (min len free) src,
    )

-- While the write position is OVERFLOW_POS and the buffer is not full, every `write` of at least one
-- byte accesses memory before the block.
pub write_past_overflow_faults :
    (size len : ℕ) (q src : List ℕ) (s : SequentialBuffer)
    → Holds size q s
    → s.write_pos ≡ overflow_pos
    → length q < size
    → 0 < len
    → write s (pos len) (some src) ≡ none
write_past_overflow_faults size len q src s (mem, r, w, es, el, p, eq) over lt h =
    let ew : w ≡ overflow_pos = sym (ap (λ (t : SequentialBuffer). t.write_pos) es) ∙ over in
    let placed =
      subst (λ v. Positions (length mem) r v) ew (subst (λ k. Positions k r w) (sym el) p) in
    let same = subst (λ v. contents_of mem r v ≡ q) ew eq in
    rw (es, ew)
      (write_faults mem r len src placed
        (omega (arith, length-contents_of mem r overflow_pos placed, ap length same)) h)

-- A full buffer, after `if (has_overflown_pointer()) move_data_to_header();`.
abbrev Full : List ℕ → ℤ → ℤ → Option SequentialBuffer → Type 0
Full mem r w out =
    (m : List ℕ) × (out ≡ some (held m (pos 0) overflow_pos))
    × (length m ≡ length mem)
    × (0 < length m)
    × (m ≡ contents_of mem r w)

settles-Full :
    (mem : List ℕ) (r w : ℤ)
    → Positions (length mem) r w
    → length (contents_of mem r w) ≡ length mem
    → Full mem r w (header_if (has_overflown_pointer (held mem r w)) (held mem r w))
settles-Full mem r w p full = go (settles mem r w p)
  where
    go :
        Settles mem r w (header_if (has_overflown_pointer (held mem r w)) (held mem r w))
        → Full mem r w (header_if (has_overflown_pointer (held mem r w)) (held mem r w))
    go (m, a, pos b, eo, el, st, ec) =
        absurd (omega (arith, ap length ec, length-contents_of m (pos a) (pos b) (omega arith)))
    go (m, a, negsuc zero, eo, el, st, ec) = (
      m,
      eo ∙ ap (λ k. some (held m (pos k) overflow_pos)) st.0,
      el,
      omega arith,
      sym (take_all (length m - 0) m (omega arith))
          ∙ ap (λ k. contents_of m (pos k) overflow_pos) (sym st.0)
          ∙ ec,
    )
    go (m, a, negsuc (suc k), eo, el, st, ec) = absurd st

advance_read_full :
    (m : List ℕ) (off : ℕ)
    → 0 < length m
    → off ≤ length m
    → advance_read (held m (pos 0) overflow_pos) (pos off) ≡ (pos off, held m (pos 0) (pos 0))
unfolding advance_read ◌+ℤ◌
advance_read_full m off h hs =
    rw (data_size_lem m (pos 0) overflow_pos h) (ground (arith, min_ℤ-pos off (length m - 0)))

advance_write_full :
    (m : List ℕ) (off : ℕ)
    → off < length m
    → advance_write (held m (pos 0) overflow_pos) (pos (suc off))
      ≡ (pos (suc off), held m (pos 0) (pos off))
unfolding advance_write ◌+ℤ◌ ◌-ℤ◌
advance_write_full m off h = ground (arith)

-- On a full buffer `move_read_pointer` by less than all the data says that it moved so far, and loses
-- all the bytes: the buffer is empty after it.
pub move_read_pointer_of_full_loses_all :
    (size off : ℕ) (q : List ℕ) (s : SequentialBuffer)
    → Holds size q s
    → length q ≡ size
    → 0 < off
    → off < size
    → (s' : SequentialBuffer) × (move_read_pointer s (pos off) ≡ some (pos off, s'))
      × Holds size [] s'
unfolding move_read_pointer
move_read_pointer_of_full_loses_all size off q s (mem, r, w, es, el, p, eq) full h0 hs =
    let placed = subst (λ k. Positions k r w) (sym el) p in
    let (m, eo, em, pm, ec) = settles-Full mem r w placed (ap length eq ∙ full ∙ sym el) in
    (
      held m (pos 0) (pos 0),
      rw (es, eo, advance_read_full m off pm (omega arith)) (ground arith),
      (m, pos 0, pos 0, refl, em ∙ el, omega arith, refl),
    )

-- On a full buffer `move_write_pointer` by `off + 1` says that it moved so far, though there is no
-- room, and leaves the first `off` bytes of the data only.
pub move_write_pointer_of_full_truncates :
    (size off : ℕ) (q : List ℕ) (s : SequentialBuffer)
    → Holds size q s
    → length q ≡ size
    → off < size
    → (s' : SequentialBuffer) × (move_write_pointer s (pos (suc off)) ≡ some (pos (suc off), s'))
      × Holds size (take off q) s'
unfolding move_write_pointer
move_write_pointer_of_full_truncates size off q s (mem, r, w, es, el, p, eq) full hs =
    let placed = subst (λ k. Positions k r w) (sym el) p in
    let (m, eo, em, pm, ec) = settles-Full mem r w placed (ap length eq ∙ full ∙ sym el) in
    (
      held m (pos 0) (pos off),
      rw (es, eo, advance_write_full m off (omega arith)) (ground arith),
      (
        m,
        pos 0,
        pos off,
        refl,
        em ∙ el,
        omega arith,
        ap (λ k. take k m) (let z : off - 0 ≡ off = omega arith in z) ∙ ap (take off) (ec ∙ eq),
      ),
    )
