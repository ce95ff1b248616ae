-- ===== src/SequentialBuffer/Copying.antt =====
-- `copy_from`: a buffer becomes a copy of another one.
use cpp_assistant.Prelude.{
  ℕ, ◌+◌, ◌-◌, ◌≤◌, ◌≡◌, ◌≢◌, refl, Option, some, List, ◌++◌, length, take, drop, ℤ, pos, arith,
  true, ltb_ℤ, sym, ap, ◌∙◌, subst, Bool-cases, inl, inr, overwrite, load-eq-some, store-eq-some,
  pos_part, length-overwrite, slice-overwrite, ◌⊎◌,
}
use cpp_assistant.ReturnCode.{ca_ret_ok}
use cpp_assistant.SequentialBuffer.{SequentialBuffer, init, min_buf_size}
use cpp_assistant.SequentialBuffer.Storage.{at_least_min, innerly_create, copy_data, copy_from}
use cpp_assistant.SequentialBuffer.Layout.{
  held, Positions, held_size, contents_of, data_size_lem, held_size_le, Holds,
}
use cpp_assistant.SequentialBuffer.Moving.{length-slice}
use cpp_assistant.SequentialBuffer.Sizing.{zeros, length-zeros, start_of_read}

resize_record :
    (m : List ℕ) (r w : ℤ) (n : ℕ)
    → length m ≡ n
    → ◌≡◌ {A = Option (ℤ × SequentialBuffer)}
        (some (ca_ret_ok, record { block = some m; total_size = n; read_pos = r; write_pos = w }))
        (some (ca_ret_ok, held m r w))
resize_record m r w n e = ground arith

-- The bytes of `src` at the same place of a block of the same size.
copy_data_lem :
    (mem old : List ℕ) (r w r0 w0 : ℤ)
    → Positions (length mem) r w
    → length old ≡ length mem
    → (m : List ℕ) × (copy_data (held old r0 w0) (held mem r w) ≡ some (ca_ret_ok, held m r w))
      × (length m ≡ length mem)
      × (contents_of m r w ≡ contents_of mem r w)
unfolding copy_data
copy_data_lem mem old r w r0 w0 p e =
    let n = held_size (length mem) r w in
    let a = pos_part r in
    let fits : a + n ≤ length mem = held_size_le (length mem) r w p in
    let bytes = take n (drop a mem) in
    let size : length bytes ≡ n = length-slice mem a n fits in
    let known = data_size_lem old r w (subst (λ k. Positions k r w) (sym e) p) in
    rw (known, start_of_read (length mem) r w p, e)
      (elim (Bool-cases (ltb_ℤ (pos 0) (pos n))) [
        | inl t ↦
            rw (t, load-eq-some mem a n fits, store-eq-some old a bytes (omega (arith, size)))
              (let m = overwrite old a bytes in
                let em : length m ≡ length mem =
                  length-overwrite old a bytes (omega (arith, size)) ∙ e in
                (
                  m,
                  resize_record m r w (length mem) em,
                  em,
                  ap (λ k. take (held_size k r w) (drop a m)) em
                      ∙ slice-overwrite old a a n bytes (omega arith) (omega (arith, size))
                          (omega (arith, size))
                      ∙ ap (λ j. take j (drop a old) ++ bytes)
                          (let z : a - a ≡ 0 = omega arith in z),
                ))
        | inr f ↦ rw f (
          old,
          resize_record old r w (length mem) e,
          e,
          ap (λ k. take (held_size k r w) (drop a old)) e
              ∙ ap (λ j. take j (drop a old)) (let z : n ≡ 0 = ground arith in z)
              ∙ sym (ap (λ j. take j (drop a mem)) (let z : n ≡ 0 = ground arith in z)),
        )
      ])

innerly_create_eq :
    (n : ℕ)
    → min_buf_size ≤ n
    → innerly_create init (pos n) true ≡ (ca_ret_ok, held (zeros n) (pos 0) (pos 0))
unfolding innerly_create
innerly_create_eq n h =
    let least : at_least_min (pos n) ≡ n = ground arith in rw least (ground (arith, length-zeros n))

copy_from_same :
    (old mem : List ℕ) (r w r0 w0 : ℤ)
    → length old ≡ length mem
    → copy_from (held old r0 w0) (held mem r w) true ≡ copy_data (held old r0 w0) (held mem r w)
unfolding copy_from
copy_from_same old mem r w r0 w0 e = ground arith

copy_from_other :
    (s : SequentialBuffer) (mem : List ℕ) (r w : ℤ)
    → min_buf_size ≤ length mem
    → s.total_size ≢ length mem
    → copy_from s (held mem r w) true
      ≡ copy_data (held (zeros (length mem)) (pos 0) (pos 0)) (held mem r w)
unfolding copy_from
copy_from_other s mem r w big ne = rw (innerly_create_eq (length mem) big) (ground arith)

-- A buffer becomes a copy of `src`: it holds the same bytes, whatever it held before, if it had a
-- block of the size of `src`, or another size. `src` has a size that `create` gives.
pub copy_from-Holds :
    (size : ℕ) (q : List ℕ) (s src : SequentialBuffer)
    → Holds size q src
    → min_buf_size ≤ size
    → ((old : List ℕ) × (s ≡ held old s.read_pos s.write_pos) × (length old ≡ size))
      ⊎ (s.total_size ≢ size)
    → (s' : SequentialBuffer) × (copy_from s src true ≡ some (ca_ret_ok, s')) × Holds size q s'
copy_from-Holds size q s src (mem, r, w, es, el, p, eq) big (inl (old, e0, eo)) =
    let placed = subst (λ k. Positions k r w) (sym el) p in
    let same : length old ≡ length mem = eo ∙ sym el in
    let (m, em, lm, cm) = copy_data_lem mem old r w s.read_pos s.write_pos placed same in
    (
      held m r w,
      ap (λ x. copy_from x src true) e0
          ∙ rw es (copy_from_same old mem r w s.read_pos s.write_pos same ∙ em),
      (m, r, w, refl, lm ∙ el, p, cm ∙ eq),
    )
copy_from-Holds size q s src (mem, r, w, es, el, p, eq) big (inr ne) =
    let placed = subst (λ k. Positions k r w) (sym el) p in
    let (m, em, lm, cm) =
      copy_data_lem mem (zeros (length mem)) r w (pos 0) (pos 0) placed
        (length-zeros (length mem)) in
    (
      held m r w,
      rw es (copy_from_other s mem r w (omega arith) (λ e. ne (e ∙ el)) ∙ em),
      (m, r, w, refl, lm ∙ el, p, cm ∙ eq),
    )
