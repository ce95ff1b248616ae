-- ===== src/SequentialBuffer/Sizing.antt =====
-- `create`, `resize` and the copies: what a change of the block does to the bytes held.
use cpp_assistant.Prelude.{
  ℕ, zero, suc, ◌+◌, ◌-◌, ◌<◌, ◌≡◌, ◌≢◌, refl, some, List, [], length, take, drop, ℤ, pos, negsuc,
  arith, true, ltb_ℤ, min, sym, ap, ◌∙◌, subst, Bool-cases, inl, inr, min_ℤ-pos, take-take-min,
  replicate, length-replicate, overwrite, load-eq-some, store-eq-some, max, pos_part,
  length-overwrite, take-append_self,
}
use cpp_assistant.ReturnCode.{ca_ret_ok}
use cpp_assistant.SequentialBuffer.{SequentialBuffer, init, min_buf_size}
use cpp_assistant.SequentialBuffer.Storage.{
  at_least_min, create, innerly_create, copied, resize, start_of,
}
use cpp_assistant.SequentialBuffer.Layout.{
  held, Positions, held_size, contents_of, data_size_lem, held_size_le, Holds,
}
use cpp_assistant.SequentialBuffer.Moving.{length-slice}

abbrev pub zeros : ℕ → List ℕ
zeros n = replicate n 0

pub length-zeros : (n : ℕ) → length (zeros n) ≡ n
length-zeros n = length-replicate n (let z : ℕ = 0 in z)

create_eq :
    (n : ℕ)
    → 0 < n
    → create init (pos n) true ≡ (ca_ret_ok, held (zeros (at_least_min (pos n))) (pos 0) (pos 0))
unfolding create innerly_create
create_eq n h = ground (arith, length-zeros (at_least_min (pos n)))

-- A buffer without a block becomes an empty one, of the size asked for or of MIN_BUF_SIZE.
pub create-Holds :
    (n : ℕ)
    → 0 < n
    → (s : SequentialBuffer) × (create init (pos n) true ≡ (ca_ret_ok, s))
      × Holds (max n min_buf_size) [] s
create-Holds n h =
    let m = at_least_min (pos n) in
    let e : m ≡ max n min_buf_size = ground arith in
    (
      held (zeros m) (pos 0) (pos 0),
      create_eq n h,
      (zeros m, pos 0, pos 0, refl, length-zeros m ∙ e, omega arith, refl),
    )

pub start_of_read : (n : ℕ) (r w : ℤ) → Positions n r w → start_of r ≡ pos (pos_part r)
start_of_read n (pos a) w p = refl
start_of_read n (negsuc zero) w p = refl
start_of_read n (negsuc (suc k)) w p = absurd p

-- The block of `resize` starts with the bytes held, as many as fit.
copied_lem :
    (mem : List ℕ) (r w : ℤ) (n : ℕ)
    → Positions (length mem) r w
    → let k = min (held_size (length mem) r w) n in
      (m : List ℕ) × (copied (held mem r w) n ≡ some m)
      × (length m ≡ n)
      × (take k m ≡ take k (drop (pos_part r) mem))
unfolding copied
copied_lem mem r w n p =
    let h = held_size (length mem) r w in
    let k = min h n in
    rw (data_size_lem mem r w p, min_ℤ-pos h n, start_of_read (length mem) r w p)
      (elim (Bool-cases (ltb_ℤ (pos 0) (pos k))) [
        | inl t ↦
            let bytes = take k (drop (pos_part r) mem) in
            let size : length bytes ≡ k =
              length-slice mem (pos_part r) k (omega (arith, held_size_le (length mem) r w p)) in
            rw (t, load-eq-some mem (pos_part r) k (omega (arith, held_size_le (length mem) r w p)))
              (
                overwrite (zeros n) 0 bytes,
                ground
                    (arith, store-eq-some (zeros n) 0 bytes (omega (arith, size, length-zeros n))),
                length-overwrite (zeros n) 0 bytes (omega (arith, size, length-zeros n))
                    ∙ length-zeros n,
                ap (λ j. take j (overwrite (zeros n) 0 bytes)) (sym size)
                    ∙ take-append_self bytes (drop (0 + length bytes) (zeros n)),
              )
        | inr f ↦
            let none_left : k ≡ 0 = ground arith in
            rw (f, none_left) (zeros n, refl, length-zeros n, refl)
      ])

resize_eq :
    (mem : List ℕ) (r w : ℤ) (n target : ℕ) (m : List ℕ)
    → Positions (length mem) r w
    → 0 < n
    → target ≡ max n min_buf_size
    → target ≢ length mem
    → length m ≡ target
    → copied (held mem r w) target ≡ some m
    → resize (held mem r w) (pos n) true
      ≡ some (pos target, held m (pos 0) (pos (min (held_size (length mem) r w) target)))
unfolding resize
resize_eq mem r w n target m p h et ne em e =
    let least : at_least_min (pos n) ≡ target = ground arith in
    rw least
      (ground (arith, data_size_lem mem r w p, min_ℤ-pos (held_size (length mem) r w) target))

resized :
    (mem : List ℕ) (r w : ℤ) (target : ℕ) (m : List ℕ)
    → Positions (length mem) r w
    → 0 < target
    → length m ≡ target
    → let k = min (held_size (length mem) r w) target in
      take k m ≡ take k (drop (pos_part r) mem)
      → Holds target (take target (contents_of mem r w)) (held m (pos 0) (pos k))
resized mem r w target m p h em et =
    let size = held_size (length mem) r w in
    let k = min size target in
    (
      m,
      pos 0,
      pos k,
      refl,
      em,
      omega arith,
      ap (λ j. take j m) (let z : k - 0 ≡ k = omega arith in z)
          ∙ et
          ∙ sym (take-take-min target size (drop (pos_part r) mem)),
    )

-- A buffer that is resized to another size keeps its bytes, oldest first, as many as fit.
pub resize_keeps :
    (size n : ℕ) (q : List ℕ) (s : SequentialBuffer)
    → Holds size q s
    → 0 < n
    → max n min_buf_size ≢ size
    → (s' : SequentialBuffer) × (resize s (pos n) true ≡ some (pos (max n min_buf_size), s'))
      × Holds (max n min_buf_size) (take (max n min_buf_size) q) s'
resize_keeps size n q s (mem, r, w, es, el, p, eq) h ne =
    let placed = subst (λ k. Positions k r w) (sym el) p in
    let target = max n min_buf_size in
    let (m, em, lm, tm) = copied_lem mem r w target placed in
    (
      held m (pos 0) (pos (min (held_size (length mem) r w) target)),
      rw es (resize_eq mem r w n target m placed h refl (λ e. ne (e ∙ el)) lm em),
      subst
          (λ l.
            Holds target (take target l)
              (held m (pos 0) (pos (min (held_size (length mem) r w) target))))
          eq (resized mem r w target m placed (omega arith) lm tm),
    )
