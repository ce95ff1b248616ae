-- ===== src/Protocol/Fields.antt =====
-- Fields of a header, written and read.
use cpp_assistant.Prelude.{
  ℕ, ◌+◌, ◌-◌, ◌≤◌, ◌≡◌, ◌⊎◌, inl, inr, sym, ap, ◌∙◌, Bool, some, List, [], ◌++◌, length, take,
  drop, ℤ, pos, arith, overwrite, store, load-eq-some, store-eq-some, take-append, drop-append,
  drop-take, drop-drop, take-take, take_all, drop_all, length-take, length-drop, length-overwrite,
  slice-overwrite, append-nil,
}
use cpp_assistant.Protocol.{
  value_of, byte_order_conversion, signed, unsigned, read_field, write_field,
}
use cpp_assistant.Protocol.ByteOrder.{
  wire_bytes, length-wire_bytes, memory_of-conversion, conversion-value_of, InRange, unsigned_bound,
  signed-unsigned,
}

-- A slice in front of what is written, or behind it, stays.
slice-before :
    (xs src : List ℕ) (at a k : ℕ)
    → a + k ≤ at
    → at ≤ length xs
    → take k (drop a (overwrite xs at src)) ≡ take k (drop a xs)
slice-before xs src at a k h hb =
    let rest = src ++ drop (at + length src) xs in
    let size : length (drop a (take at xs)) ≡ at - a =
      omega (arith, length-take at xs, length-drop a (take at xs)) in
    let none_left : k - length (drop a (take at xs)) ≡ 0 = omega (arith, size) in
    ap (take k) (drop-append a (take at xs) rest)
    ∙ take-append k (drop a (take at xs)) (drop (a - length (take at xs)) rest)
    ∙ ap (λ n. take k (drop a (take at xs)) ++ take n (drop (a - length (take at xs)) rest))
        none_left
    ∙ append-nil (take k (drop a (take at xs)))
    ∙ ap (take k) (drop-take a at xs)
    ∙ take-take k (at - a) (drop a xs) (omega arith)

slice-after :
    (xs src : List ℕ) (at a k : ℕ)
    → at + length src ≤ a
    → at + length src ≤ length xs
    → take k (drop a (overwrite xs at src)) ≡ take k (drop a xs)
slice-after xs src at a k h hb =
    let rest = drop (at + length src) xs in
    let first : drop a (take at xs) ≡ [] =
      drop_all a (take at xs) (omega (arith, length-take at xs)) in
    let second : drop (a - at) src ≡ [] = drop_all (a - at) src (omega arith) in
    let size : a - length (take at xs) ≡ a - at = omega (arith, length-take at xs) in
    let place : at + length src + (a - at - length src) ≡ a = omega arith in
    ap (take k) (
      drop-append a (take at xs) (src ++ rest)
      ∙ ap (λ l. l ++ drop (a - length (take at xs)) (src ++ rest)) first
      ∙ ap (λ n. drop n (src ++ rest)) size
      ∙ drop-append (a - at) src rest
      ∙ ap (λ l. l ++ drop (a - at - length src) rest) second
      ∙ drop-drop (a - at - length src) (at + length src) xs
      ∙ ap (λ n. drop n xs) place)

-- The buffer after a field was written.
abbrev pub with_field : List ℕ → ℕ → ℕ → ℤ → List ℕ
with_field raw offset k v = overwrite raw offset (wire_bytes k (unsigned k v))

pub write_field_eq :
    (big : Bool) (raw : List ℕ) (offset k : ℕ) (v : ℤ)
    → offset + k ≤ length raw
    → write_field big raw offset k v ≡ some (with_field raw offset k v)
unfolding write_field
write_field_eq big raw offset k v h =
    ap (store (some raw) (pos offset)) (memory_of-conversion big k (unsigned k v))
    ∙ store-eq-some raw offset (wire_bytes k (unsigned k v))
        (omega (arith, length-wire_bytes k (unsigned k v)))

pub length-with_field :
    (raw : List ℕ) (offset k : ℕ) (v : ℤ)
    → offset + k ≤ length raw
    → length (with_field raw offset k v) ≡ length raw
length-with_field raw offset k v h =
    length-overwrite raw offset (wire_bytes k (unsigned k v))
      (omega (arith, length-wire_bytes k (unsigned k v)))

pub read_slice :
    (big : Bool) (raw : List ℕ) (offset k : ℕ)
    → offset + k ≤ length raw
    → read_field big raw offset k
      ≡ some (signed k (byte_order_conversion big k (value_of big (take k (drop offset raw)))))
unfolding read_field
read_slice big raw offset k h = simp (load-eq-some raw offset k h)

pub read_field-same :
    (big : Bool) (raw : List ℕ) (offset k : ℕ) (v : ℤ)
    → offset + k ≤ length raw
    → InRange k v
    → read_field big (with_field raw offset k v) offset k ≡ some v
read_field-same big raw offset k v h range =
    let bytes = wire_bytes k (unsigned k v) in
    let size = length-wire_bytes k (unsigned k v) in
    let start : offset - offset ≡ 0 = omega arith in
    let slice : take k (drop offset (with_field raw offset k v)) ≡ bytes =
      slice-overwrite raw offset offset k bytes (omega arith) (omega (arith, size))
        (omega (arith, size))
      ∙ ap (λ n. take n (drop offset raw) ++ bytes) start in
    read_slice big (with_field raw offset k v) offset k
      (omega (arith, length-with_field raw offset k v h))
    ∙ ap (λ l. some (signed k (byte_order_conversion big k (value_of big l)))) slice
    ∙ ap (λ n. some (signed k n))
        (conversion-value_of big k (unsigned k v) (unsigned_bound k v range))
    ∙ ap some (signed-unsigned k v range)

pub read_field-other :
    (big : Bool) (raw : List ℕ) (offset k : ℕ) (v : ℤ) (offset' k' : ℕ)
    → offset + k ≤ length raw
    → offset' + k' ≤ length raw
    → (offset' + k' ≤ offset) ⊎ (offset + k ≤ offset')
    → read_field big (with_field raw offset k v) offset' k' ≡ read_field big raw offset' k'
read_field-other big raw offset k v offset' k' h h' apart =
    let bytes = wire_bytes k (unsigned k v) in
    let size = length-wire_bytes k (unsigned k v) in
    let slice : take k' (drop offset' (with_field raw offset k v)) ≡ take k' (drop offset' raw) =
      elim apart [
        | inl before ↦ slice-before raw bytes offset offset' k' before (omega arith)
        | inr after ↦
            slice-after raw bytes offset offset' k' (omega (arith, size)) (omega (arith, size))
      ] in
    read_slice big (with_field raw offset k v) offset' k'
      (omega (arith, length-with_field raw offset k v h))
    ∙ ap (λ l. some (signed k' (byte_order_conversion big k' (value_of big l)))) slice
    ∙ sym (read_slice big raw offset' k' h')

pub drop-with_field :
    (raw : List ℕ) (offset k : ℕ) (v : ℤ) (n : ℕ)
    → offset + k ≤ n
    → offset + k ≤ length raw
    → drop n (with_field raw offset k v) ≡ drop n raw
drop-with_field raw offset k v n h hb =
    let size = length-wire_bytes k (unsigned k v) in
    let total = length-with_field raw offset k v hb in
    sym (
      take_all (length raw) (drop n (with_field raw offset k v))
        (omega (arith, length-drop n (with_field raw offset k v), total)))
    ∙ slice-after raw (wire_bytes k (unsigned k v)) offset n (length raw) (omega (arith, size))
        (omega (arith, size))
    ∙ take_all (length raw) (drop n raw) (omega (arith, length-drop n raw))

pub read_field-take :
    (big : Bool) (raw : List ℕ) (n offset k : ℕ)
    → offset + k ≤ n
    → n ≤ length raw
    → read_field big (take n raw) offset k ≡ read_field big raw offset k
read_field-take big raw n offset k h hb =
    let slice : take k (drop offset (take n raw)) ≡ take k (drop offset raw) =
      ap (take k) (drop-take offset n raw)
      ∙ take-take k (n - offset) (drop offset raw) (omega arith) in
    read_slice big (take n raw) offset k (omega (arith, length-take n raw))
    ∙ rw slice (sym (read_slice big raw offset k (omega arith)))
