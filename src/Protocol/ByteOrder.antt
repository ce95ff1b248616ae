-- ===== src/Protocol/ByteOrder.antt =====
-- Integers in memory and in network byte order.
use native.Mathlib.Nat.{mod-lt, mod-eq_of_lt, pow-suc}
use cpp_assistant.Prelude.{
  ℕ, zero, suc, ◌+◌, ◌*◌, ◌/◌, ◌%◌, ◌^◌, ◌<◌, ◌≡◌, refl, sym, ap, ◌∙◌, Bool, true, false, List, [],
  ◌∷◌, ◌++◌, length, ℤ, pos, negsuc, arith, length-append, append_assoc, append-nil,
}
use cpp_assistant.Protocol.{
  turn_around_memory, low_first, low_first_value, memory_of, value_of, byte_order_conversion,
  signed, unsigned,
}

abbrev Bytes : List ℕ → Type 0
Bytes [] = Unit {0}
Bytes (b ∷ bs) = (b < 256) × Bytes bs

Bytes-append : (xs ys : List ℕ) → Bytes xs → Bytes ys → Bytes (xs ++ ys)
Bytes-append [] ys h k = k
Bytes-append (x ∷ xs) ys (lt, h) k = (lt, Bytes-append xs ys h k)

turn_around_memory-Bytes : (bs : List ℕ) → Bytes bs → Bytes (turn_around_memory bs)
unfolding turn_around_memory
turn_around_memory-Bytes [] h = tt
turn_around_memory-Bytes (b ∷ bs) (lt, h) =
    Bytes-append (turn_around_memory bs) (b ∷ []) (turn_around_memory-Bytes bs h) (lt, tt)

turn_around_memory-append :
    (xs ys : List ℕ)
    → turn_around_memory (xs ++ ys) ≡ turn_around_memory ys ++ turn_around_memory xs
unfolding turn_around_memory
turn_around_memory-append [] ys = sym (append-nil (turn_around_memory ys))
turn_around_memory-append (x ∷ xs) ys =
    ap (λ l. l ++ (x ∷ [])) (turn_around_memory-append xs ys)
    ∙ append_assoc (turn_around_memory ys) (turn_around_memory xs) (x ∷ [])

turn_around_twice : (bs : List ℕ) → turn_around_memory (turn_around_memory bs) ≡ bs
unfolding turn_around_memory
turn_around_twice [] = refl
turn_around_twice (b ∷ bs) =
    turn_around_memory-append (turn_around_memory bs) (b ∷ [])
    ∙ ap (λ l. b ∷ l) (turn_around_twice bs)

length-turn_around_memory : (bs : List ℕ) → length (turn_around_memory bs) ≡ length bs
unfolding turn_around_memory
length-turn_around_memory [] = refl
length-turn_around_memory (b ∷ bs) =
    omega (arith, length-append (turn_around_memory bs) (b ∷ []), length-turn_around_memory bs)

low_first-Bytes : (k n : ℕ) → Bytes (low_first k n)
unfolding low_first
low_first-Bytes zero n = tt
low_first-Bytes (suc k) n = (omega arith, low_first-Bytes k (n / 256))

length-low_first : (k n : ℕ) → length (low_first k n) ≡ k
unfolding low_first
length-low_first zero n = refl
length-low_first (suc k) n = ap suc (length-low_first k (n / 256))

low_first_value-low_first : (k n : ℕ) → n < 256 ^ k → low_first_value (low_first k n) ≡ n
unfolding low_first low_first_value
low_first_value-low_first zero n h = omega arith
low_first_value-low_first (suc k) n h =
    let power = pow-suc 256 k in
    rw (low_first_value-low_first k (n / 256) (omega (arith, power))) (omega arith)

low_first-low_first_value :
    (bs : List ℕ) → Bytes bs → low_first (length bs) (low_first_value bs) ≡ bs
unfolding low_first low_first_value
low_first-low_first_value [] h = refl
low_first-low_first_value (b ∷ bs) (lt, h) =
    let rest = low_first_value bs in
    let first : (b + 256 * rest) % 256 ≡ b = omega arith in
    let others : (b + 256 * rest) / 256 ≡ rest = omega arith in
    rw (first, others, low_first-low_first_value bs h) refl

-- The bytes of an integer in network byte order.
abbrev pub wire_bytes : ℕ → ℕ → List ℕ
wire_bytes k n = turn_around_memory (low_first k n)

pub length-wire_bytes : (k n : ℕ) → length (wire_bytes k n) ≡ k
length-wire_bytes k n = length-turn_around_memory (low_first k n) ∙ length-low_first k n

swapped_back : (k n : ℕ) → low_first k (low_first_value (wire_bytes k n)) ≡ wire_bytes k n
swapped_back k n =
    ap (λ j. low_first j (low_first_value (wire_bytes k n))) (sym (length-wire_bytes k n))
    ∙ low_first-low_first_value (wire_bytes k n)
        (turn_around_memory-Bytes (low_first k n) (low_first-Bytes k n))

-- Whatever the host, an integer that has been converted lies in memory in network byte order.
pub memory_of-conversion :
    (big : Bool) (k n : ℕ) → memory_of big k (byte_order_conversion big k n) ≡ wire_bytes k n
unfolding byte_order_conversion
memory_of-conversion true k n = refl
memory_of-conversion false k n = swapped_back k n

pub conversion-value_of :
    (big : Bool) (k n : ℕ)
    → n < 256 ^ k
    → byte_order_conversion big k (value_of big (wire_bytes k n)) ≡ n
unfolding byte_order_conversion
conversion-value_of true k n h =
    ap low_first_value (turn_around_twice (low_first k n)) ∙ low_first_value-low_first k n h
conversion-value_of false k n h =
    ap (λ l. low_first_value (turn_around_memory l)) (swapped_back k n)
    ∙ ap low_first_value (turn_around_twice (low_first k n))
    ∙ low_first_value-low_first k n h

-- The values of a signed integer of `k` bytes.
abbrev pub InRange : ℕ → ℤ → Type 0
InRange k (pos n) = n < 256 ^ k / 2
InRange k (negsuc n) = n < 256 ^ k / 2

pub unsigned_bound : (k : ℕ) (z : ℤ) → InRange k z → unsigned k z < 256 ^ k
unfolding unsigned
unsigned_bound k (pos n) h = omega (arith, mod-lt n {m = 256 ^ k} (omega arith))
unsigned_bound k (negsuc n) h = omega arith

pub signed-unsigned : (k : ℕ) (z : ℤ) → InRange k z → signed k (unsigned k z) ≡ z
unfolding signed unsigned
signed-unsigned k (pos n) h = rw (mod-eq_of_lt {n = n} {m = 256 ^ k} (omega arith)) (ground arith)
signed-unsigned k (negsuc n) h =
    rw (mod-eq_of_lt {n = n} {m = 256 ^ k} (omega arith)) (ground arith)
