-- ===== src/Prelude/Memory.antt =====
-- A block of memory that `calloc` returned, read and written by `memcpy` and `memmove`.
-- An access outside of the block, or through a null pointer, is a fault, `none`.
use Prim.Native.Nat.{ℕ, ◌+◌, ◌≤◌}
use mathlib.Core.Path.{◌≡◌}
use mathlib.Core.Option.{Option, none, some}
use mathlib.Core.List.{List}
use native.Mathlib.Omega.{arith}
use cpp_assistant.Prelude.Tests.{leb, if◌then◌else◌}
use cpp_assistant.Prelude.Lists.{length, take, drop}
use cpp_assistant.Prelude.Int.{ℤ, pos}
use cpp_assistant.Prelude.Slices.{overwrite}

-- The `n` bytes at `block + off`.
unfoldable pub load : Option (List ℕ) → ℤ → ℤ → Option (List ℕ)
load (some mem) (pos off) (pos n) =
    if leb (off + n) (length mem) then some (take n (drop off mem)) else none
load _ _ _ = none

-- `src` copied to `block + off`.
unfoldable pub store : Option (List ℕ) → ℤ → List ℕ → Option (List ℕ)
store (some mem) (pos off) src =
    if leb (off + length src) (length mem) then some (overwrite mem off src) else none
store _ _ _ = none

pub load-eq-some :
    (mem : List ℕ) (off n : ℕ)
    → off + n ≤ length mem
    → load (some mem) (pos off) (pos n) ≡ some (take n (drop off mem))
unfolding load
load-eq-some mem off n h = ground arith

pub store-eq-some :
    (mem : List ℕ) (off : ℕ) (src : List ℕ)
    → off + length src ≤ length mem
    → store (some mem) (pos off) src ≡ some (overwrite mem off src)
unfolding store
store-eq-some mem off src h = ground arith
