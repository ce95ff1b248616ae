-- ===== src/SequentialBuffer.antt =====
-- A byte buffer with a read and a write position: code/libcpp_assistant/src/native/
-- sequential_buffer.cpp and include/cpp_assistant/native/sequential_buffer.h.
-- Every method returns the new object; `none` is a memory access outside of the block.
pub mod Storage
pub mod Queue
pub mod Layout
pub mod Moving
pub mod Appending
pub mod Reading
pub mod Writing
pub mod Settling
pub mod ReadPointer
pub mod WritePointer
pub mod Sizing
pub mod Copying
pub mod Faults
mod Examples
use cpp_assistant.Prelude.{
  ℕ, ◌≡◌, Bool, not, ◌&&◌, ◌||◌, Option, none, some, List, [], length, replicate, ℤ, pos, negsuc,
  ◌+ℤ◌, ◌-ℤ◌, leb_ℤ, ltb_ℤ, ◌==ℤ◌, min_ℤ, if◌then◌else◌, ◌==◌, ltb, ◌>>=◌, load, store, overwrite,
  true, false,
}
use cpp_assistant.ReturnCode.{
  ca_ret, ca_ret_ok, invalid_param_value, memory_alloc_failed, object_already_exists,
}

-- `data` is the block that `m_data` points to. The size is only ever set to 0 or to a positive
-- value, so `total_size()`, which replaces a negative one by 0, returns it as it is.
pub record SequentialBuffer : Type 0 where
  pub block : Option (List ℕ)
  pub total_size : ℕ
  pub read_pos : ℤ
  pub write_pos : ℤ

abbrev pub min_buf_size : ℕ
min_buf_size = 1024

abbrev pub overflow_pos : ℤ
overflow_pos = negsuc 0

-- The default constructor, `init` and `clear`.
abbrev pub init : SequentialBuffer
init = record { block = none; total_size = 0; read_pos = pos 0; write_pos = pos 0 }

abbrev pub is_overflow : ℤ → Bool
is_overflow p = overflow_pos ==ℤ p

unfoldable pub data_size : SequentialBuffer → ℤ
data_size s =
    if not (is_overflow s.read_pos) && not (is_overflow s.write_pos)
    then s.write_pos -ℤ s.read_pos
    else if not (is_overflow s.read_pos) && is_overflow s.write_pos
    then pos s.total_size -ℤ s.read_pos
    else pos 0

unfoldable pub free_size : SequentialBuffer → ℤ
free_size s =
    let free = pos s.total_size -ℤ data_size s in if leb_ℤ (pos 0) free then free else pos 0

unfoldable pub empty : SequentialBuffer → Bool
empty s = leb_ℤ (data_size s) (pos 0)

unfoldable pub full : SequentialBuffer → Bool
full s = leb_ℤ (pos s.total_size) (data_size s)

unfoldable pub has_overflown_pointer : SequentialBuffer → Bool
has_overflown_pointer s =
    is_overflow s.read_pos
    || leb_ℤ (pos s.total_size) s.read_pos
    || is_overflow s.write_pos
    || leb_ℤ (pos s.total_size) s.write_pos

-- `memmove(m_data, m_data + m_read_pos, n)`, then the positions.
unfoldable pub shift_down : SequentialBuffer → ℤ → Option (ℤ × SequentialBuffer)
shift_down s n = do
  bytes ← load s.block s.read_pos n
  moved ← store s.block (pos 0) bytes
  some (n, record s { block = some moved; read_pos = pos 0; write_pos = n })

unfoldable pub move_data_to_header : SequentialBuffer → Option (ℤ × SequentialBuffer)
move_data_to_header s =
    if is_overflow s.read_pos && is_overflow s.write_pos
    then some (pos 0, record s { read_pos = pos 0; write_pos = pos 0 })
    else if pos 0 ==ℤ s.read_pos
    then some (
      pos 0,
      record s {
        write_pos = if leb_ℤ (pos s.total_size) (data_size s) then overflow_pos else s.write_pos;
      },
    )
    else shift_down s (data_size s)

-- The call `if (test) move_data_to_header();`.
abbrev pub header_if : Bool → SequentialBuffer → Option SequentialBuffer
header_if test s = if test then (do (n, s') ← move_data_to_header s; some s') else some s

-- The end of `read`: `memcpy(data, m_data + m_read_pos, read_len)`, then the position.
unfoldable pub take_out : SequentialBuffer → ℤ → Option (ℤ × List ℕ × SequentialBuffer)
take_out s n = do
  bytes ← load s.block s.read_pos n
  let next = s.read_pos +ℤ n
  some (
    n,
    bytes,
    record s { read_pos = if leb_ℤ (pos s.total_size) next then overflow_pos else next },
  )

-- `read` from the test of the position on.
unfoldable pub read_some : SequentialBuffer → ℤ → Option (ℤ × List ℕ × SequentialBuffer)
read_some s n = do s' ← header_if (leb_ℤ (pos s.total_size) (s.read_pos +ℤ n)) s; take_out s' n

-- `has_dest` says that the caller's `data` is no null pointer. The list is what is copied there.
unfoldable pub read : SequentialBuffer → ℤ → Bool → Option (ℤ × List ℕ × SequentialBuffer)
read s len has_dest =
    if empty s || len ==ℤ pos 0
    then some (pos 0, [], s)
    else if ltb_ℤ len (pos 0) || not has_dest
    then some (ca_ret invalid_param_value, [], s)
    else read_some s (min_ℤ len (data_size s))

-- The end of `write`: `memcpy(m_data + m_write_pos, data, write_len)`, then the position.
unfoldable pub put_in : SequentialBuffer → ℤ → Option (List ℕ) → Option (ℤ × SequentialBuffer)
put_in s n src = do
  bytes ← load src (pos 0) n
  block ← store s.block s.write_pos bytes
  let next = s.write_pos +ℤ n
  some (
    n,
    record s {
      block = some block;
      write_pos = if leb_ℤ (pos s.total_size) next then overflow_pos else next;
    },
  )

-- `write` from the test of the position on.
unfoldable pub write_some : SequentialBuffer → ℤ → Option (List ℕ) → Option (ℤ × SequentialBuffer)
write_some s n src = do
  s' ← header_if (leb_ℤ (pos s.total_size) (s.write_pos +ℤ n)) s
  put_in s' n src

abbrev pub is_null {ℓ} : {A : Type ℓ} → Option A → Bool
is_null none = true
is_null (some x) = false

-- `src` is the block that the caller's `data` points to.
unfoldable pub write : SequentialBuffer → ℤ → Option (List ℕ) → Option (ℤ × SequentialBuffer)
write s len src =
    if full s || len ==ℤ pos 0
    then some (pos 0, s)
    else if ltb_ℤ len (pos 0) || is_null src
    then some (ca_ret invalid_param_value, s)
    else write_some s (min_ℤ len (free_size s)) src

-- A pointer into the block is its offset; OVERFLOW_PTR is the null pointer.
unfoldable pub get_read_pointer : SequentialBuffer → Option (Option ℤ × SequentialBuffer)
get_read_pointer s = if is_null s.block then some (none, s) else do
  s' ← header_if (has_overflown_pointer s) s
  some (if is_overflow s'.read_pos then none else some s'.read_pos, s')

unfoldable pub get_write_pointer : SequentialBuffer → Option (Option ℤ × SequentialBuffer)
get_write_pointer s = if is_null s.block then some (none, s) else do
  s' ← header_if (has_overflown_pointer s) s
  some (if is_overflow s'.write_pos then none else some s'.write_pos, s')

unfoldable pub advance_read : SequentialBuffer → ℤ → ℤ × SequentialBuffer
advance_read s offset =
    if leb_ℤ (data_size s) (pos 0)
    then (pos 0, record s { read_pos = pos 0; write_pos = pos 0 })
    else let distance = min_ℤ offset (data_size s) in
      let next = s.read_pos +ℤ distance in
      (
        distance,
        if leb_ℤ (pos s.total_size) next || leb_ℤ s.write_pos next
            then record s { read_pos = pos 0; write_pos = pos 0 }
            else record s { read_pos = next },
      )

unfoldable pub move_read_pointer : SequentialBuffer → ℤ → Option (ℤ × SequentialBuffer)
move_read_pointer s offset =
    if leb_ℤ offset (pos 0) || is_null s.block
    then some (pos 0, s)
    else do s' ← header_if (has_overflown_pointer s) s; some (advance_read s' offset)

unfoldable pub advance_write : SequentialBuffer → ℤ → ℤ × SequentialBuffer
advance_write s offset =
    let free = pos s.total_size -ℤ s.write_pos in
    if leb_ℤ free (pos 0)
    then (pos 0, s)
    else let distance = min_ℤ offset free in
      let next = s.write_pos +ℤ distance in
      (
        distance,
        record s { write_pos = if leb_ℤ (pos s.total_size) next then overflow_pos else next },
      )

unfoldable pub move_write_pointer : SequentialBuffer → ℤ → Option (ℤ × SequentialBuffer)
move_write_pointer s offset =
    if leb_ℤ offset (pos 0) || is_null s.block
    then some (pos 0, s)
    else do s' ← header_if (has_overflown_pointer s) s; some (advance_write s' offset)
