-- ===== src/SequentialBuffer/Storage.antt =====
-- `reset`, `create`, `destroy`, `resize` and the copies of sequential_buffer.cpp.
use cpp_assistant.Prelude.{
  ℕ, Bool, not, ◌&&◌, Option, some, List, replicate, ℤ, pos, negsuc, leb_ℤ, ltb_ℤ, ◌==ℤ◌, min_ℤ,
  if◌then◌else◌, ◌==◌, ltb, ◌>>=◌, load, store,
}
use cpp_assistant.ReturnCode.{
  ca_ret, ca_ret_ok, invalid_param_value, memory_alloc_failed, object_already_exists,
}
use cpp_assistant.SequentialBuffer.{
  SequentialBuffer, min_buf_size, init, is_overflow, data_size, is_null,
}

-- `memset` over a null block is a fault, unless it has no bytes to set.
unfoldable pub reset : SequentialBuffer → Bool → SequentialBuffer
reset s zero_all_data = record s {
  block =
      if zero_all_data && not (is_null s.block) then some (replicate s.total_size 0) else s.block;
  read_pos = pos 0;
  write_pos = pos 0;
}

-- A size below MIN_BUF_SIZE is raised to it.
abbrev pub at_least_min : ℤ → ℕ
at_least_min (pos n) = if ltb n min_buf_size then min_buf_size else n
at_least_min (negsuc n) = min_buf_size

-- `calloc` succeeds or not: `alloc_ok`.
unfoldable pub innerly_create : SequentialBuffer → ℤ → Bool → ℤ × SequentialBuffer
innerly_create s size alloc_ok =
    if leb_ℤ size (pos 0)
    then (ca_ret invalid_param_value, s)
    else let n = at_least_min size in
      if s.total_size == n && not (is_null s.block)
      then (ca_ret_ok, s)
      else if alloc_ok
      then (ca_ret_ok, record init { block = some (replicate n 0); total_size = n })
      else (ca_ret memory_alloc_failed, init)

unfoldable pub create : SequentialBuffer → ℤ → Bool → ℤ × SequentialBuffer
create s size alloc_ok =
    if not (is_null s.block)
    then (ca_ret object_already_exists, s)
    else innerly_create s size alloc_ok

-- `destroy` is `clear`.
abbrev pub destroy : SequentialBuffer → SequentialBuffer
destroy s = init

abbrev pub start_of : ℤ → ℤ
start_of p = if is_overflow p then pos 0 else p

-- The new block of `resize`, zeroed but for what is copied from the old one.
unfoldable pub copied : SequentialBuffer → ℕ → Option (List ℕ)
copied s new_size =
    let n = min_ℤ (data_size s) (pos new_size) in
    if ltb_ℤ (pos 0) n
    then (do
      bytes ← load s.block (start_of s.read_pos) n
      store (some (replicate new_size 0)) (pos 0) bytes)
    else some (replicate new_size 0)

unfoldable pub resize : SequentialBuffer → ℤ → Bool → Option (ℤ × SequentialBuffer)
resize s size alloc_ok =
    if leb_ℤ size (pos 0)
    then some (ca_ret invalid_param_value, s)
    else let n = at_least_min size in
      if s.total_size == n
      then some (ca_ret_ok, s)
      else if not alloc_ok
      then some (ca_ret memory_alloc_failed, s)
      else do
        block ← copied s n
        some (
          pos n,
          record {
            block = some block;
            total_size = n;
            read_pos = pos 0;
            write_pos = min_ℤ (data_size s) (pos n);
          },
        )

-- The data of `src` copied to the same place of a block of the same size.
unfoldable pub copy_data : SequentialBuffer → SequentialBuffer → Option (ℤ × SequentialBuffer)
copy_data s src =
    let positioned = record s { read_pos = src.read_pos; write_pos = src.write_pos } in
    let n = data_size positioned in
    if ltb_ℤ (pos 0) n
    then (do
      bytes ← load src.block (start_of src.read_pos) n
      block ← store s.block (start_of src.read_pos) bytes
      some (ca_ret_ok, record positioned { block = some block }))
    else some (ca_ret_ok, positioned)

unfoldable pub copy_from :
    SequentialBuffer → SequentialBuffer → Bool → Option (ℤ × SequentialBuffer)
copy_from s src alloc_ok =
    if s.total_size == src.total_size
    then copy_data s src
    else let (ret, s') = innerly_create init (pos src.total_size) alloc_ok in
      if ret ==ℤ ca_ret_ok then copy_data s' src else some (ret, s')
