-- ===== src/Network/Transfer.antt =====
-- `send_from_connection` and `recv_to_connection` of tcp_base.cpp: the buffers of a connection and its
-- socket.
use cpp_assistant.Prelude.{
  ℕ, Bool, not, ◌||◌, Option, none, some, List, [], ℤ, pos, ◌-ℤ◌, leb_ℤ, ltb_ℤ, ◌==ℤ◌,
  if◌then◌else◌, ◌>>=◌, load, store,
}
use cpp_assistant.ReturnCode.{
  ca_ret, resource_not_available, connection_broken, connection_not_ready, pointer_out_of_bound,
  space_not_enough,
}
use cpp_assistant.SequentialBuffer.{
  SequentialBuffer, data_size, get_read_pointer, get_write_pointer, move_read_pointer,
  move_write_pointer,
}
use cpp_assistant.Network.{
  NetConnection, has_status, status_connecting, status_connected, status_disconnecting,
  status_disconnected, status_broken,
}
use cpp_assistant.Network.Fragments.{SendCall, RecvCall, send_fragment, recv_fragment}

abbrev pub is_down : ℕ → Bool
is_down status =
    not (has_status status_connected status)
    || has_status status_disconnected status
    || has_status status_disconnecting status

abbrev pub broken_if : Bool → NetConnection → NetConnection
broken_if test conn = if test then record conn { conn_status = status_broken } else conn

-- What is returned, the bytes that have gone to the peer, and the connection.
pub record Transferred : Type 0 where
  pub ret : ℤ
  pub wire : List ℕ
  pub conn : NetConnection

abbrev pub stopped : ℤ → NetConnection → Option Transferred
stopped ret conn = some (record { ret = ret; wire = []; conn = conn })

-- From the call of `send_fragment` on: `at` is the read pointer.
unfoldable pub send_held :
    NetConnection → SequentialBuffer → ℤ → List SendCall → ℤ → Option Transferred
send_held conn buf at calls now = do
  bytes ← load buf.block at (data_size buf)
  s ← send_fragment conn.fd (some bytes) (data_size buf) calls
  let marked = broken_if (s.ret ==ℤ ca_ret connection_broken) conn
  if ltb_ℤ (pos 0) s.ret
      then (do
        (moved, buf') ← move_read_pointer buf s.ret
        some (record {
          ret = s.ret;
          wire = s.wire;
          conn = record marked { send_buf = some buf'; last_op_time = now };
        }))
      else some (record { ret = s.ret; wire = s.wire; conn = marked })

unfoldable pub send_buffer :
    NetConnection → SequentialBuffer → List SendCall → ℤ → Option Transferred
send_buffer conn buf calls now = do
  (ptr, buf') ← get_read_pointer buf
  let conn' = record conn { send_buf = some buf' }
  elim ptr [
    | none ↦ stopped (ca_ret pointer_out_of_bound) conn'
    | some at ↦
        if leb_ℤ (data_size buf') (pos 0)
        then stopped (pos 0) conn'
        else send_held conn' buf' at calls now
  ]

-- The statuses that both directions look at first.
abbrev pub when_connected : NetConnection → Option Transferred → Option Transferred
when_connected conn go =
    if is_down conn.conn_status
    then stopped (ca_ret connection_broken) conn
    else if has_status status_connecting conn.conn_status
    then stopped (ca_ret connection_not_ready) conn
    else go

unfoldable pub send_from_connection : NetConnection → List SendCall → ℤ → Option Transferred
send_from_connection conn calls now = elim conn.send_buf [
  | none ↦ stopped (ca_ret resource_not_available) conn
  | some buf ↦ when_connected conn (send_buffer conn buf calls now)
]

-- From the call of `recv_fragment` on, with the part of the block behind the write pointer.
unfoldable pub recv_at :
    NetConnection → SequentialBuffer → ℤ → ℤ → List RecvCall → ℤ → Option Transferred
recv_at conn buf at available calls now = do
  memory ← load buf.block at available
  r ← recv_fragment conn.fd (some memory) available calls
  block ← store buf.block at r.memory
  let filled = record buf { block = some block }
  let marked =
      broken_if (r.ret ==ℤ ca_ret connection_broken) (record conn { recv_buf = some filled })
  if ltb_ℤ (pos 0) r.ret
      then (do
        (moved, buf') ← move_write_pointer filled r.ret
        some (record {
          ret = r.ret;
          wire = [];
          conn = record marked { recv_buf = some buf'; last_op_time = now };
        }))
      else some (record { ret = r.ret; wire = []; conn = marked })

unfoldable pub recv_buffer :
    NetConnection → SequentialBuffer → List RecvCall → ℤ → Option Transferred
recv_buffer conn buf calls now = do
  (ptr, buf') ← get_write_pointer buf
  let conn' = record conn { recv_buf = some buf' }
  let available = pos buf'.total_size -ℤ buf'.write_pos
  elim ptr [
    | none ↦ stopped (ca_ret pointer_out_of_bound) conn'
    | some at ↦
        if ltb_ℤ (pos buf'.total_size) available
        then stopped (ca_ret pointer_out_of_bound) conn'
        else if leb_ℤ available (pos 0)
        then stopped (ca_ret space_not_enough) conn'
        else recv_at conn' buf' at available calls now
  ]

unfoldable pub recv_to_connection : NetConnection → List RecvCall → ℤ → Option Transferred
recv_to_connection conn calls now = elim conn.recv_buf [
  | none ↦ stopped (ca_ret resource_not_available) conn
  | some buf ↦ when_connected conn (recv_buffer conn buf calls now)
]
