-- ===== src/PacketProcessor.antt =====
-- Packets out of a stream: code/frameworks/framework_templates/tcp_app/packet_processor.cpp, from the start of `process` to
-- the flows, and `handle_received_packets` of
-- code/frameworks/framework_public/main_app.cpp. Built with VALIDATES_CONNECTION and without IS_DISPATCHER. A packet is
-- followed up to the place where `process` discards it, or hands it to diagnose_connection or to the component of
-- its command; what these do is not modelled, and the model of the loop ends there.
pub mod Framing
pub mod Incomplete
pub mod Stream
mod Examples
use cpp_assistant.Prelude.{
  ℕ, zero, suc, Bool, not, ◌&&◌, ◌||◌, Option, none, some, List, [], ◌∷◌, ◌++◌, length, take, drop,
  ℤ, pos, negsuc, ◌-ℤ◌, ltb_ℤ, leb_ℤ, ◌==ℤ◌, pos_part, if◌then◌else◌, ◌>>=◌, false,
}
use cpp_assistant.Prelude.TextMap.{find, insert, modify}
use cpp_assistant.Strings.{Text}
use cpp_assistant.ReturnCode.{ca_ret, resource_not_available, operation_timed_out, length_too_big}
use cpp_assistant.TimedTasks.{ret_ok, ret_failed}
use cpp_assistant.SequentialBuffer.{
  SequentialBuffer, get_read_pointer, data_size, empty, move_read_pointer, get_write_pointer,
}
use cpp_assistant.SequentialBuffer.Storage.{reset}
use cpp_assistant.Network.{NetConnection}
use cpp_assistant.Protocol.{
  get_proto_header_field, offset_length, offset_command, proto_header_size,
}

abbrev pub cmd_heartbeat_req : ℤ
cmd_heartbeat_req = pos 0

abbrev pub cmd_heartbeat_resp : ℤ
cmd_heartbeat_resp = pos 1

abbrev pub cmd_identity_report_req : ℤ
cmd_identity_report_req = pos 2

abbrev pub cmd_identity_report_resp : ℤ
cmd_identity_report_resp = pos 3

abbrev pub invalid_command : ℤ
invalid_command = pos 0x44444444

abbrev pub max_error_seconds : ℤ
max_error_seconds = pos 5

abbrev pub is_identity_report : ℤ → Bool
is_identity_report command =
    command ==ℤ cmd_identity_report_req || command ==ℤ cmd_identity_report_resp

-- The bytes that a pointer into the block of a buffer leads to; no pointer for a null pointer.
abbrev pub pointed : SequentialBuffer → Option ℤ → Option (List ℕ)
pointed buf (some (pos at)) = elim buf.block [ none ↦ none | some mem ↦ some (drop at mem) ]
pointed buf _ = none

-- `process` returns with a code, or hands on a packet of some length.
pub data Outcome : Type 0 where
  stops : ℤ → Outcome
  goes_on : ℤ → Outcome

-- m_timestamps_when_pkts_incomplete, a map.
abbrev pub Timestamps : Type 0
Timestamps = List (Text × ℤ)

pub record Framed : Type 0 where
  pub outcome : Outcome
  pub handled_len : ℤ
  pub in_buf : SequentialBuffer
  pub timestamps : Timestamps

-- What the map has for a name, once it has been put there.
abbrev pub start_of_error : Timestamps → Text → ℤ
start_of_error times name = elim (find name times) [ none ↦ pos 0 | some t ↦ t ]

abbrev pub with_entry : Timestamps → Text → Timestamps
with_entry times name = elim (find name times) [ none ↦ insert name (pos 0) times | some t ↦ times ]

-- The branch of an incomplete packet, at `now` in seconds.
unfoldable pub incomplete : ℤ → Text → ℤ → SequentialBuffer → Timestamps → Framed
incomplete now name length buf times =
    let recorded = start_of_error times name in
    let started = if recorded ==ℤ pos 0 then now else recorded in
    let too_big = ltb_ℤ (pos buf.total_size) length in
    let timed_out = leb_ℤ max_error_seconds (now -ℤ started) in
    let resets = timed_out || too_big in
    record {
      outcome = stops (
          ca_ret (
            if timed_out
            then operation_timed_out
            else if too_big
            then length_too_big
            else resource_not_available));
      handled_len = pos 0;
      in_buf = if resets then reset buf false else buf;
      timestamps = modify name (λ t. if resets then pos 0 else started) (with_entry times name);
    }

abbrev pub stopped : ℤ → ℤ → SequentialBuffer → Timestamps → Framed
stopped ret handled_len buf times = record {
  outcome = stops ret;
  handled_len = handled_len;
  in_buf = buf;
  timestamps = times;
}

-- A packet that is complete, or has no valid length.
abbrev pub complete : Bool → ℤ → ℤ → ℤ → SequentialBuffer → Timestamps → Framed
complete is_validated in_len length command buf times =
    if leb_ℤ length (pos 0)
    then stopped ret_failed in_len buf times
    else if not is_validated && not (is_identity_report command)
    then stopped ret_failed length buf times
    else record { outcome = goes_on length; handled_len = length; in_buf = buf; timestamps = times }

unfoldable pub frame : Bool → ℤ → NetConnection → SequentialBuffer → Timestamps → Option Framed
frame big now conn buf times = do
  (in_data, buf') ← get_read_pointer buf
  let in_len = data_size buf'
  if ltb_ℤ conn.fd (pos 0) || ltb_ℤ in_len (pos 0)
      then some (stopped ret_failed (pos 0) buf' times)
      else if in_len ==ℤ pos 0
      then some (stopped ret_ok (pos 0) buf' times)
      else (do
        length ← get_proto_header_field big (pointed buf' in_data) offset_length 4 (pos 0)
        command ← get_proto_header_field big (pointed buf' in_data) offset_command 4 invalid_command
        some (
            if ltb_ℤ in_len length || ltb_ℤ in_len (pos proto_header_size)
            then incomplete now conn.peer_name length buf' times
            else complete conn.is_validated in_len length command buf' times))

-- How far `process` comes: it returns a code without any output, or it goes on with a packet to
-- diagnose_connection, or to the component of its command.
pub data Processed : Type 0 where
  returns : ℤ → NetConnection → Processed
  enters : List ℕ → NetConnection → Processed

-- The state of the loop, with the packets of unknown commands that have been discarded.
pub record Rounds : Type 0 where
  pub conn : NetConnection
  pub timestamps : Timestamps
  pub packets : List (List ℕ)

-- The loop has ended, or a packet has come to one of the flows.
pub data Handled : Type 0 where
  finished : Rounds → Handled
  entered : List ℕ → Rounds → Handled

abbrev pub is_aborted : ℤ → Bool
is_aborted ret =
    ca_ret resource_not_available ==ℤ ret
    || ca_ret operation_timed_out ==ℤ ret
    || ca_ret length_too_big ==ℤ ret

-- `proto_is_heartbeat`.
abbrev pub proto_is_heartbeat : ℤ → Bool
proto_is_heartbeat command = cmd_heartbeat_req ==ℤ command || cmd_heartbeat_resp ==ℤ command

-- `known` says which commands m_component_map has, which the application fills. Times are the same
-- during a call.
module _ (big : Bool) (known : ℤ → Bool) (secs usecs : ℤ) where
  unfoldable pub skip_handled : NetConnection → ℤ → Option NetConnection
  skip_handled conn handled_len = if leb_ℤ handled_len (pos 0) then some conn else (do
    buf ← conn.recv_buf
    (moved, buf') ← move_read_pointer buf handled_len
    some (record conn { recv_buf = some buf'; last_op_time = usecs }))

  -- A packet that `frame` lets through. `in_data` still points to its first byte.
  unfoldable pub dispatch :
      NetConnection → SequentialBuffer → ℤ → Option (Processed × List (List ℕ))
  dispatch conn in_buf len = do
    (at, buf) ← get_read_pointer in_buf
    bytes ← pointed buf at
    command ← get_proto_header_field big (some bytes) offset_command 4 invalid_command
    let packet = take (pos_part len) bytes
    let conn1 = record conn { recv_buf = some buf }
    if proto_is_heartbeat command || is_identity_report command
        then some (enters packet conn1, [])
        else (do
          out ← conn.send_buf
          (out_data, out') ← get_write_pointer out
          some (
              if known command
              then (enters packet (record conn1 { send_buf = some out' }), [])
              else (returns ret_failed (record conn1 { send_buf = some out' }), packet ∷ [])))

  -- `process`, with the packet that it has discarded.
  unfoldable pub process :
      NetConnection → Timestamps → Option (Processed × ℤ × Timestamps × List (List ℕ))
  process conn times = do
    buf ← conn.recv_buf
    f ← frame big secs conn buf times
    elim f.outcome [
      | stops ret ↦
          some (
            returns ret (record conn { recv_buf = some f.in_buf }),
            f.handled_len,
            f.timestamps,
            [],
          )
      | goes_on len ↦ (do
        (p, discarded) ← dispatch conn f.in_buf len
        some (p, f.handled_len, f.timestamps, discarded))
    ]

  -- The loop, with the number of packets that may still be handled, up to the first packet that comes to
  -- one of the flows.
  unfoldable pub handle_rounds : ℕ → Rounds → Option Handled
  handle_rounds zero r = some (finished r)
  handle_rounds (suc n) r = do
    buf ← r.conn.recv_buf
    if empty buf then some (finished r) else (do
      (p, handled_len, times, discarded) ← process r.conn r.timestamps
      elim p [
        | enters packet conn ↦
            some (entered packet (record { conn = conn; timestamps = times; packets = r.packets }))
        | returns ret conn ↦
            let r' : Rounds = record {
              conn = conn;
              timestamps = times;
              packets = r.packets ++ discarded;
            } in
            if is_aborted ret then some (finished r') else (do
              conn1 ← skip_handled conn handled_len
              handle_rounds n (record r' { conn = conn1 }))
      ])

  abbrev pub handle_received_packets : NetConnection → Timestamps → ℤ → Option Handled
  handle_received_packets conn times max_packet_count =
      handle_rounds (pos_part max_packet_count)
        (record { conn = conn; timestamps = times; packets = [] })
