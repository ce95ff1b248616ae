-- ===== src/Protocol/Examples.antt =====
-- A header, a response and a small packet.
use cpp_assistant.Prelude.{
  ℕ, ◌+◌, ◌≡◌, refl, true, false, Option, some, List, [], ◌∷◌, length, take, drop, replicate, pos,
  negsuc, arith, load, ◌+ℤ◌,
}
use cpp_assistant.TimedTasks.{ret_ok}
use cpp_assistant.Network.Fragments.{sent}
use cpp_assistant.Protocol.{
  Header, parse_header, assemble_header, proto_header_size, read_field, byte_order_conversion,
  turn_around_memory, low_first, low_first_value, signed,
}
use cpp_assistant.Protocol.Headers.{Sendable, parse_header-assemble_header}
use cpp_assistant.Protocol.Packets.{serialize_to_buffer, send_lite_packet, with_end_flag}
use cpp_assistant.Protocol.Packaging.{serialize_to_buffer_lem, send_lite_packet_lem}

abbrev heartbeat : Header
heartbeat = record {
  length = pos 24;
  route_id = negsuc 4;
  command = pos 1;
  flag_bits = pos 1;
  packet_number = pos 1;
  error_code = pos 888888;
}

heartbeat-Sendable : Sendable heartbeat
heartbeat-Sendable = (omega arith, omega arith, omega arith, omega arith, omega arith, omega arith)

-- From a big endian host to a little endian one.
parse_header-assemble_header_example :
    (out : List ℕ) × (assemble_header true heartbeat (replicate 26 7) ≡ some out)
    × (parse_header false out ≡ some heartbeat)
    × (length out ≡ length (replicate {A = ℕ} 26 7))
    × (drop proto_header_size out ≡ drop proto_header_size (replicate {A = ℕ} 26 7))
parse_header-assemble_header_example =
    parse_header-assemble_header true false heartbeat (replicate 26 7) (omega arith)
      heartbeat-Sendable

-- A request in network byte order.
abbrev request_bytes : List ℕ
request_bytes =
    0 ∷ 0 ∷ 0 ∷ 24 ∷ 0 ∷ 0 ∷ 0 ∷ 0 ∷ 0 ∷ 0 ∷ 0 ∷ 9 ∷ 0 ∷ 0 ∷ 0 ∷ 4 ∷ 0 ∷ 1 ∷ 0 ∷ 1 ∷ 0 ∷ 0 ∷ 0 ∷ 0
    ∷ []

abbrev request : Header
request = record {
  length = pos 24;
  route_id = pos 9;
  command = pos 4;
  flag_bits = pos 1;
  packet_number = pos 1;
  error_code = pos 0;
}

request_parsed : parse_header false request_bytes ≡ some request
unfolding parse_header read_field byte_order_conversion turn_around_memory low_first low_first_value
    signed load
request_parsed = refl

-- A message that is its own bytes.
abbrev as_bytes : List ℕ → Option (List ℕ)
as_bytes msg = some msg

serialize_to_buffer_lem_example :
    (out : List ℕ) × (serialize_to_buffer as_bytes false
        (pos 5)
        (some (65 ∷ 66 ∷ []))
        (some request_bytes)
        (some (replicate 30 0))
        (pos 888888)
        true
        (pos 1)
      ≡ some (ret_ok, some out, pos (proto_header_size + 2)))
    × (parse_header true out
        ≡ some (record {
          length = pos 26;
          route_id = pos 9;
          command = pos 5;
          flag_bits = with_end_flag (pos 1);
          packet_number = pos 1;
          error_code = pos 888888;
        }))
    × (take 2 (drop proto_header_size out) ≡ 65 ∷ 66 ∷ [])
unfolding with_end_flag ◌+ℤ◌
serialize_to_buffer_lem_example =
    serialize_to_buffer_lem as_bytes false true true request request_bytes (replicate 30 0)
      (65 ∷ 66 ∷ []) (65 ∷ 66 ∷ []) (pos 5) (pos 888888) (pos 1) request_parsed refl (omega arith)
      (omega arith, omega arith, omega arith, omega arith, omega arith, omega arith)

send_lite_packet_lem_example :
    (wire : List ℕ) × (send_lite_packet as_bytes false
        (pos 3)
        (pos 5)
        (pos 0)
        (some (65 ∷ 66 ∷ []))
        (pos 9)
        true
        (pos 1)
        (sent (proto_header_size + 2) ∷ [])
      ≡ some (record { ret = pos (proto_header_size + 2); wire = wire; calls = [] }))
    × (parse_header true wire
        ≡ some (record {
          length = pos 26;
          route_id = pos 9;
          command = pos 5;
          flag_bits = pos 1;
          packet_number = pos 1;
          error_code = pos 0;
        }))
    × (drop proto_header_size wire ≡ 65 ∷ 66 ∷ [])
unfolding ◌+ℤ◌
send_lite_packet_lem_example =
    send_lite_packet_lem as_bytes false true true 3 (65 ∷ 66 ∷ []) (65 ∷ 66 ∷ []) (pos 5) (pos 0)
      (pos 9) (pos 1) [] refl (omega arith)
      (omega arith, omega arith, omega arith, omega arith, omega arith, omega arith)
