-- ===== src/PacketProcessor/Examples.antt =====
-- Two packets in a buffer of 60 bytes, and a part of one.
use cpp_assistant.Prelude.{
  ℕ, ◌+◌, ◌≡◌, ◌<◌, ◌≤◌, refl, Bool, true, false, ◌||◌, some, List, [], ◌∷◌, ◌++◌, length, take,
  replicate, ℤ, pos, ◌-ℤ◌, arith, load, leb_ℤ, text_eq,
}
use cpp_assistant.Prelude.TextMap.{find}
use cpp_assistant.ReturnCode.{ca_ret, operation_timed_out}
use cpp_assistant.SequentialBuffer.{
  SequentialBuffer, get_read_pointer, has_overflown_pointer, data_size,
}
use cpp_assistant.SequentialBuffer.Layout.{held, Holds}
use cpp_assistant.Network.{NetConnection, status_connected}
use cpp_assistant.Protocol.{
  read_field, byte_order_conversion, turn_around_memory, low_first_value, low_first, signed,
  offset_length, offset_command, proto_header_size, get_proto_header_field,
}
use cpp_assistant.PacketProcessor.{
  Framed, Timestamps, goes_on, stops, frame, Rounds, handle_rounds, is_identity_report,
}
use cpp_assistant.PacketProcessor.Framing.{IsPacket, handed_on_is_whole}
use cpp_assistant.PacketProcessor.Incomplete.{incomplete_times_out, stale_time_drops}
use cpp_assistant.PacketProcessor.Stream.{Receives, Sends, IsUnknown, joined, stream_is_split}

abbrev packet : List ℕ
packet =
    0 ∷ 0 ∷ 0 ∷ 24 ∷ 0 ∷ 0 ∷ 0 ∷ 0 ∷ 0 ∷ 0 ∷ 0 ∷ 9 ∷ 0 ∷ 0 ∷ 0 ∷ 4 ∷ 0 ∷ 1 ∷ 0 ∷ 1 ∷ 0 ∷ 0 ∷ 0 ∷ 0
    ∷ []

length_field : read_field false packet offset_length 4 ≡ some (pos 24)
unfolding read_field byte_order_conversion turn_around_memory low_first low_first_value signed load
length_field = refl

packet-IsPacket : IsPacket false packet
packet-IsPacket = (omega arith, length_field)

abbrev two_packets : SequentialBuffer
two_packets = held (packet ++ (packet ++ replicate 12 0)) (pos 0) (pos 48)

-- One byte that is still to be sent.
abbrev output : SequentialBuffer
output = held (7 ∷ replicate 3 0) (pos 0) (pos 1)

abbrev link : NetConnection
link = record {
  fd = pos 5;
  self_ip = [];
  self_port = 0;
  self_name = [];
  peer_ip = [];
  peer_port = 0;
  peer_name = 97 ∷ [];
  conn_status = status_connected;
  is_blocking = false;
  is_validated = true;
  send_buf = some output;
  recv_buf = some two_packets;
  last_op_time = pos 0;
}

two_packets-Holds : Holds 60 (joined (packet ∷ packet ∷ []) ++ []) two_packets
unfolding joined
two_packets-Holds =
    (packet ++ (packet ++ replicate 12 0), pos 0, pos 48, refl, refl, omega arith, refl)

output-Holds : Holds 4 (7 ∷ []) output
output-Holds = (7 ∷ replicate 3 0, pos 0, pos 1, refl, refl, omega arith, refl)

abbrev no_component : ℤ → Bool
no_component command = false

command_field : read_field false packet offset_command 4 ≡ some (pos 4)
unfolding read_field byte_order_conversion turn_around_memory low_first low_first_value signed load
command_field = refl

packet-IsUnknown : IsUnknown false no_component packet
packet-IsUnknown = (pos 4, packet-IsPacket, command_field, refl, refl)

joined_size : length (joined (packet ∷ packet ∷ []) ++ []) < 60
unfolding joined
joined_size = omega arith

abbrev at_start : Rounds
at_start = record { conn = link; timestamps = []; packets = [] }

stream_is_split_example :
    (conn' : NetConnection) × (handle_rounds false no_component
        (pos 100)
        (pos 7)
        (length (packet ∷ packet ∷ []) + 3)
        at_start
      ≡ handle_rounds false no_component
          (pos 100)
          (pos 7)
          3
          (record { conn = conn'; timestamps = []; packets = packet ∷ packet ∷ [] }))
    × Receives 60 [] conn'
    × Sends 4 (7 ∷ []) conn'
stream_is_split_example =
    stream_is_split false no_component (pos 100) (pos 7) 60 4 3 (packet ∷ packet ∷ []) [] (7 ∷ [])
      at_start (packet-IsUnknown, (packet-IsUnknown, tt)) joined_size
      (5, two_packets, refl, refl, refl, two_packets-Holds)
      (output, refl, output-Holds, omega arith)

abbrev part : List ℕ
part = take 20 packet

abbrev part_arrived : SequentialBuffer
part_arrived = held (part ++ replicate 40 0) (pos 0) (pos 20)

part_arrived-Holds : Holds 60 part part_arrived
part_arrived-Holds = (part ++ replicate 40 0, pos 0, pos 20, refl, refl, omega arith, refl)

length_of_part : read_field false part offset_length 4 ≡ some (pos 24)
unfolding read_field byte_order_conversion turn_around_memory low_first low_first_value signed load
length_of_part = refl

abbrev seen_at : ℤ → Timestamps
seen_at t = (97 ∷ [], t) ∷ []

seen_first : (t : ℤ) → find (97 ∷ []) (seen_at t) ≡ some t
unfolding find text_eq
seen_first t = refl

incomplete_times_out_example :
    (f : Framed) × (frame false (pos 105) link part_arrived (seen_at (pos 100)) ≡ some f)
    × (f.outcome ≡ stops (ca_ret operation_timed_out))
    × Holds 60 [] f.in_buf
    × (find (97 ∷ []) f.timestamps ≡ some (pos 0))
unfolding find text_eq ◌-ℤ◌
incomplete_times_out_example =
    incomplete_times_out false (pos 105) 60 5 part link part_arrived (pos 24) (seen_at (pos 100))
      refl part_arrived-Holds (omega arith) length_of_part refl refl

abbrev packet_arrived : SequentialBuffer
packet_arrived = held (packet ++ replicate 36 0) (pos 0) (pos 24)

packet_arrived-Holds : Holds 60 packet packet_arrived
packet_arrived-Holds = (packet ++ replicate 36 0, pos 0, pos 24, refl, refl, omega arith, refl)

-- The first part came at 100, its packet was handed on at 101, and the next part comes at 200.
stale_time_drops_example :
    (f : Framed) × (g : Framed) × (frame false (pos 101) link packet_arrived (seen_at (pos 100))
      ≡ some f)
    × (f.outcome ≡ goes_on (pos 24))
    × (frame false (pos 200) link part_arrived f.timestamps ≡ some g)
    × (g.outcome ≡ stops (ca_ret operation_timed_out))
    × Holds 60 [] g.in_buf
unfolding ◌-ℤ◌
stale_time_drops_example =
    stale_time_drops false (pos 101) (pos 200) 60 5 packet part link packet_arrived part_arrived
      (pos 24) (pos 100) (seen_at (pos 100)) refl refl (seen_first (pos 100)) refl refl
      packet-IsPacket packet_arrived-Holds part_arrived-Holds (omega arith) length_of_part refl

packet_framed :
    frame false (pos 101) link packet_arrived []
    ≡ some (record {
      outcome = goes_on (pos 24);
      handled_len = pos 24;
      in_buf = packet_arrived;
      timestamps = [];
    })
unfolding frame get_read_pointer has_overflown_pointer data_size get_proto_header_field read_field
    byte_order_conversion turn_around_memory low_first low_first_value signed load ◌-ℤ◌
packet_framed = refl

handed_on_is_whole_example :
    (command : ℤ) × (read_field false packet offset_command 4 ≡ some command)
    × (pos 24 ≡ pos 24)
    × (leb_ℤ (pos 24) (pos 0) ≡ false)
    × (leb_ℤ (pos 24) (pos (length packet)) ≡ true)
    × (proto_header_size ≤ length packet)
    × ((true || is_identity_report command) ≡ true)
handed_on_is_whole_example =
    handed_on_is_whole false (pos 101) 60 5 packet link packet_arrived (pos 24) (pos 24) [] _ refl
      packet_arrived-Holds (omega arith) length_field packet_framed refl
