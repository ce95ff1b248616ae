-- ===== src/Protocol/Packaging.antt =====
-- Packets that are made, and parsed by who gets them.
use cpp_assistant.Prelude.{
  if◌then◌else◌, ℕ, ◌+◌, ◌-◌, ◌≤◌, ◌<◌, ◌≡◌, ap, ◌∙◌, Bool, false, Option, some, List, ◌∷◌, length,
  take, drop, ℤ, pos, arith, overwrite, store-eq-some, drop-take, take-take, slice-overwrite,
  length-overwrite, length-take, length-replicate, replicate, ltb_ℤ, pos-+ℤ,
}
use cpp_assistant.TimedTasks.{ret_ok}
use cpp_assistant.Network.Fragments.{SendCall, sent, send_loop, send_fragment}
use cpp_assistant.Protocol.{
  Header, proto_header_size, parse_header, assemble_header, offset_length, offset_route_id,
  offset_command, offset_flag_bits, offset_packet_num, offset_err_code,
}
use cpp_assistant.Protocol.Fields.{read_field-take}
use cpp_assistant.Protocol.Headers.{Sendable, parse_header-assemble_header}
use cpp_assistant.Protocol.Packets.{
  fill_proto_header, response_header, with_end_flag, without_end_flag, lite_packet_size,
  serialize_message, serialize_body, serialize_to_buffer, flag_of, lite_packet, send_lite_packet,
}

parse_header-take :
    (big : Bool) (raw : List ℕ) (n : ℕ)
    → proto_header_size ≤ n
    → n ≤ length raw
    → parse_header big (take n raw) ≡ parse_header big raw
unfolding parse_header
parse_header-take big raw n h hb = simp (
  read_field-take big raw n offset_length 4 (omega arith) hb,
  read_field-take big raw n offset_route_id 8 (omega arith) hb,
  read_field-take big raw n offset_command 4 (omega arith) hb,
  read_field-take big raw n offset_flag_bits 2 (omega arith) hb,
  read_field-take big raw n offset_packet_num 2 (omega arith) hb,
  read_field-take big raw n offset_err_code 4 (omega arith) hb,
)

-- A body behind a header.
body_placed :
    (big big' : Bool) (h : Header) (raw bs : List ℕ)
    → proto_header_size + length bs ≤ length raw
    → Sendable h
    → (out : List ℕ) × (assemble_header big h (overwrite raw proto_header_size bs) ≡ some out)
      × (parse_header big' out ≡ some h)
      × (length out ≡ length raw)
      × (take (length bs) (drop proto_header_size out) ≡ bs)
body_placed big big' h raw bs room ok =
    let size = length-overwrite raw proto_header_size bs room in
    let (out, made, parsed, total, rest) =
      parse_header-assemble_header big big' h (overwrite raw proto_header_size bs)
        (omega (arith, size)) ok in
    (
      out,
      made,
      parsed,
      total ∙ size,
      ap (take (length bs)) rest
          ∙ slice-overwrite raw proto_header_size proto_header_size (length bs) bs (omega arith)
              room (omega arith),
    )

-- A socket that takes all bytes at once.
sent_at_once :
    (fd n : ℕ) (buf : List ℕ) (calls : List SendCall)
    → 0 < n
    → n ≤ length buf
    → send_fragment (pos fd) (some buf) (pos n) (sent n ∷ calls)
      ≡ some (record { ret = pos n; wire = take n buf; calls = calls })
unfolding send_fragment send_loop
sent_at_once fd n buf calls h0 h =
    let given : length (take n buf) ≡ n = omega (arith, length-take n buf) in
    let all : take n (take n buf) ≡ take n buf = take-take n n buf (omega arith) in
    ground (arith, given, all)

module _ {Body : Type 0} (serialized : Body → Option (List ℕ)) where
  serialize_message_eq :
      (msg : Body) (raw bs : List ℕ)
      → serialized msg ≡ some bs
      → proto_header_size + length bs ≤ length raw
      → serialize_message serialized msg raw
        ≡ some (pos (length bs), overwrite raw proto_header_size bs)
  unfolding serialize_message
  serialize_message_eq msg raw bs e room =
      rw (e, serialize_message) (simp (store-eq-some raw proto_header_size bs room))

  -- A response to a request whose header can be parsed, with a body that the buffer has room for: the
  -- header that the receiver parses has the request's route and the length of header and body, and the body
  -- stands behind it.
  pub serialize_to_buffer_lem :
      (big big' is_final : Bool) (request : Header) (in_buf raw bs : List ℕ) (msg : Body)
      (cmd errcode packet_num : ℤ)
      → parse_header big in_buf ≡ some request
      → serialized msg ≡ some bs
      → proto_header_size + length bs ≤ length raw
      → Sendable (response_header request (pos (length bs)) cmd errcode is_final packet_num)
      → (out : List ℕ) × (serialize_to_buffer serialized big cmd
            (some msg)
            (some in_buf)
            (some raw)
            errcode
            is_final
            packet_num
          ≡ some (ret_ok, some out, pos (proto_header_size + length bs)))
        × (parse_header big' out
            ≡ some (record {
              length = pos (proto_header_size + length bs);
              route_id = request.route_id;
              command = cmd;
              flag_bits =
                  if is_final
                  then with_end_flag request.flag_bits
                  else without_end_flag request.flag_bits;
              packet_number = packet_num;
              error_code = errcode;
            }))
        × (take (length bs) (drop proto_header_size out) ≡ bs)
  unfolding serialize_to_buffer serialize_body
  serialize_to_buffer_lem big big' is_final request in_buf raw bs msg cmd errcode packet_num er es
        room ok =
      let (out, made, parsed, total, body) =
        body_placed big big'
          (response_header request (pos (length bs)) cmd errcode is_final packet_num) raw bs room
          ok in
      let nonneg : ltb_ℤ (pos (length bs)) (pos 0) ≡ false = ground arith in
      (
        out,
        simp (serialize_message_eq msg raw bs es room, nonneg, er, made)
            (ap (λ z. some (ret_ok, some out, z)) (pos-+ℤ proto_header_size (length bs))),
        parsed
            ∙ ap
                (λ (z : ℤ). some (record {
                  length = z;
                  route_id = request.route_id;
                  command = cmd;
                  flag_bits =
                      if is_final
                      then with_end_flag request.flag_bits
                      else without_end_flag request.flag_bits;
                  packet_number = packet_num;
                  error_code = errcode;
                }))
                (pos-+ℤ proto_header_size (length bs)),
        body,
      )

  -- A packet that fits into the 16 KB of `send_lite_packet`, which the socket takes at once: what reaches the
  -- peer is a header, which the peer parses as that of the packet, and the body.
  pub send_lite_packet_lem :
      (big big' is_final : Bool) (fd : ℕ) (bs : List ℕ) (msg : Body)
      (cmd errcode route_id packet_num : ℤ) (calls : List SendCall)
      → serialized msg ≡ some bs
      → proto_header_size + length bs ≤ lite_packet_size
      → Sendable
          (fill_proto_header (pos (length bs)) cmd errcode route_id packet_num (flag_of is_final))
      → (wire : List ℕ) × (send_lite_packet serialized big
            (pos fd)
            cmd
            errcode
            (some msg)
            route_id
            is_final
            packet_num
            (sent (proto_header_size + length bs) ∷ calls)
          ≡ some (record { ret = pos (proto_header_size + length bs); wire = wire; calls = calls }))
        × (parse_header big' wire
            ≡ some (record {
              length = pos (proto_header_size + length bs);
              route_id = route_id;
              command = cmd;
              flag_bits = if is_final then pos 1 else pos 0;
              packet_number = packet_num;
              error_code = errcode;
            }))
        × (drop proto_header_size wire ≡ bs)
  unfolding send_lite_packet lite_packet serialize_body
  send_lite_packet_lem big big' is_final fd bs msg cmd errcode route_id packet_num calls es room
        ok =
      let raw : List ℕ = replicate lite_packet_size 0 in
      let size : length raw ≡ lite_packet_size = length-replicate {A = ℕ} lite_packet_size 0 in
      let n = proto_header_size + length bs in
      let (out, made, parsed, total, body) =
        body_placed big big'
          (fill_proto_header (pos (length bs)) cmd errcode route_id packet_num (flag_of is_final))
          raw bs (omega (arith, size)) ok in
      let behind : drop proto_header_size (take n out)
          ≡ take (length bs) (drop proto_header_size out) =
        drop-take proto_header_size n out
        ∙ ap (λ k. take k (drop proto_header_size out))
            (let e : n - proto_header_size ≡ length bs = omega arith in e) in
      let nonneg : ltb_ℤ (pos (length bs)) (pos 0) ≡ false = ground arith in
      let not_negative : ltb_ℤ (pos fd) (pos 0) ≡ false = ground arith in
      let packed : lite_packet serialized big cmd errcode (some msg) route_id is_final packet_num
          ≡ some (some (pos n, out)) =
        simp (serialize_message_eq msg raw bs es (omega (arith, size)), nonneg, made)
          (ap (λ z. some (some (z, out))) (pos-+ℤ proto_header_size (length bs))) in
      (
        take n out,
        simp (
          not_negative,
          packed,
          sent_at_once fd n out calls (omega arith) (omega (arith, total, size)),
        ),
        parse_header-take big' out n (omega arith) (omega (arith, total, size))
            ∙ parsed
            ∙ ap
                (λ (z : ℤ). some (record {
                  length = z;
                  route_id = route_id;
                  command = cmd;
                  flag_bits = if is_final then pos 1 else pos 0;
                  packet_number = packet_num;
                  error_code = errcode;
                }))
                (pos-+ℤ proto_header_size (length bs)),
        behind ∙ body,
      )
