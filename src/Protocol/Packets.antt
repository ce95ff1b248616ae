-- ===== src/Protocol/Packets.antt =====
-- Packets that are made and sent: `fill_proto_header`, `serialize_to_buffer` and the two `send_lite_packet` of
-- protocol_common.cpp. `serialized` gives the bytes of a message, or `none` where SerializePartialToArray fails.
use cpp_assistant.Prelude.{
  ℕ, suc, zero, ◌%◌, ◌*◌, Bool, Option, none, some, List, [], ◌∷◌, ◌++◌, length, ℤ, pos, negsuc,
  ◌+ℤ◌, ltb_ℤ, leb_ℤ, ◌==◌, if◌then◌else◌, ◌>>=◌, store, replicate,
}
use cpp_assistant.ReturnCode.{ca_ret, null_param, underlying_error, invalid_param_value}
use cpp_assistant.TimedTasks.{ret_ok, ret_failed}
use cpp_assistant.Strings.{Text}
use cpp_assistant.Network.Fragments.{SendCall, Sending, send_fragment}
use cpp_assistant.Dictionary.{Dict}
use cpp_assistant.ConnectionCache.{ConnIndex, ConnectionCache}
use cpp_assistant.ConnectionCache.Sends.{send_to_connections_by_type}
use cpp_assistant.Protocol.{Header, proto_header_size, parse_header, assemble_header}

-- `flag_bits | PROTO_FLAG_BIT_PACKET_END`: the lowest bit of a negative number is 0 if -1 minus it is odd.
unfoldable pub with_end_flag : ℤ → ℤ
with_end_flag (pos n) = pos (if n % 2 == 1 then n else suc n)
with_end_flag (negsuc zero) = negsuc zero
with_end_flag (negsuc (suc n)) = negsuc (if suc n % 2 == 0 then suc n else n)

-- `flag_bits & ~PROTO_FLAG_BIT_PACKET_END`.
unfoldable pub without_end_flag : ℤ → ℤ
without_end_flag (pos zero) = pos zero
without_end_flag (pos (suc n)) = pos (if suc n % 2 == 1 then n else suc n)
without_end_flag (negsuc n) = negsuc (if n % 2 == 0 then suc n else n)

-- `fill_proto_header`, without extensions.
abbrev pub fill_proto_header : ℤ → ℤ → ℤ → ℤ → ℤ → ℤ → Header
fill_proto_header body_len cmd errcode route_id packet_num flag_bits = record {
  length = pos proto_header_size +ℤ body_len;
  route_id = route_id;
  command = cmd;
  flag_bits = flag_bits;
  packet_number = packet_num;
  error_code = errcode;
}

-- What `serialize_to_buffer` makes of the header of the request.
abbrev pub response_header : Header → ℤ → ℤ → ℤ → Bool → ℤ → Header
response_header h body_len cmd errcode is_final packet_num = record {
  length = pos proto_header_size +ℤ body_len;
  route_id = h.route_id;
  command = cmd;
  flag_bits = if is_final then with_end_flag h.flag_bits else without_end_flag h.flag_bits;
  packet_number = packet_num;
  error_code = errcode;
}

abbrev pub flag_of : Bool → ℤ
flag_of is_final = if is_final then pos 1 else pos 0

-- `char data[16 * 1024]`.
abbrev pub lite_packet_size : ℕ
lite_packet_size = 16 * 1024

module _ {Body : Type 0} (serialized : Body → Option (List ℕ)) where
  -- `serialize_message` to the place behind the header, with the length that it returns.
  unfoldable pub serialize_message : Body → List ℕ → Option (ℤ × List ℕ)
  serialize_message msg out = elim (serialized msg) [
    | none ↦ some (negsuc 0, out)
    | some bytes ↦ (do
      out' ← store (some out) (pos proto_header_size) bytes
      some (pos (length bytes), out'))
  ]

  unfoldable pub serialize_body : Option Body → List ℕ → Option (ℤ × List ℕ)
  serialize_body none out = some (pos 0, out)
  serialize_body (some msg) out = serialize_message msg out

  -- What is returned, the buffer, and `out_len`.
  unfoldable pub serialize_to_buffer :
      Bool
      → ℤ
      → Option Body
      → Option (List ℕ)
      → Option (List ℕ)
      → ℤ
      → Bool
      → ℤ
      → Option (ℤ × Option (List ℕ) × ℤ)
  serialize_to_buffer big out_cmd out_body (some in_header_buf) (some out_buf) errcode is_final
        packet_num =
      do
        (body_len, out) ← serialize_body out_body out_buf
        if ltb_ℤ body_len (pos 0) then some (ca_ret underlying_error, some out, pos 0) else (do
          header ← parse_header big in_header_buf
          out' ←
              assemble_header big
                (response_header header body_len out_cmd errcode is_final packet_num) out
          some (ret_ok, some out', pos proto_header_size +ℤ body_len))
  serialize_to_buffer big out_cmd out_body in_header_buf out_buf errcode is_final packet_num =
      some (ca_ret null_param, out_buf, pos 0)

  -- The packet in the buffer `data`, with its header; `none` for its length is a failure to serialize.
  unfoldable pub lite_packet :
      Bool → ℤ → ℤ → Option Body → ℤ → Bool → ℤ → Option (Option (ℤ × List ℕ))
  lite_packet big cmd errcode msg_body route_id is_final packet_num = do
    (body_len, buf) ← serialize_body msg_body (replicate lite_packet_size 0)
    if ltb_ℤ body_len (pos 0) then some none else (do
      let header = fill_proto_header body_len cmd errcode route_id packet_num (flag_of is_final)
      buf' ← assemble_header big header buf
      some (some (header.length, buf')))

  unfoldable pub send_lite_packet :
      Bool → ℤ → ℤ → ℤ → Option Body → ℤ → Bool → ℤ → List SendCall → Option Sending
  send_lite_packet big fd cmd errcode msg_body route_id is_final packet_num calls =
      if ltb_ℤ fd (pos 0)
      then some (record { ret = ca_ret invalid_param_value; wire = []; calls = calls })
      else (do
        packet ← lite_packet big cmd errcode msg_body route_id is_final packet_num
        elim packet [
          | none ↦ some (record { ret = ca_ret underlying_error; wire = []; calls = calls })
          | some (len, buf) ↦ send_fragment fd (some buf) len calls
        ])

  module _ (dict : Dict ConnIndex) (io : ℤ → List SendCall) where
    -- The loop over the caches, with the result so far and the names that the packet went to.
    unfoldable pub send_to_caches :
        List (ConnectionCache dict)
        → Text
        → ℤ
        → List ℕ
        → ℤ
        → Bool
        → ℕ
        → ℤ
        → ℕ
        → ℤ
        → Option (ℤ × List Text)
    send_to_caches [] type count buf len to_all policy route_id rand ret = some (ret, [])
    send_to_caches (cache ∷ caches) type count buf len to_all policy route_id rand ret = do
      (bytes, names) ←
          send_to_connections_by_type dict io cache (some type) count (some buf) len to_all policy
            route_id rand
      let so_far = if ltb_ℤ ret (pos 0) then pos 0 else ret
      if to_all
          then (do
            (ret', names') ←
                send_to_caches caches type count buf len to_all policy route_id rand
                  (if ltb_ℤ bytes (pos 0) then ret else so_far +ℤ bytes)
            some (ret', names ++ names'))
          else if ltb_ℤ bytes (pos 0)
          then send_to_caches caches type count buf len to_all policy route_id rand ret
          else some (bytes, names)

    -- `send_lite_packet` to the nodes of a type, in the master and in the slave cache.
    unfoldable pub send_lite_packet_by_type :
        Bool
        → ConnectionCache dict
        → ConnectionCache dict
        → Option Text
        → ℤ
        → ℤ
        → ℤ
        → Option Body
        → Bool
        → ℕ
        → ℤ
        → Bool
        → ℤ
        → ℕ
        → Option (ℤ × List Text)
    send_lite_packet_by_type big master slave none count cmd errcode msg_body to_all policy route_id
          is_final packet_num rand =
        some (ca_ret invalid_param_value, [])
    send_lite_packet_by_type big master slave (some type) count cmd errcode msg_body to_all policy
          route_id is_final packet_num rand =
        if leb_ℤ count (pos 0) then some (ca_ret invalid_param_value, []) else (do
          packet ← lite_packet big cmd errcode msg_body route_id is_final packet_num
          elim packet [
            | none ↦ some (ca_ret underlying_error, [])
            | some (len, buf) ↦ (do
              (ret, names) ←
                  send_to_caches (master ∷ slave ∷ []) type count buf len to_all policy route_id
                    rand (negsuc 0)
              some (if ltb_ℤ ret (pos 0) then ret_failed else ret, names))
          ])
