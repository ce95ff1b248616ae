-- ===== src/Protocol/Headers.antt =====
-- `assemble_header` and `parse_header`.
use cpp_assistant.Prelude.{
  ℕ, ◌+◌, ◌≤◌, ◌≡◌, inl, refl, ◌∙◌, Bool, some, List, [], ◌∷◌, length, drop, ℤ, arith,
}
use cpp_assistant.Protocol.{
  Header, read_field, parse_header, assemble_header, offset_length, offset_route_id, offset_command,
  offset_flag_bits, offset_packet_num, offset_err_code, proto_header_size,
}
use cpp_assistant.Protocol.ByteOrder.{InRange}
use cpp_assistant.Protocol.Fields.{
  with_field, write_field_eq, length-with_field, read_field-same, read_field-other, drop-with_field,
}

-- An offset, a number of bytes and a value.
abbrev Field : Type 0
Field = ℕ × ℕ × ℤ

abbrev with_fields : List ℕ → List Field → List ℕ
with_fields raw [] = raw
with_fields raw ((offset, k, v) ∷ fs) = with_fields (with_field raw offset k v) fs

-- All fields lie between the offsets.
abbrev Between : ℕ → ℕ → List Field → Type 0
Between low high [] = Unit {0}
Between low high ((offset, k, v) ∷ fs) = (low ≤ offset) × (offset + k ≤ high) × Between low high fs

length-with_fields :
    (raw : List ℕ) (low high : ℕ) (fs : List Field)
    → Between low high fs
    → high ≤ length raw
    → length (with_fields raw fs) ≡ length raw
length-with_fields raw low high [] b h = refl
length-with_fields raw low high ((offset, k, v) ∷ fs) (lo, hi, b) h =
    let size = length-with_field raw offset k v (omega arith) in
    length-with_fields (with_field raw offset k v) low high fs b (omega (arith, size)) ∙ size

drop-with_fields :
    (raw : List ℕ) (low high : ℕ) (fs : List Field)
    → Between low high fs
    → high ≤ length raw
    → drop high (with_fields raw fs) ≡ drop high raw
drop-with_fields raw low high [] b h = refl
drop-with_fields raw low high ((offset, k, v) ∷ fs) (lo, hi, b) h =
    let size = length-with_field raw offset k v (omega arith) in
    drop-with_fields (with_field raw offset k v) low high fs b (omega (arith, size))
    ∙ drop-with_field raw offset k v high hi (omega arith)

read_below :
    (big : Bool) (raw : List ℕ) (low high : ℕ) (fs : List Field) (offset k : ℕ)
    → Between low high fs
    → offset + k ≤ low
    → offset + k ≤ length raw
    → high ≤ length raw
    → read_field big (with_fields raw fs) offset k ≡ read_field big raw offset k
read_below big raw low high [] offset k b before within h = refl
read_below big raw low high ((o, j, v) ∷ fs) offset k (lo, hi, b) before within h =
    let size = length-with_field raw o j v (omega arith) in
    read_below big (with_field raw o j v) low high fs offset k b before (omega (arith, size))
      (omega (arith, size))
    ∙ read_field-other big raw o j v offset k (omega arith) within (inl (omega arith))

-- The field that is written first, when those behind it have been written.
read_first :
    (big : Bool) (raw : List ℕ) (high : ℕ) (fs : List Field) (offset k : ℕ) (v : ℤ)
    → Between (offset + k) high fs
    → offset + k ≤ high
    → high ≤ length raw
    → InRange k v
    → read_field big (with_fields raw ((offset, k, v) ∷ fs)) offset k ≡ some v
read_first big raw high fs offset k v b hi h range =
    let size = length-with_field raw offset k v (omega arith) in
    read_below big (with_field raw offset k v) (offset + k) high fs offset k b (omega arith)
      (omega (arith, size)) (omega (arith, size))
    ∙ read_field-same big raw offset k v (omega arith) range

-- Every field of a header has a value of its type.
abbrev pub Sendable : Header → Type 0
Sendable h =
    InRange 4 h.length
    × InRange 8 h.route_id
    × InRange 4 h.command
    × InRange 2 h.flag_bits
    × InRange 2 h.packet_number
    × InRange 4 h.error_code

abbrev fields_of : Header → List Field
fields_of h =
    (offset_length, 4, h.length)
    ∷ (offset_route_id, 8, h.route_id)
    ∷ (offset_command, 4, h.command)
    ∷ (offset_flag_bits, 2, h.flag_bits)
    ∷ (offset_packet_num, 2, h.packet_number)
    ∷ (offset_err_code, 4, h.error_code)
    ∷ []

fields_of-Between : (h : Header) → Between 0 proto_header_size (fields_of h)
fields_of-Between h = ground arith

assemble_header_eq :
    (big : Bool) (h : Header) (raw : List ℕ)
    → proto_header_size ≤ length raw
    → assemble_header big h raw ≡ some (with_fields raw (fields_of h))
unfolding assemble_header
assemble_header_eq big h raw room =
    let r1 = with_field raw offset_length 4 h.length in
    let l1 = length-with_field raw offset_length 4 h.length (omega arith) in
    let r2 = with_field r1 offset_route_id 8 h.route_id in
    let l2 = length-with_field r1 offset_route_id 8 h.route_id (omega (arith, l1)) in
    let r3 = with_field r2 offset_command 4 h.command in
    let l3 = length-with_field r2 offset_command 4 h.command (omega (arith, l1, l2)) in
    let r4 = with_field r3 offset_flag_bits 2 h.flag_bits in
    let l4 = length-with_field r3 offset_flag_bits 2 h.flag_bits (omega (arith, l1, l2, l3)) in
    let r5 = with_field r4 offset_packet_num 2 h.packet_number in
    let l5 =
      length-with_field r4 offset_packet_num 2 h.packet_number (omega (arith, l1, l2, l3, l4)) in
    simp (
      write_field_eq big raw offset_length 4 h.length (omega arith),
      write_field_eq big r1 offset_route_id 8 h.route_id (omega (arith, l1)),
      write_field_eq big r2 offset_command 4 h.command (omega (arith, l1, l2)),
      write_field_eq big r3 offset_flag_bits 2 h.flag_bits (omega (arith, l1, l2, l3)),
      write_field_eq big r4 offset_packet_num 2 h.packet_number (omega (arith, l1, l2, l3, l4)),
      write_field_eq big r5 offset_err_code 4 h.error_code (omega (arith, l1, l2, l3, l4, l5)),
    )

read_at :
    (big : Bool) (raw : List ℕ) (high : ℕ) (before behind : List Field) (offset k : ℕ) (v : ℤ)
    → Between 0 high before
    → Between (offset + k) high behind
    → offset + k ≤ high
    → high ≤ length raw
    → InRange k v
    → read_field big (with_fields (with_fields raw before) ((offset, k, v) ∷ behind)) offset k
      ≡ some v
read_at big raw high before behind offset k v b b' hi h range =
    read_first big (with_fields raw before) high behind offset k v b' hi
      (omega (arith, length-with_fields raw 0 high before b h)) range

parse_fields :
    (big : Bool) (h : Header) (raw : List ℕ)
    → proto_header_size ≤ length raw
    → Sendable h
    → parse_header big (with_fields raw (fields_of h)) ≡ some h
unfolding parse_header
parse_fields big h raw room (s1, s2, s3, s4, s5, s6) = simp (
  read_at big raw proto_header_size ([])
      ((offset_route_id, 8, h.route_id)
        ∷ (offset_command, 4, h.command)
        ∷ (offset_flag_bits, 2, h.flag_bits)
        ∷ (offset_packet_num, 2, h.packet_number)
        ∷ (offset_err_code, 4, h.error_code)
        ∷ [])
      offset_length 4 h.length (ground arith) (ground arith) (omega arith) room s1,
  read_at big raw proto_header_size ((offset_length, 4, h.length) ∷ [])
      ((offset_command, 4, h.command)
        ∷ (offset_flag_bits, 2, h.flag_bits)
        ∷ (offset_packet_num, 2, h.packet_number)
        ∷ (offset_err_code, 4, h.error_code)
        ∷ [])
      offset_route_id 8 h.route_id (ground arith) (ground arith) (omega arith) room s2,
  read_at big raw proto_header_size
      ((offset_length, 4, h.length) ∷ (offset_route_id, 8, h.route_id) ∷ [])
      ((offset_flag_bits, 2, h.flag_bits)
        ∷ (offset_packet_num, 2, h.packet_number)
        ∷ (offset_err_code, 4, h.error_code)
        ∷ [])
      offset_command 4 h.command (ground arith) (ground arith) (omega arith) room s3,
  read_at big raw proto_header_size
      ((offset_length, 4, h.length)
        ∷ (offset_route_id, 8, h.route_id)
        ∷ (offset_command, 4, h.command)
        ∷ [])
      ((offset_packet_num, 2, h.packet_number) ∷ (offset_err_code, 4, h.error_code) ∷ [])
      offset_flag_bits 2 h.flag_bits (ground arith) (ground arith) (omega arith) room s4,
  read_at big raw proto_header_size
      ((offset_length, 4, h.length)
        ∷ (offset_route_id, 8, h.route_id)
        ∷ (offset_command, 4, h.command)
        ∷ (offset_flag_bits, 2, h.flag_bits)
        ∷ [])
      ((offset_err_code, 4, h.error_code) ∷ []) offset_packet_num 2 h.packet_number (ground arith)
      (ground arith) (omega arith) room s5,
  read_at big raw proto_header_size
      ((offset_length, 4, h.length)
        ∷ (offset_route_id, 8, h.route_id)
        ∷ (offset_command, 4, h.command)
        ∷ (offset_flag_bits, 2, h.flag_bits)
        ∷ (offset_packet_num, 2, h.packet_number)
        ∷ [])
      ([]) offset_err_code 4 h.error_code (ground arith) (ground arith) (omega arith) room s6,
)

-- A header that is assembled in a buffer with room for it, on a host of either byte order, is parsed
-- as the same header on a host of either byte order, if its fields have values of their types. The rest of
-- the buffer stays.
pub parse_header-assemble_header :
    (big big' : Bool) (h : Header) (raw : List ℕ)
    → proto_header_size ≤ length raw
    → Sendable h
    → (out : List ℕ) × (assemble_header big h raw ≡ some out)
      × (parse_header big' out ≡ some h)
      × (length out ≡ length raw)
      × (drop proto_header_size out ≡ drop proto_header_size raw)
parse_header-assemble_header big big' h raw room ok = (
  with_fields raw (fields_of h),
  assemble_header_eq big h raw room,
  parse_fields big' h raw room ok,
  length-with_fields raw 0 proto_header_size (fields_of h) (fields_of-Between h) room,
  drop-with_fields raw 0 proto_header_size (fields_of h) (fields_of-Between h) room,
)
