-- ===== src/Protocol.antt =====
-- Packet headers: code/frameworks/framework_public/protocol_common.cpp and protocol_common.h, with the byte order
-- conversion of code/libcpp_assistant/include/cpp_assistant/native/system.h. PROTO_HEADER_EXTENSIONS_SIZE is 0.
-- `big` says whether the host is big endian. A `none` result is an access outside of a buffer.
pub mod ByteOrder
pub mod Fields
pub mod Headers
pub mod Packets
pub mod Packaging
mod Examples
use cpp_assistant.Prelude.{
  ℕ, zero, suc, ◌+◌, ◌-◌, ◌*◌, ◌/◌, ◌%◌, ◌^◌, Bool, true, false, not, ◌||◌, Option, none, some,
  List, [], ◌∷◌, ◌++◌, length, ℤ, pos, negsuc, ◌+ℤ◌, ◌-ℤ◌, ◌==ℤ◌, ltb, ltb_ℤ, ◌==◌, if◌then◌else◌,
  ◌>>=◌, load, store,
}

-- The loop of `turn_around_memory`.
unfoldable pub turn_around_memory : List ℕ → List ℕ
turn_around_memory [] = []
turn_around_memory (b ∷ bs) = turn_around_memory bs ++ (b ∷ [])

-- The `k` bytes of an unsigned integer, the lowest first.
unfoldable pub low_first : ℕ → ℕ → List ℕ
low_first zero n = []
low_first (suc k) n = (n % 256) ∷ low_first k (n / 256)

unfoldable pub low_first_value : List ℕ → ℕ
low_first_value [] = 0
low_first_value (b ∷ bs) = b + 256 * low_first_value bs

-- An integer of `k` bytes in the memory of the host.
abbrev pub memory_of : Bool → ℕ → ℕ → List ℕ
memory_of big k n = if big then turn_around_memory (low_first k n) else low_first k n

abbrev pub value_of : Bool → List ℕ → ℕ
value_of big bs = low_first_value (if big then turn_around_memory bs else bs)

-- `htons`, `htonl`, `htonl64` and their inverses.
unfoldable pub byte_order_conversion : Bool → ℕ → ℕ → ℕ
byte_order_conversion big k n =
    if big then n else value_of big (turn_around_memory (memory_of big k n))

-- Between the signed and the unsigned integers of `k` bytes.
unfoldable pub signed : ℕ → ℕ → ℤ
signed k n = if ltb n (256 ^ k / 2) then pos n else negsuc (256 ^ k - 1 - n)

unfoldable pub unsigned : ℕ → ℤ → ℕ
unsigned k (pos n) = n % 256 ^ k
unsigned k (negsuc n) = 256 ^ k - 1 - n % 256 ^ k

-- The `memcpy` of an integer of `k` bytes from the offset, and its conversion.
unfoldable pub read_field : Bool → List ℕ → ℕ → ℕ → Option ℤ
read_field big raw offset k = do
  bytes ← load (some raw) (pos offset) (pos k)
  some (signed k (byte_order_conversion big k (value_of big bytes)))

unfoldable pub write_field : Bool → List ℕ → ℕ → ℕ → ℤ → Option (List ℕ)
write_field big raw offset k v =
    store (some raw) (pos offset) (memory_of big k (byte_order_conversion big k (unsigned k v)))

-- The fields have 2, 4 or 8 bytes.
unfoldable pub get_proto_header_field : Bool → Option (List ℕ) → ℕ → ℕ → ℤ → Option ℤ
get_proto_header_field big none offset k abnormal_value = some abnormal_value
get_proto_header_field big (some raw) offset k abnormal_value = read_field big raw offset k

unfoldable pub set_proto_header_field :
    Bool → ℕ → ℕ → ℤ → Option (List ℕ) → Option (Option (List ℕ))
set_proto_header_field big offset k field_value none = some none
set_proto_header_field big offset k field_value (some raw) = do
  raw' ← write_field big raw offset k field_value
  some (some raw')

-- `proto_header_t`.
pub record Header : Type 0 where
  pub length : ℤ
  pub route_id : ℤ
  pub command : ℤ
  pub flag_bits : ℤ
  pub packet_number : ℤ
  pub error_code : ℤ

abbrev pub offset_length : ℕ
offset_length = 0

abbrev pub offset_route_id : ℕ
offset_route_id = offset_length + 4

abbrev pub offset_command : ℕ
offset_command = offset_route_id + 8

abbrev pub offset_flag_bits : ℕ
offset_flag_bits = offset_command + 4

abbrev pub offset_packet_num : ℕ
offset_packet_num = offset_flag_bits + 2

abbrev pub offset_err_code : ℕ
offset_err_code = offset_packet_num + 2

abbrev pub proto_header_size : ℕ
proto_header_size = offset_err_code + 4

unfoldable pub parse_header : Bool → List ℕ → Option Header
parse_header big inbuf = do
  length ← read_field big inbuf offset_length 4
  route_id ← read_field big inbuf offset_route_id 8
  command ← read_field big inbuf offset_command 4
  flag_bits ← read_field big inbuf offset_flag_bits 2
  packet_number ← read_field big inbuf offset_packet_num 2
  error_code ← read_field big inbuf offset_err_code 4
  some (record {
    length = length;
    route_id = route_id;
    command = command;
    flag_bits = flag_bits;
    packet_number = packet_number;
    error_code = error_code;
  })

unfoldable pub assemble_header : Bool → Header → List ℕ → Option (List ℕ)
assemble_header big src out = do
  out1 ← write_field big out offset_length 4 src.length
  out2 ← write_field big out1 offset_route_id 8 src.route_id
  out3 ← write_field big out2 offset_command 4 src.command
  out4 ← write_field big out3 offset_flag_bits 2 src.flag_bits
  out5 ← write_field big out4 offset_packet_num 2 src.packet_number
  write_field big out5 offset_err_code 4 src.error_code
