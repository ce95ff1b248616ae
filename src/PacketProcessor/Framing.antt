-- ===== src/PacketProcessor/Framing.antt =====
-- `frame` on a buffer that begins with a packet.
use cpp_assistant.Prelude.{
  ℕ, ◌+◌, ◌≤◌, ◌<◌, ◌≡◌, refl, sym, ap, ◌∙◌, Bool, true, false, ◌||◌, Option, some, List, ◌++◌,
  length, take, drop, ℤ, pos, ltb_ℤ, leb_ℤ, ◌==ℤ◌, arith, if◌then◌else◌, load, leb, Bool-cases, inl,
  inr, some_inj, length-append, length-drop, take-append_self,
}
use cpp_assistant.SequentialBuffer.{SequentialBuffer, get_read_pointer, data_size}
use cpp_assistant.SequentialBuffer.Layout.{Holds, data_size-Holds}
use cpp_assistant.SequentialBuffer.ReadPointer.{get_read_pointer_lem}
use cpp_assistant.Network.{NetConnection}
use cpp_assistant.Protocol.{
  get_proto_header_field, read_field, value_of, byte_order_conversion, signed, offset_length,
  offset_command, proto_header_size,
}
use cpp_assistant.Protocol.Fields.{read_slice, read_field-take}
use cpp_assistant.PacketProcessor.{
  pointed, Timestamps, Framed, goes_on, frame, complete, incomplete, invalid_command,
  is_identity_report,
}

load_inv :
    (mem : List ℕ) (at n : ℕ) (bs : List ℕ)
    → load (some mem) (pos at) (pos n) ≡ some bs
    → (at + n ≤ length mem) × (take n (drop at mem) ≡ bs)
unfolding load
load_inv mem at n bs e = elim (Bool-cases (leb (at + n) (length mem))) [
  | inl within ↦ (ground arith, some_inj (rw (within, load) at e))
  | inr out ↦ let clash = rw (out, load) at e in absurd (cc clash)
]

-- The read pointer leads to memory that begins with the bytes of the buffer.
pub pointed_lem :
    (size : ℕ) (q : List ℕ) (buf : SequentialBuffer)
    → Holds size q buf
    → (at : ℕ) × (buf' : SequentialBuffer) × (raw : List ℕ) × (get_read_pointer buf
        ≡ some (some (pos at), buf'))
      × (pointed buf' (some (pos at)) ≡ some raw)
      × (length q ≤ length raw)
      × (take (length q) raw ≡ q)
      × Holds size q buf'
pointed_lem size q buf hold =
    let (at, buf', eg, el, hold') = get_read_pointer_lem size q buf hold in
    let (mem, r, w, es, sized, p, eq) = hold' in
    let (within, slice) =
      load_inv mem at (length q) q
        (ap (λ b. load b (pos at) (pos (length q))) (sym (ap (λ s. s.block) es)) ∙ el) in
    (
      at,
      buf',
      drop at mem,
      eg,
      ap (λ s. pointed s (some (pos at))) es,
      omega (arith, length-drop at mem),
      slice,
      hold',
    )

-- A packet: its header has its length.
abbrev pub IsPacket : Bool → List ℕ → Type 0
IsPacket big p =
    (proto_header_size ≤ length p) × (read_field big p offset_length 4 ≡ some (pos (length p)))

-- A field of what lies at the read pointer.
pub field_of :
    (big : Bool) (raw q : List ℕ) (offset k : ℕ)
    → length q ≤ length raw
    → take (length q) raw ≡ q
    → offset + k ≤ length q
    → read_field big raw offset k ≡ read_field big q offset k
field_of big raw q offset k le e h =
    sym (read_field-take big raw (length q) offset k h le) ∙ ap (λ l. read_field big l offset k) e

pub field_of-append :
    (big : Bool) (p rest : List ℕ) (offset k : ℕ)
    → offset + k ≤ length p
    → read_field big (p ++ rest) offset k ≡ read_field big p offset k
field_of-append big p rest offset k h =
    field_of big (p ++ rest) p offset k (omega (arith, length-append p rest))
      (take-append_self p rest) h

pub get_field :
    (big : Bool) (at : Option (List ℕ)) (raw : List ℕ) (offset : ℕ) (abnormal_value v : ℤ)
    → at ≡ some raw
    → read_field big raw offset 4 ≡ some v
    → get_proto_header_field big at offset 4 abnormal_value ≡ some v
unfolding get_proto_header_field
get_field big at raw offset abnormal_value v ep ev =
    ap (λ r. get_proto_header_field big r offset 4 abnormal_value) ep ∙ ev

frame_step :
    (big : Bool) (now : ℤ) (fd at n : ℕ) (conn : NetConnection) (buf buf' : SequentialBuffer)
    (raw : List ℕ) (len command : ℤ) (times : Timestamps)
    → conn.fd ≡ pos fd
    → get_read_pointer buf ≡ some (some (pos at), buf')
    → data_size buf' ≡ pos n
    → 0 < n
    → pointed buf' (some (pos at)) ≡ some raw
    → read_field big raw offset_length 4 ≡ some len
    → read_field big raw offset_command 4 ≡ some command
    → frame big now conn buf times
      ≡ some (
          if ltb_ℤ (pos n) len || ltb_ℤ (pos n) (pos proto_header_size)
          then incomplete now conn.peer_name len buf' times
          else complete conn.is_validated (pos n) len command buf' times)
unfolding frame
frame_step big now fd at n conn buf buf' raw len command times ef eg ed h0 ep el ec =
    let there : ltb_ℤ conn.fd (pos 0) ≡ false = rw ef (ground arith) in
    let nonneg : ltb_ℤ (pos n) (pos 0) ≡ false = ground arith in
    let nonzero : (pos n ==ℤ pos 0) ≡ false = ground arith in
    let length_read =
      get_field big (pointed buf' (some (pos at))) raw offset_length (pos 0) len ep el in
    let command_read =
      get_field big (pointed buf' (some (pos at))) raw offset_command invalid_command command ep
        ec in
    simp (eg, ed, there, nonneg, nonzero, length_read, command_read)

-- What `frame` gives for a buffer that holds at least the length and the command of a header.
pub frame_lem :
    (big : Bool) (now : ℤ) (size fd : ℕ) (q : List ℕ) (conn : NetConnection)
    (buf : SequentialBuffer) (len : ℤ) (times : Timestamps)
    → conn.fd ≡ pos fd
    → Holds size q buf
    → offset_command + 4 ≤ length q
    → read_field big q offset_length 4 ≡ some len
    → (command : ℤ) × (buf' : SequentialBuffer) × (read_field big q offset_command 4 ≡ some command)
      × (frame big now conn buf times
          ≡ some (
              if ltb_ℤ (pos (length q)) len || ltb_ℤ (pos (length q)) (pos proto_header_size)
              then incomplete now conn.peer_name len buf' times
              else complete conn.is_validated (pos (length q)) len command buf' times))
      × Holds size q buf'
frame_lem big now size fd q conn buf len times ef hold h el =
    let (at, buf', raw, eg, ep, le, er, hold') = pointed_lem size q buf hold in
    let command =
      signed 4 (byte_order_conversion big 4 (value_of big (take 4 (drop offset_command q)))) in
    let ec = read_slice big q offset_command 4 h in
    (
      command,
      buf',
      ec,
      frame_step big now fd at (length q) conn buf buf' raw len command times ef eg
          (data_size-Holds size q buf' hold') (omega arith) ep
          (field_of big raw q offset_length 4 le er (omega arith) ∙ el)
          (field_of big raw q offset_command 4 le er h ∙ ec),
      hold',
    )

-- A packet at the front of the buffer is handed on, if the connection is validated.
pub frame-packet :
    (big : Bool) (now : ℤ) (size fd : ℕ) (p rest : List ℕ) (conn : NetConnection)
    (buf : SequentialBuffer) (times : Timestamps)
    → conn.fd ≡ pos fd
    → conn.is_validated ≡ true
    → IsPacket big p
    → Holds size (p ++ rest) buf
    → (buf' : SequentialBuffer) × (frame big now conn buf times
        ≡ some (record {
          outcome = goes_on (pos (length p));
          handled_len = pos (length p);
          in_buf = buf';
          timestamps = times;
        }))
      × Holds size (p ++ rest) buf'
frame-packet big now size fd p rest conn buf times ef ev (long, el) hold =
    let total = length-append p rest in
    let (command, buf', ec, e, hold') =
      frame_lem big now size fd (p ++ rest) conn buf (pos (length p)) times ef hold
        (omega (arith, total)) (field_of-append big p rest offset_length 4 (omega arith) ∙ el) in
    let fits : ltb_ℤ (pos (length (p ++ rest))) (pos (length p)) ≡ false = ground (arith, total) in
    let whole : ltb_ℤ (pos (length (p ++ rest))) (pos proto_header_size) ≡ false =
      ground (arith, total) in
    let positive : leb_ℤ (pos (length p)) (pos 0) ≡ false = ground arith in
    (buf', e ∙ simp (fits, whole, positive, ev), hold')

complete-goes_on :
    (is_validated : Bool) (n : ℕ) (len command l : ℤ) (buf : SequentialBuffer) (times : Timestamps)
    → (complete is_validated (pos n) len command buf times).outcome ≡ goes_on l
    → (l ≡ len)
      × (leb_ℤ len (pos 0) ≡ false)
      × ((is_validated || is_identity_report command) ≡ true)
complete-goes_on is_validated n len command l buf times e = elim (Bool-cases (leb_ℤ len (pos 0))) [
  | inl bad ↦ let clash = rw bad at e in absurd (cc clash)
  | inr good ↦ elim (Bool-cases is_validated) [
    | inl yes_v ↦ let same = rw (good, yes_v) at e in (cc same, good, rw yes_v refl)
    | inr no_v ↦ elim (Bool-cases (is_identity_report command)) [
      | inl report ↦
          let same = rw (good, no_v, report) at e in (cc same, good, rw (no_v, report) refl)
      | inr other ↦ let clash = rw (good, no_v, other) at e in absurd (cc clash)
    ]
  ]
]

-- Where 16 bytes or more have arrived, so that the length and the command can be read, and the descriptor
-- is valid, a packet is handed on only if all its bytes have arrived, with those of a header, and the
-- connection is validated or the packet is an identity report. Its length is that of its header.
pub handed_on_is_whole :
    (big : Bool) (now : ℤ) (size fd : ℕ) (q : List ℕ) (conn : NetConnection)
    (buf : SequentialBuffer) (len l : ℤ) (times : Timestamps) (f : Framed)
    → conn.fd ≡ pos fd
    → Holds size q buf
    → offset_command + 4 ≤ length q
    → read_field big q offset_length 4 ≡ some len
    → frame big now conn buf times ≡ some f
    → f.outcome ≡ goes_on l
    → (command : ℤ) × (read_field big q offset_command 4 ≡ some command)
      × (l ≡ len)
      × (leb_ℤ l (pos 0) ≡ false)
      × (leb_ℤ l (pos (length q)) ≡ true)
      × (proto_header_size ≤ length q)
      × ((conn.is_validated || is_identity_report command) ≡ true)
unfolding incomplete
handed_on_is_whole big now size fd q conn buf len l times f ef hold h el eq out =
    let (command, buf', ec, e, hold') =
      frame_lem big now size fd q conn buf len times ef hold h el in
    let framed = some_inj (sym e ∙ eq) in
    let short = ltb_ℤ (pos (length q)) len || ltb_ℤ (pos (length q)) (pos proto_header_size) in
    elim (Bool-cases short) [
      | inl lacks ↦
          let stopped_at = rw lacks at framed in
          let clash = ap (λ (x : Framed). x.outcome) stopped_at ∙ out in absurd (cc clash)
      | inr has ↦
          let whole = rw has at framed in
          let (same, positive, allowed) =
            complete-goes_on conn.is_validated (length q) len command l buf' times
              (ap (λ (x : Framed). x.outcome) whole ∙ out) in
          (
            command,
            ec,
            same,
            rw same positive,
            rw same (ground (arith, has)),
            ground (arith, has),
            allowed,
          )
    ]
