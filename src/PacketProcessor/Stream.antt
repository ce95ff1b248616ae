-- ===== src/PacketProcessor/Stream.antt =====
-- A stream of packets that has arrived in the buffer of a connection.
use cpp_assistant.Prelude.{
  ℕ, suc, ◌+◌, ◌<◌, ◌≡◌, refl, sym, ap, ◌∙◌, subst, Bool, true, false, ◌||◌, some, List, [], ◌∷◌,
  ◌++◌, length, take, drop, min, ℤ, pos, leb_ℤ, arith, take-take, take-append_self, length-append,
  append_assoc, append-nil,
}
use cpp_assistant.TimedTasks.{ret_failed}
use cpp_assistant.SequentialBuffer.{SequentialBuffer, empty, data_size}
use cpp_assistant.SequentialBuffer.Layout.{held, Holds, data_size-Holds}
use cpp_assistant.SequentialBuffer.ReadPointer.{move_read_pointer_dequeues}
use cpp_assistant.SequentialBuffer.WritePointer.{get_write_pointer-Roomy}
use cpp_assistant.Network.{NetConnection}
use cpp_assistant.Protocol.{read_field, offset_command}
use cpp_assistant.PacketProcessor.{
  Timestamps, Rounds, returns, proto_is_heartbeat, is_identity_report, invalid_command,
  skip_handled, dispatch, process, handle_rounds,
}
use cpp_assistant.PacketProcessor.Framing.{
  IsPacket, frame-packet, pointed_lem, field_of, field_of-append, get_field,
}

-- The packets of a stream, one behind the other.
unfoldable pub joined : List (List ℕ) → List ℕ
joined [] = []
joined (p ∷ ps) = p ++ joined ps

drop-append_self : (xs ys : List ℕ) → drop (length xs) (xs ++ ys) ≡ ys
drop-append_self [] ys = refl
drop-append_self (x ∷ xs) ys = drop-append_self xs ys

-- A connection that packets are taken from.
abbrev pub Receives : ℕ → List ℕ → NetConnection → Type 0
Receives size q conn =
    (fd : ℕ) × (buf : SequentialBuffer) × (conn.fd ≡ pos fd)
    × (conn.is_validated ≡ true)
    × (conn.recv_buf ≡ some buf)
    × Holds size q buf

-- The output buffer of a connection is not full.
abbrev pub Sends : ℕ → List ℕ → NetConnection → Type 0
Sends size q conn =
    (out : SequentialBuffer) × (conn.send_buf ≡ some out) × Holds size q out × (length q < size)

-- A packet with a command that is no heartbeat and no identity report, and has no component.
abbrev pub IsUnknown : Bool → (ℤ → Bool) → List ℕ → Type 0
IsUnknown big known p =
    (c : ℤ) × IsPacket big p
    × (read_field big p offset_command 4 ≡ some c)
    × ((proto_is_heartbeat c || is_identity_report c) ≡ false)
    × (known c ≡ false)

abbrev pub AllUnknown : Bool → (ℤ → Bool) → List (List ℕ) → Type 0
AllUnknown big known [] = Unit {0}
AllUnknown big known (p ∷ ps) = IsUnknown big known p × AllUnknown big known ps

module _ (big : Bool) (known : ℤ → Bool) (secs usecs : ℤ) where
  skip_handled-Receives :
      (size : ℕ) (p rest : List ℕ) (conn : NetConnection)
      → 0 < length p
      → length (p ++ rest) < size
      → Receives size (p ++ rest) conn
      → (conn' : NetConnection) × (skip_handled big known secs usecs conn (pos (length p))
          ≡ some conn')
        × (conn'.send_buf ≡ conn.send_buf)
        × Receives size rest conn'
  unfolding skip_handled
  skip_handled-Receives size p rest conn h0 lt (fd, buf, ef, ev, eb, hold) =
      let (buf', em, hold') =
        move_read_pointer_dequeues size (length p) (p ++ rest) buf hold lt h0 in
      let n : min (length p) (length (p ++ rest)) ≡ length p =
        omega (arith, length-append p rest) in
      let positive : leb_ℤ (pos (length p)) (pos 0) ≡ false = ground arith in
      let left : drop (min (length p) (length (p ++ rest))) (p ++ rest) ≡ rest =
        ap (λ k. drop k (p ++ rest)) n ∙ drop-append_self p rest in
      (
        record conn { recv_buf = some buf'; last_op_time = usecs },
        simp (positive, eb, em),
        refl,
        (fd, buf', ef, ev, refl, subst (λ l. Holds size l buf') left hold'),
      )

  dispatch-unknown :
      (size size' : ℕ) (p rest q : List ℕ) (conn : NetConnection) (buf : SequentialBuffer)
      → IsUnknown big known p
      → Holds size (p ++ rest) buf
      → Sends size' q conn
      → (buf' : SequentialBuffer) × (out : SequentialBuffer) × (dispatch big known secs usecs conn
            buf
            (pos (length p))
          ≡ some (
            returns ret_failed (record conn { recv_buf = some buf'; send_buf = some out }),
            p ∷ [],
          ))
        × Holds size (p ++ rest) buf'
        × Holds size' q out
  unfolding dispatch
  dispatch-unknown size size' p rest q conn buf (c, packet, ec, ordinary, absent) hold
        (out, es, holds, lt) =
      let (at, buf', raw, eg, ep, le, er, hold') = pointed_lem size (p ++ rest) buf hold in
      let (m, a, b, ew, em, hab, hb, eq) = get_write_pointer-Roomy size' q out holds lt in
      let front : take (length p) raw ≡ p =
        sym (take-take (length p) (length (p ++ rest)) raw (omega (arith, length-append p rest)))
        ∙ ap (take (length p)) er
        ∙ take-append_self p rest in
      let long = packet.0 in
      let command : read_field big raw offset_command 4 ≡ some c =
        field_of big raw (p ++ rest) offset_command 4 le er (omega (arith, length-append p rest))
        ∙ field_of-append big p rest offset_command 4 (omega arith)
        ∙ ec in
      let read = get_field big (some raw) raw offset_command invalid_command c refl command in
      (
        buf',
        held m (pos a) (pos b),
        simp (eg, ep, read, ordinary, es, ew, absent, front),
        hold',
        (m, pos a, pos b, refl, em, omega arith, eq),
      )

  process-unknown :
      (size size' : ℕ) (p rest q : List ℕ) (conn : NetConnection) (times : Timestamps)
      → IsUnknown big known p
      → Receives size (p ++ rest) conn
      → Sends size' q conn
      → (conn' : NetConnection) × (process big known secs usecs conn times
          ≡ some (returns ret_failed conn', pos (length p), times, p ∷ []))
        × Receives size (p ++ rest) conn'
        × Sends size' q conn'
  unfolding process
  process-unknown size size' p rest q conn times unknown (fd, buf, ef, ev, eb, hold) sends =
      let (c, packet, _, _, _) = unknown in
      let (buf1, e1, hold1) =
        frame-packet big secs size fd p rest conn buf times ef ev packet hold in
      let (buf2, out, e2, hold2, holds) =
        dispatch-unknown size size' p rest q conn buf1 unknown hold1 sends in
      let (_, _, _, lt) = sends in
      (
        record conn { recv_buf = some buf2; send_buf = some out },
        simp (eb, e1, e2),
        (fd, buf2, ef, ev, refl, hold2),
        (out, refl, holds, lt),
      )

  handle_rounds-unknown :
      (size size' n : ℕ) (p rest q : List ℕ) (r : Rounds)
      → IsUnknown big known p
      → length (p ++ rest) < size
      → Receives size (p ++ rest) r.conn
      → Sends size' q r.conn
      → (conn' : NetConnection) × (handle_rounds big known secs usecs (suc n) r
          ≡ handle_rounds big known secs usecs n
              (record { conn = conn'; timestamps = r.timestamps; packets = r.packets ++ (p ∷ []) }))
        × Receives size rest conn'
        × Sends size' q conn'
  unfolding handle_rounds empty
  handle_rounds-unknown size size' n p rest q r unknown lt recv sends =
      let (fd, buf, ef, ev, eb, hold) = recv in
      let (c, packet, _, _, _) = unknown in
      let long = packet.0 in
      let (conn0, e, recv1, sends1) =
        process-unknown size size' p rest q r.conn r.timestamps unknown recv sends in
      let (conn1, e1, same, recv2) =
        skip_handled-Receives size p rest conn0 (omega arith) lt recv1 in
      let (out, eo, holds, room) = sends1 in
      let ed = data_size-Holds size (p ++ rest) buf hold in
      let filled : leb_ℤ (data_size buf) (pos 0) ≡ false =
        rw ed (ground (arith, long, length-append p rest)) in
      (conn1, simp (eb, filled, e, e1), recv2, (out, same ∙ eo, holds, room))

  -- If packets have arrived in a buffer that is not full, of which no command is that of a heartbeat or an
  -- identity report or has a component, as many rounds of the loop discard them in their order, each with its bytes,
  -- and leave what has arrived behind them; what is to be sent stays the same. The connection is validated, its
  -- descriptor is valid, and its output buffer is not full.
  pub stream_is_split :
      (size size' n : ℕ) (ps : List (List ℕ)) (rest q : List ℕ) (r : Rounds)
      → AllUnknown big known ps
      → length (joined ps ++ rest) < size
      → Receives size (joined ps ++ rest) r.conn
      → Sends size' q r.conn
      → (conn' : NetConnection) × (handle_rounds big known secs usecs (length ps + n) r
          ≡ handle_rounds big known secs usecs n
              (record { conn = conn'; timestamps = r.timestamps; packets = r.packets ++ ps }))
        × Receives size rest conn'
        × Sends size' q conn'
  unfolding joined
  stream_is_split size size' n [] rest q r ok lt recv sends =
      let none_more : 0 + n ≡ n = omega arith in
      (
        r.conn,
        ap (λ k. handle_rounds big known secs usecs k r) none_more
            ∙ ap
                (λ l.
                  handle_rounds big known secs usecs n
                    (record { conn = r.conn; timestamps = r.timestamps; packets = l }))
                (sym (append-nil r.packets)),
        recv,
        sends,
      )
  stream_is_split size size' n (p ∷ ps) rest q r (unknown, ok) lt recv sends =
      let parted : (p ++ joined ps) ++ rest ≡ p ++ (joined ps ++ rest) =
        append_assoc p (joined ps) rest in
      let lt' : length (p ++ (joined ps ++ rest)) < size = subst (λ l. length l < size) parted lt in
      let (conn1, e1, recv1, sends1) =
        handle_rounds-unknown size size' (length ps + n) p (joined ps ++ rest) q r unknown lt'
          (subst (λ l. Receives size l r.conn) parted recv) sends in
      let (conn2, e2, recv2, sends2) =
        stream_is_split size size' n ps rest q
          (record { conn = conn1; timestamps = r.timestamps; packets = r.packets ++ (p ∷ []) }) ok
          (omega (arith, length-append p (joined ps ++ rest))) recv1 sends1 in
      let rounds : suc (length ps) + n ≡ suc (length ps + n) = omega arith in
      (
        conn2,
        ap (λ k. handle_rounds big known secs usecs k r) rounds
            ∙ e1
            ∙ e2
            ∙ ap
                (λ l.
                  handle_rounds big known secs usecs n
                    (record { conn = conn2; timestamps = r.timestamps; packets = l }))
                (append_assoc r.packets (p ∷ []) ps),
        recv2,
        sends2,
      )
