-- ===== src/PacketProcessor/Incomplete.antt =====
-- Packets that have not arrived as a whole.
use cpp_assistant.Prelude.{
  ℕ, zero, suc, negsuc, ◌+◌, ◌≤◌, ◌<◌, ◌≡◌, inl, inr, refl, sym, ap, ◌∙◌, Bool, true, false, ◌||◌,
  some, List, [], length, ℤ, pos, ◌-ℤ◌, ltb_ℤ, leb_ℤ, ◌==ℤ◌, arith, if◌then◌else◌, Option-cases,
  text_eq_refl, append-nil, subst,
}
use cpp_assistant.Prelude.TextMap.{find, insert, modify, find-insert, find-modify}
use cpp_assistant.Strings.{Text}
use cpp_assistant.ReturnCode.{ca_ret, resource_not_available, operation_timed_out, length_too_big}
use cpp_assistant.SequentialBuffer.{SequentialBuffer}
use cpp_assistant.SequentialBuffer.Layout.{Holds, Positions}
use cpp_assistant.SequentialBuffer.Storage.{reset}
use cpp_assistant.Network.{NetConnection}
use cpp_assistant.Protocol.{read_field, offset_length, offset_command, proto_header_size}
use cpp_assistant.PacketProcessor.{
  Timestamps, Framed, stops, goes_on, frame, incomplete, start_of_error, with_entry,
  max_error_seconds,
}
use cpp_assistant.PacketProcessor.Framing.{IsPacket, frame_lem, frame-packet}

-- What the map has for a name after its entry was written to.
find-with_entry :
    (times : Timestamps) (name : Text) (f : ℤ → ℤ)
    → find name (modify name f (with_entry times name)) ≡ some (f (start_of_error times name))
find-with_entry times name f = elim (Option-cases (find name times)) [
  | inl missing ↦
      rw (missing, with_entry, start_of_error)
        (find-modify name name f (pos 0) (insert name (pos 0) times)
            (find-insert name name (pos 0) times missing ∙ rw (text_eq_refl name) refl)
          ∙ rw (text_eq_refl name) refl)
  | inr (t, known) ↦
      rw (known, with_entry, start_of_error)
        (find-modify name name f t times known ∙ rw (text_eq_refl name) refl)
]

Positions-nonempty : (n : ℕ) (r w : ℤ) → Positions n r w → 0 < n
Positions-nonempty n (pos r) (pos w) p = omega arith
Positions-nonempty n (pos r) (negsuc zero) p = omega arith
Positions-nonempty n (pos r) (negsuc (suc k)) p = absurd p
Positions-nonempty n (negsuc zero) (negsuc zero) p = p
Positions-nonempty n (negsuc zero) (negsuc (suc k)) p = absurd p
Positions-nonempty n (negsuc zero) (pos w) p = absurd p
Positions-nonempty n (negsuc (suc k)) w p = absurd p

reset-Holds :
    (size : ℕ) (q : List ℕ) (buf : SequentialBuffer)
    → Holds size q buf
    → Holds size [] (reset buf false)
unfolding reset
reset-Holds size q buf (mem, r, w, es, el, p, eq) = (
  mem,
  pos 0,
  pos 0,
  ap (λ b. reset b false) es,
  el,
  (omega arith, omega arith, Positions-nonempty size r w p),
  refl,
)

-- The bytes are fewer than a header, or fewer than the header says.
abbrev pub IsIncomplete : ℤ → List ℕ → Type 0
IsIncomplete len q =
    (ltb_ℤ (pos (length q)) len || ltb_ℤ (pos (length q)) (pos proto_header_size)) ≡ true

frame-incomplete :
    (big : Bool) (now : ℤ) (size fd : ℕ) (q : List ℕ) (conn : NetConnection)
    (buf : SequentialBuffer) (len : ℤ) (times : Timestamps)
    → conn.fd ≡ pos fd
    → Holds size q buf
    → offset_command + 4 ≤ length q
    → read_field big q offset_length 4 ≡ some len
    → IsIncomplete len q
    → (buf' : SequentialBuffer) × (frame big now conn buf times
        ≡ some (incomplete now conn.peer_name len buf' times))
      × Holds size q buf'
frame-incomplete big now size fd q conn buf len times ef hold h el short =
    let (command, buf', ec, e, hold') =
      frame_lem big now size fd q conn buf len times ef hold h el in
    (buf', e ∙ rw short refl, hold')

-- When the error began, if it has not been recorded before.
abbrev pub began : ℤ → Timestamps → Text → ℤ
began now times name =
    if start_of_error times name ==ℤ pos 0 then now else start_of_error times name

-- `incomplete` in terms of its two tests.
abbrev decided : ℤ → Text → SequentialBuffer → Timestamps → Bool → Bool → Framed
decided now name buf times late big_one = record {
  outcome = stops (
      ca_ret (
        if late
        then operation_timed_out
        else if big_one
        then length_too_big
        else resource_not_available));
  handled_len = pos 0;
  in_buf = if late || big_one then reset buf false else buf;
  timestamps =
      modify name (λ t. if late || big_one then pos 0 else began now times name)
        (with_entry times name);
}

incomplete_eq :
    (now : ℤ) (name : Text) (len : ℤ) (buf : SequentialBuffer) (times : Timestamps)
    (late big_one : Bool)
    → leb_ℤ max_error_seconds (now -ℤ began now times name) ≡ late
    → ltb_ℤ (pos buf.total_size) len ≡ big_one
    → incomplete now name len buf times ≡ decided now name buf times late big_one
unfolding incomplete
incomplete_eq now name len buf times late big_one e f = λ i. decided now name buf times (e i) (f i)

-- When 16 bytes or more of an incomplete packet have arrived, so that its length and command can be read,
-- and its first sight was five seconds ago or more, its bytes are thrown away and the time is cleared. The
-- descriptor of the connection is valid.
pub incomplete_times_out :
    (big : Bool) (now : ℤ) (size fd : ℕ) (q : List ℕ) (conn : NetConnection)
    (buf : SequentialBuffer) (len : ℤ) (times : Timestamps)
    → conn.fd ≡ pos fd
    → Holds size q buf
    → offset_command + 4 ≤ length q
    → read_field big q offset_length 4 ≡ some len
    → IsIncomplete len q
    → leb_ℤ max_error_seconds (now -ℤ began now times conn.peer_name) ≡ true
    → (f : Framed) × (frame big now conn buf times ≡ some f)
      × (f.outcome ≡ stops (ca_ret operation_timed_out))
      × Holds size [] f.in_buf
      × (find conn.peer_name f.timestamps ≡ some (pos 0))
incomplete_times_out big now size fd q conn buf len times ef hold h el short late =
    let (buf', e, hold') =
      frame-incomplete big now size fd q conn buf len times ef hold h el short in
    let name = conn.peer_name in
    let big_one = ltb_ℤ (pos buf'.total_size) len in
    (
      decided now name buf' times true big_one,
      e ∙ ap some (incomplete_eq now name len buf' times true big_one late refl),
      refl,
      reset-Holds size q buf' hold',
      find-with_entry times name (λ t. pos 0),
    )

-- The time that is recorded for an incomplete packet, not zero, is not cleared when the packet is complete,
-- alone in its buffer, and handed on from a validated connection with a valid descriptor: if the next
-- incomplete packet of that connection comes five seconds or more after the time recorded, and 16 bytes or
-- more of it have arrived, it is thrown away at first sight.
pub stale_time_drops :
    (big : Bool) (now later : ℤ) (size fd : ℕ) (p rest : List ℕ) (conn : NetConnection)
    (buf next : SequentialBuffer) (len t : ℤ) (times : Timestamps)
    → conn.fd ≡ pos fd
    → conn.is_validated ≡ true
    → find conn.peer_name times ≡ some t
    → (t ==ℤ pos 0) ≡ false
    → leb_ℤ max_error_seconds (later -ℤ t) ≡ true
    → IsPacket big p
    → Holds size p buf
    → Holds size rest next
    → offset_command + 4 ≤ length rest
    → read_field big rest offset_length 4 ≡ some len
    → IsIncomplete len rest
    → (f : Framed) × (g : Framed) × (frame big now conn buf times ≡ some f)
      × (f.outcome ≡ goes_on (pos (length p)))
      × (frame big later conn next f.timestamps ≡ some g)
      × (g.outcome ≡ stops (ca_ret operation_timed_out))
      × Holds size [] g.in_buf
stale_time_drops big now later size fd p rest conn buf next len t times ef ev et nz late packet hold
      hold2 h el short =
    let (buf', e, _) =
      frame-packet big now size fd p [] conn buf times ef ev packet
        (subst (λ l. Holds size l buf) (sym (append-nil p)) hold) in
    let kept : start_of_error times conn.peer_name ≡ t = rw (et, start_of_error) refl in
    let since : began later times conn.peer_name ≡ t = rw (kept, began) (rw nz refl) in
    let late' : leb_ℤ max_error_seconds (later -ℤ began later times conn.peer_name) ≡ true =
      rw since late in
    let (g, eg, og, hg, _) =
      incomplete_times_out big later size fd rest conn next len times ef hold2 h el short late' in
    (
      record {
        outcome = goes_on (pos (length p));
        handled_len = pos (length p);
        in_buf = buf';
        timestamps = times;
      },
      g,
      e,
      refl,
      eg,
      og,
      hg,
    )
