-- ===== src/Network/Delivery.antt =====
-- What a connection sends and receives, in terms of the queues that its buffers hold.
use cpp_assistant.Prelude.{
  ℕ, ◌+◌, ◌≤◌, ◌<◌, ◌≡◌, refl, true, false, Option, none, some, List, [], ◌∷◌, ◌++◌, length, take,
  drop, ℤ, pos, arith, ap, ◌∙◌, subst, min, leb_ℤ, ltb_ℤ, take_all, drop_all, load,
}
use cpp_assistant.ReturnCode.{ca_ret, resource_not_available}
use cpp_assistant.SequentialBuffer.{
  SequentialBuffer, data_size, get_read_pointer, move_read_pointer,
}
use cpp_assistant.SequentialBuffer.Layout.{data_size-Holds, Holds}
use cpp_assistant.SequentialBuffer.ReadPointer.{get_read_pointer_lem, move_read_pointer_dequeues}
use cpp_assistant.Network.{NetConnection, has_status, status_connecting, eagain}
use cpp_assistant.Network.Fragments.{SendCall, sent, send_error, Sending, send_loop, send_fragment}
use cpp_assistant.Network.Transfer.{
  is_down, Transferred, stopped, send_held, send_buffer, send_from_connection, when_connected,
}
use cpp_assistant.Network.Sending.{send_loop-once, send_loop-twice}

-- Connected, and neither connecting nor disconnecting.
abbrev pub IsUp : NetConnection → Type 0
IsUp conn =
    (is_down conn.conn_status ≡ false) × (has_status status_connecting conn.conn_status ≡ false)

send_fragment-loop :
    (fd : ℕ) (q : List ℕ) (calls : List SendCall)
    → 0 < length q
    → send_fragment (pos fd) (some q) (pos (length q)) calls ≡ send_loop calls q 0 []
unfolding send_fragment
send_fragment-loop fd q calls h =
    let whole : take (length q) q ≡ q = take_all (length q) q (omega arith) in ground (arith, whole)

send_held_eq :
    (conn : NetConnection) (fd : ℕ) (buf buf' : SequentialBuffer) (at n : ℕ) (moved : ℤ)
    (q : List ℕ) (calls : List SendCall) (now : ℤ) (s : Sending)
    → conn.fd ≡ pos fd
    → load buf.block (pos at) (pos (length q)) ≡ some q
    → data_size buf ≡ pos (length q)
    → 0 < length q
    → send_loop calls q 0 [] ≡ some s
    → s.ret ≡ pos n
    → 0 < n
    → move_read_pointer buf (pos n) ≡ some (moved, buf')
    → send_held conn buf (pos at) calls now
      ≡ some (record {
        ret = pos n;
        wire = s.wire;
        conn = record conn { send_buf = some buf'; last_op_time = now };
      })
unfolding send_held
send_held_eq conn fd buf buf' at n moved q calls now s ef el ed h0 es er hn em =
    let looped : send_fragment conn.fd (some q) (pos (length q)) calls ≡ some s =
      ap (λ f. send_fragment f (some q) (pos (length q)) calls) ef
      ∙ send_fragment-loop fd q calls h0
      ∙ es in
    let positive : ltb_ℤ (pos 0) (pos n) ≡ true = ground arith in
    simp (ed, el, looped, er, positive, em)

send_buffer_eq :
    (conn : NetConnection) (buf buf' : SequentialBuffer) (at n : ℕ) (calls : List SendCall)
    (now : ℤ)
    → get_read_pointer buf ≡ some (some (pos at), buf')
    → data_size buf' ≡ pos n
    → 0 < n
    → send_buffer conn buf calls now
      ≡ send_held (record conn { send_buf = some buf' }) buf' (pos at) calls now
unfolding send_buffer
send_buffer_eq conn buf buf' at n calls now eg ed h0 =
    let some_left : leb_ℤ (pos n) (pos 0) ≡ false = ground arith in simp (eg, ed, some_left)

send_from_connection_eq :
    (conn : NetConnection) (buf : SequentialBuffer) (calls : List SendCall) (now : ℤ)
    → IsUp conn
    → conn.send_buf ≡ some buf
    → send_from_connection conn calls now ≡ send_buffer conn buf calls now
unfolding send_from_connection
send_from_connection_eq conn buf calls now (u, v) eb =
    ap
      (λ o. elim o as (λ (x : Option SequentialBuffer). Option Transferred) [
        | none ↦ stopped (ca_ret resource_not_available) conn
        | some b ↦ when_connected conn (send_buffer conn b calls now)
      ])
      eb
    ∙ simp (u, v)

-- What a call that sends `n` bytes does: the oldest bytes leave the buffer.
send_from_connection-Holds :
    (size fd n : ℕ) (q : List ℕ) (conn : NetConnection) (buf : SequentialBuffer)
    (calls : List SendCall) (now : ℤ) (s : Sending)
    → IsUp conn
    → conn.fd ≡ pos fd
    → conn.send_buf ≡ some buf
    → Holds size q buf
    → length q < size
    → 0 < length q
    → send_loop calls q 0 [] ≡ some s
    → s.ret ≡ pos n
    → 0 < n
    → (buf' : SequentialBuffer) × (send_from_connection conn calls now
        ≡ some (record {
          ret = pos n;
          wire = s.wire;
          conn = record conn { send_buf = some buf'; last_op_time = now };
        }))
      × Holds size (drop (min n (length q)) q) buf'
send_from_connection-Holds size fd n q conn buf calls now s up ef eb hold lt h0 es er hn =
    let (at, buf1, eg, el, hold1) = get_read_pointer_lem size q buf hold in
    let (buf2, em, hold2) = move_read_pointer_dequeues size n q buf1 hold1 lt hn in
    let ed = data_size-Holds size q buf1 hold1 in
    (
      buf2,
      send_from_connection_eq conn buf calls now up eb
          ∙ send_buffer_eq conn buf buf1 at (length q) calls now eg ed h0
          ∙ send_held_eq (record conn { send_buf = some buf1 }) fd buf1 buf2 at n
              (pos (min n (length q))) q calls now s ef el ed h0 es er hn em,
      hold2,
    )

-- A connection that is up sends from a buffer that is not full, and the socket takes `n` bytes and then
-- no more: the oldest `n` bytes reach the peer, and the buffer keeps the others.
pub send_from_connection_dequeues :
    (size fd n : ℕ) (q : List ℕ) (conn : NetConnection) (buf : SequentialBuffer)
    (calls : List SendCall) (now : ℤ)
    → IsUp conn
    → conn.fd ≡ pos fd
    → conn.send_buf ≡ some buf
    → Holds size q buf
    → length q < size
    → 0 < n
    → n ≤ length q
    → (buf' : SequentialBuffer) × (send_from_connection conn
          (sent n ∷ send_error eagain ∷ calls)
          now
        ≡ some (record {
          ret = pos n;
          wire = take n q;
          conn = record conn { send_buf = some buf'; last_op_time = now };
        }))
      × Holds size (drop n q) buf'
send_from_connection_dequeues size fd n q conn buf calls now up ef eb hold lt hn le =
    let (rest, e) = send_loop-once q n calls le in
    let (buf', es, hold') =
      send_from_connection-Holds size fd n q conn buf (sent n ∷ send_error eagain ∷ calls) now _ up
        ef eb hold lt (omega arith) e refl hn in
    let all : min n (length q) ≡ n = omega arith in
    (buf', es, subst (λ k. Holds size (drop k q) buf') all hold')

-- Where the socket takes a part of the bytes of a buffer that is not full, and at the next call at
-- least as many as are left, the second call starts from the oldest byte again: the peer gets the first
-- `n` bytes and then the first `m`, and none behind them, while all bytes leave the buffer.
pub partial_send_repeats :
    (size fd n m : ℕ) (q : List ℕ) (conn : NetConnection) (buf : SequentialBuffer)
    (calls : List SendCall) (now : ℤ)
    → IsUp conn
    → conn.fd ≡ pos fd
    → conn.send_buf ≡ some buf
    → Holds size q buf
    → length q < size
    → 0 < n
    → n < length q
    → length q ≤ n + m
    → (buf' : SequentialBuffer) × (send_from_connection conn (sent n ∷ sent m ∷ calls) now
        ≡ some (record {
          ret = pos (n + m);
          wire = take n q ++ take m q;
          conn = record conn { send_buf = some buf'; last_op_time = now };
        }))
      × Holds size [] buf'
partial_send_repeats size fd n m q conn buf calls now up ef eb hold lt hn ln le =
    let (buf', es, hold') =
      send_from_connection-Holds size fd (n + m) q conn buf (sent n ∷ sent m ∷ calls) now _ up ef eb
        hold lt (omega arith) (send_loop-twice q n m calls ln le) refl (omega arith) in
    let none_left : drop (min (n + m) (length q)) q ≡ [] =
      drop_all (min (n + m) (length q)) q (omega arith) in
    (buf', es, subst (λ l. Holds size l buf') none_left hold')
