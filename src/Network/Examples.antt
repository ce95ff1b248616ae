-- ===== src/Network/Examples.antt =====
-- A connection whose buffers hold two bytes, and a poller with one connection.
use cpp_assistant.Prelude.{
  ℕ, ◌≡◌, ◌≤◌, ◌+◌, refl, arith, true, false, some, List, [], ◌∷◌, ◌++◌, pos, take, drop, length,
  leb_ℤ,
}
use cpp_assistant.SequentialBuffer.{SequentialBuffer, get_write_pointer, has_overflown_pointer}
use cpp_assistant.SequentialBuffer.Layout.{held, Holds}
use cpp_assistant.Network.{NetConnection, status_connected, eagain, gives}
use cpp_assistant.Network.Fragments.{
  sent, send_error, Sending, send_fragment, received, recv_error, Receiving, recv_fragment,
}
use cpp_assistant.Network.Transfer.{send_from_connection, recv_to_connection}
use cpp_assistant.Network.Sending.{Reported, send_fragment_lem}
use cpp_assistant.Network.Delivery.{send_from_connection_dequeues, partial_send_repeats}
use cpp_assistant.Network.Arriving.{recv_to_connection_enqueues, partial_recv_overwrites}
use cpp_assistant.Network.Poller.{
  Poller, set_timeout, create_poller, new_poller, add, handle_monitored_connection,
}
use cpp_assistant.Network.Watching.{watches, ctl_add, poller_created, handled}
use cpp_assistant.Network.Monitored.{count_is_watched}

-- Three bytes, of which the second call takes the last two.
send_fragment_lem_example :
    (s : Sending) × (send_fragment
        (pos 3)
        (some (1 ∷ 2 ∷ 3 ∷ []))
        (pos 3)
        (sent 1 ∷ sent 2 ∷ send_error eagain ∷ [])
      ≡ some s)
    × Reported [] (1 ∷ 2 ∷ 3 ∷ []) (sent 1 ∷ sent 2 ∷ send_error eagain ∷ []) s
send_fragment_lem_example =
    send_fragment_lem 3 3 (1 ∷ 2 ∷ 3 ∷ []) (sent 1 ∷ sent 2 ∷ send_error eagain ∷ []) (omega arith)
      (omega arith) (omega arith, omega arith, (omega arith, omega arith, tt)) (omega arith)

abbrev cells : List ℕ
cells = 10 ∷ 20 ∷ 30 ∷ 40 ∷ []

-- The bytes 20 and 30.
abbrev half_full : SequentialBuffer
half_full = held cells (pos 1) (pos 3)

half_full-Holds : Holds 4 (20 ∷ 30 ∷ []) half_full
half_full-Holds = (cells, pos 1, pos 3, refl, refl, omega arith, refl)

abbrev link : NetConnection
link = record {
  fd = pos 5;
  self_ip = [];
  self_port = 0;
  self_name = [];
  peer_ip = [];
  peer_port = 0;
  peer_name = [];
  conn_status = status_connected;
  is_blocking = false;
  is_validated = true;
  send_buf = some half_full;
  recv_buf = some half_full;
  last_op_time = pos 0;
}

send_from_connection_dequeues_example :
    (buf' : SequentialBuffer) × (send_from_connection link (sent 1 ∷ send_error eagain ∷ []) (pos 9)
      ≡ some (record {
        ret = pos 1;
        wire = take 1 (20 ∷ 30 ∷ []);
        conn = record link { send_buf = some buf'; last_op_time = pos 9 };
      }))
    × Holds 4 (drop 1 (20 ∷ 30 ∷ [])) buf'
send_from_connection_dequeues_example =
    send_from_connection_dequeues 4 5 1 (20 ∷ 30 ∷ []) link half_full [] (pos 9) (refl, refl) refl
      refl half_full-Holds (omega arith) (omega arith) (omega arith)

partial_send_repeats_example :
    (buf' : SequentialBuffer) × (send_from_connection link (sent 1 ∷ sent 1 ∷ []) (pos 9)
      ≡ some (record {
        ret = pos (1 + 1);
        wire = take 1 (20 ∷ 30 ∷ []) ++ take 1 (20 ∷ 30 ∷ []);
        conn = record link { send_buf = some buf'; last_op_time = pos 9 };
      }))
    × Holds 4 [] buf'
partial_send_repeats_example =
    partial_send_repeats 4 5 1 1 (20 ∷ 30 ∷ []) link half_full [] (pos 9) (refl, refl) refl refl
      half_full-Holds (omega arith) (omega arith) (omega arith) (omega arith)

recv_to_connection_enqueues_example :
    (buf' : SequentialBuffer) × (recv_to_connection link
        (received (50 ∷ []) ∷ recv_error eagain ∷ [])
        (pos 9)
      ≡ some (record {
        ret = pos (length {A = ℕ} (50 ∷ []));
        wire = [];
        conn = record link { recv_buf = some buf'; last_op_time = pos 9 };
      }))
    × Holds 4 ((20 ∷ 30 ∷ []) ++ (50 ∷ [])) buf'
unfolding get_write_pointer has_overflown_pointer
recv_to_connection_enqueues_example =
    recv_to_connection_enqueues 4 5 3 50 [] (20 ∷ 30 ∷ []) link half_full half_full [] (pos 9)
      (refl, refl) refl refl half_full-Holds (omega arith) refl (omega arith)

partial_recv_overwrites_example :
    (r : Receiving) × (recv_fragment
        (pos 5)
        (some cells)
        (pos 3)
        (received (1 ∷ []) ∷ received (2 ∷ 3 ∷ []) ∷ [])
      ≡ some r)
    × (r.ret ≡ pos (length {A = ℕ} (1 ∷ []) + length {A = ℕ} (2 ∷ 3 ∷ [])))
    × (take (length {A = ℕ} (2 ∷ 3 ∷ [])) r.memory ≡ 2 ∷ 3 ∷ [])
partial_recv_overwrites_example =
    partial_recv_overwrites 5 3 1 2 cells [] (3 ∷ []) [] (omega arith) (omega arith) (omega arith)
      (omega arith)

abbrev fresh_poller : Poller
fresh_poller = new_poller (pos 2) (pos 10) (gives 4) true

not_full : leb_ℤ (pos fresh_poller.max_count) fresh_poller.current_count ≡ false
unfolding create_poller set_timeout
not_full = refl

not_watched : watches [] (pos 5) ≡ false
unfolding watches
not_watched = refl

count_is_watched_example :
    let p = (handle_monitored_connection fresh_poller (some link) add (gives 0)).1 in
    (p.current_count ≡ pos (length (pos 5 ∷ []))) × (length (pos 5 ∷ []) ≤ p.max_count)
count_is_watched_example =
    count_is_watched (handle_monitored_connection fresh_poller (some link) add (gives 0)).1
      (pos 5 ∷ [])
      (handled (poller_created (pos 2) (pos 10) (gives 4) true) link add (gives 0) not_full
        (ctl_add [] (pos 5) not_watched))
