-- ===== src/Network.antt =====
-- Connections over sockets: code/libcpp_assistant/src/native/net_common.cpp, net_poller.cpp, tcp_base.cpp,
-- tcp_client.cpp and tcp_server.cpp, with their headers in include/cpp_assistant/native. What the calls
-- of the system give is an argument of each function.
pub mod Fragments
pub mod Transfer
pub mod Sending
pub mod Delivery
pub mod Arriving
pub mod Poller
pub mod Watching
pub mod Monitored
pub mod Peers
mod Examples
use cpp_assistant.Prelude.{ℕ, zero, suc, ◌/◌, ◌%◌, ◌^◌, Bool, Option, ℤ, pos, negsuc, ◌==◌}
use cpp_assistant.Strings.{Text}
use cpp_assistant.SequentialBuffer.{SequentialBuffer}

-- The statuses of a connection are bits.
abbrev pub status_connecting : ℕ
status_connecting = 1

abbrev pub status_connected : ℕ
status_connected = 2

abbrev pub status_disconnecting : ℕ
status_disconnecting = 4

abbrev pub status_disconnected : ℕ
status_disconnected = 8

abbrev pub status_broken : ℕ
status_broken = 16

abbrev pub status_listening : ℕ
status_listening = 32

-- `0 != (flag & status)`, where the flag is one bit.
abbrev pub has_status : ℕ → ℕ → Bool
has_status flag status = status / flag % 2 == 1

abbrev pub invalid_sock_fd : ℤ
invalid_sock_fd = negsuc 0

-- `net_connection`; `owner`, which the library only sets to null, is left out.
pub record NetConnection : Type 0 where
  pub fd : ℤ
  pub self_ip : Text
  pub self_port : ℕ
  pub self_name : Text
  pub peer_ip : Text
  pub peer_port : ℕ
  pub peer_name : Text
  pub conn_status : ℕ
  pub is_blocking : Bool
  pub is_validated : Bool
  pub send_buf : Option SequentialBuffer
  pub recv_buf : Option SequentialBuffer
  pub last_op_time : ℤ

-- `-errno`.
abbrev pub negated : ℕ → ℤ
negated zero = pos 0
negated (suc n) = negsuc n

abbrev pub eintr : ℕ
eintr = 4

-- EAGAIN, which is EWOULDBLOCK on Linux.
abbrev pub eagain : ℕ
eagain = 11

-- What a call of the system gives: its result, or `errno`.
pub data Called : Type 0 where
  gives : ℕ → Called
  fails : ℕ → Called
