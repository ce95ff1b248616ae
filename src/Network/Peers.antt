-- ===== src/Network/Peers.antt =====
-- The peers of tcp_base.cpp, the acceptance of tcp_server.cpp, and net_common.cpp. Connections are nodes that are known by
-- their address; the calls of `close` are kept in a list, the last one first. A `none` result is an access to a node that has been freed.
pub mod Entries
pub mod Accepting
mod Examples
use cpp_assistant.Prelude.{
  ℕ, Bool, true, false, not, ◌&&◌, ◌||◌, Option, none, some, List, [], ◌∷◌, ℤ, pos, negsuc, ltb_ℤ,
  leb_ℤ, ◌==ℤ◌, ◌==◌, if◌then◌else◌, ◌>>=◌,
}
use cpp_assistant.Strings.{Text}
use cpp_assistant.ReturnCode.{
  ca_ret, ca_ret_ok, resource_not_available, memory_alloc_failed, object_already_exists,
  object_does_not_exist,
}
use cpp_assistant.SequentialBuffer.{SequentialBuffer, init}
use cpp_assistant.SequentialBuffer.Storage.{create}
use cpp_assistant.Network.{
  NetConnection, status_connected, status_disconnected, status_broken, invalid_sock_fd, negated,
  Called, gives, fails,
}
use cpp_assistant.Network.Poller.{Poller, HandleType, add, del, handle_monitored_connection}

-- m_peers, a map from descriptors.
abbrev pub PeerMap : Type 0
PeerMap = List (ℤ × Option ℕ)

unfoldable pub lookup_fd : ℤ → PeerMap → Option (Option ℕ)
lookup_fd fd [] = none
lookup_fd fd ((f, node) ∷ m) = let rest = lookup_fd fd m in if f ==ℤ fd then some node else rest

unfoldable pub erase_fd : ℤ → PeerMap → PeerMap
erase_fd fd [] = []
erase_fd fd ((f, node) ∷ m) = let rest = erase_fd fd m in if f ==ℤ fd then m else (f, node) ∷ rest

-- `it->second = conn`.
unfoldable pub replace_fd : ℤ → ℕ → PeerMap → PeerMap
replace_fd fd at [] = []
replace_fd fd at ((f, node) ∷ m) =
    let rest = replace_fd fd at m in if f ==ℤ fd then (f, some at) ∷ m else (f, node) ∷ rest

abbrev pub Nodes : Type 0
Nodes = List (ℕ × NetConnection)

unfoldable pub node_at : ℕ → Nodes → Option NetConnection
node_at at [] = none
node_at at ((a, conn) ∷ m) = let rest = node_at at m in if a == at then some conn else rest

unfoldable pub free_node : ℕ → Nodes → Nodes
free_node at [] = []
free_node at ((a, conn) ∷ m) = let rest = free_node at m in if a == at then m else (a, conn) ∷ rest

pub record Peers : Type 0 where
  pub peers : PeerMap
  pub nodes : Nodes
  pub closed : List ℤ
  pub poller : Poller
  pub listening_conn : Option NetConnection

abbrev pub close_fd : ℤ → List ℤ → List ℤ
close_fd (pos fd) closed = pos fd ∷ closed
close_fd (negsuc n) closed = closed

unfoldable pub destroy_net_connection : Peers → ℕ → Option Peers
destroy_net_connection st at = do
  conn ← node_at at st.nodes
  some (record st { nodes = free_node at st.nodes; closed = close_fd conn.fd st.closed })

-- No node for a null pointer.
abbrev pub find_peer : Peers → ℤ → Option ℕ
find_peer st fd = elim (lookup_fd fd st.peers) [ none ↦ none | some node ↦ node ]

-- `add_connection` from the result of the search in the map on.
unfoldable pub add_found : Peers → ℕ → NetConnection → Option (Option ℕ) → Option (ℤ × Peers)
add_found st at conn none = some (ca_ret_ok, record st { peers = (conn.fd, some at) ∷ st.peers })
add_found st at conn (some none) =
    some (ca_ret_ok, record st { peers = replace_fd conn.fd at st.peers })
add_found st at conn (some (some old)) = do
  found ← node_at old st.nodes
  st' ← destroy_net_connection st old
  some (
      if found.conn_status == status_broken || found.conn_status == status_disconnected
      then (ca_ret_ok, record st' { peers = replace_fd conn.fd at st.peers })
      else (ca_ret object_already_exists, st))

unfoldable pub add_connection : Peers → ℕ → Option (ℤ × Peers)
add_connection st at = do
  conn ← node_at at st.nodes
  add_found st at conn (lookup_fd conn.fd st.peers)

-- `delete_connection` from the result of the search on; `ctl` is what `epoll_ctl` gives.
unfoldable pub delete_found :
    Peers → NetConnection → Called → Option (Option ℕ) → Option (ℤ × Peers)
delete_found st conn ctl none = some (ca_ret_ok, st)
delete_found st conn ctl (some none) =
    some (ca_ret_ok, record st { peers = erase_fd conn.fd st.peers })
delete_found st conn ctl (some (some current)) = do
  st' ←
      destroy_net_connection
        (record st { poller = (handle_monitored_connection st.poller (some conn) del ctl).1 })
        current
  some (ca_ret_ok, record st' { peers = erase_fd conn.fd st.peers })

unfoldable pub delete_connection : Peers → ℕ → Called → Option (ℤ × Peers)
delete_connection st at ctl = do
  conn ← node_at at st.nodes
  delete_found st conn ctl (lookup_fd conn.fd st.peers)

-- `shutdown_connection`, by the descriptor.
unfoldable pub shutdown_connection : Peers → ℤ → Called → Option (ℤ × Peers)
shutdown_connection st fd ctl = elim (find_peer st fd) [
  | none ↦ some (ca_ret object_does_not_exist, st)
  | some at ↦ delete_connection st at ctl
]

-- `new buffer(size)`: no buffer for a size that is not positive; the result says whether there is a block.
abbrev pub new_buffer : ℤ → Bool → Option SequentialBuffer
new_buffer size ok = if leb_ℤ size (pos 0) then none else some (create init size ok).1

abbrev pub buffer_ok : Option SequentialBuffer → Bool
buffer_ok none = true
buffer_ok (some buf) = elim buf.block [ none ↦ false | some block ↦ true ]

-- What `init_net_connection` sets.
abbrev pub init_net_connection : NetConnection
init_net_connection = record {
  fd = invalid_sock_fd;
  self_ip = [];
  self_port = 0;
  self_name = [];
  peer_ip = [];
  peer_port = 0;
  peer_name = [];
  conn_status = status_disconnected;
  is_blocking = true;
  is_validated = false;
  send_buf = none;
  recv_buf = none;
  last_op_time = pos 0;
}

-- The three allocations: of the node, and of the two blocks.
unfoldable pub create_net_connection : ℤ → ℤ → Bool → Bool → Bool → Option NetConnection
create_net_connection send_buf_size recv_buf_size node_ok send_ok recv_ok =
    let sends = new_buffer send_buf_size send_ok in
    let receives = new_buffer recv_buf_size recv_ok in
    if node_ok && buffer_ok sends && buffer_ok receives
    then some (record init_net_connection { send_buf = sends; recv_buf = receives })
    else none

-- What `accept` and `getsockname` give besides the descriptor.
pub record Address : Type 0 where
  pub self_ip : Text
  pub self_port : ℕ
  pub peer_ip : Text
  pub peer_port : ℕ

abbrev pub accepted : NetConnection → ℕ → Address → Bool → NetConnection
accepted conn fd address is_nonblocking = record conn {
  fd = pos fd;
  self_ip = address.self_ip;
  self_port = address.self_port;
  peer_ip = address.peer_ip;
  peer_port = address.peer_port;
  conn_status = status_connected;
  is_blocking = not is_nonblocking;
}

-- The part behind ACCEPT_FAILED, when there is a node.
unfoldable pub accept_failed : Peers → ℤ → ℕ → ℕ → Called → Option (ℤ × Peers)
accept_failed st ret at fd ctl = do
  (deleted, st') ← delete_connection st at ctl
  some (ret, record st' { closed = pos fd ∷ st'.closed })

-- From `add_monitored_connection` on. `nonblocking` is what `set_nonblocking` returns.
unfoldable pub register_accepted :
    Peers → ℕ → NetConnection → ℕ → Bool → Called → ℤ → Called → Option (ℤ × Peers)
register_accepted st at conn fd is_nonblocking ctl nonblocking ctl_del =
    let (monitored, poller) = handle_monitored_connection st.poller (some conn) add ctl in
    let st1 = record st { nodes = (at, conn) ∷ st.nodes; poller = poller } in
    if ltb_ℤ monitored (pos 0) then accept_failed st1 monitored at fd ctl_del else (do
      (added, st2) ← add_connection st1 at
      if ltb_ℤ added (pos 0)
          then accept_failed st2 added at fd ctl_del
          else if is_nonblocking && ltb_ℤ nonblocking (pos 0)
          then accept_failed st2 nonblocking at fd ctl_del
          else some (pos fd, st2))

-- `made` is what `create_net_connection` gives, and `at` the address of the node.
unfoldable pub accept_new_connection :
    Peers
    → Bool
    → Called
    → Address
    → Option NetConnection
    → ℕ
    → Called
    → ℤ
    → Called
    → Option (ℤ × Peers)
accept_new_connection st is_nonblocking accepting address made at ctl nonblocking ctl_del =
    elim st.listening_conn [
      | none ↦ some (ca_ret resource_not_available, st)
      | some listening ↦ elim accepting [
        | fails e ↦ some (negated e, st)
        | gives fd ↦ elim made [
          | none ↦ some (ca_ret memory_alloc_failed, record st { closed = pos fd ∷ st.closed })
          | some conn ↦
              register_accepted st at (accepted conn fd address is_nonblocking) fd is_nonblocking
                ctl nonblocking ctl_del
        ]
      ]
    ]
