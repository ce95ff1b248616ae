-- ===== src/Network/Peers/Examples.antt =====
-- A server that accepts a first connection.
use cpp_assistant.Prelude.{◌≡◌, refl, true, none, some, [], ◌∷◌, pos, negsuc}
use cpp_assistant.ReturnCode.{ca_ret_ok}
use cpp_assistant.Network.{gives}
use cpp_assistant.Network.Poller.{Poller, init_poller}
use cpp_assistant.Network.Peers.{
  Peers, lookup_fd, node_at, find_peer, shutdown_connection, Address, accepted,
  accept_new_connection, init_net_connection,
}
use cpp_assistant.Network.Peers.Accepting.{accept_then_shutdown, failed_accept_closes_twice}

abbrev watching_listener : Poller
watching_listener = record init_poller {
  epoll_fd = pos 3;
  max_count = 8;
  current_count = pos 1;
  has_holder = true;
}

abbrev listener : Peers
listener = record {
  peers = [];
  nodes = [];
  closed = [];
  poller = watching_listener;
  listening_conn = some (record init_net_connection { fd = pos 4 });
}

abbrev from_peer : Address
from_peer = record { self_ip = []; self_port = 7000; peer_ip = []; peer_port = 40000 }

no_peer : lookup_fd (pos 6) [] ≡ none
unfolding lookup_fd
no_peer = refl

accept_then_shutdown_example :
    (st1 : Peers) × (st2 : Peers) × (accept_new_connection listener true
        (gives 6)
        from_peer
        (some init_net_connection)
        1
        (gives 0)
        (pos 0)
        (gives 0)
      ≡ some (pos 6, st1))
    × (find_peer st1 (pos 6) ≡ some 1)
    × (node_at 1 st1.nodes ≡ some (accepted init_net_connection 6 from_peer true))
    × (st1.poller.current_count ≡ pos 2)
    × (shutdown_connection st1 (pos 6) (gives 0) ≡ some (ca_ret_ok, st2))
    × (st2.peers ≡ [])
    × (st2.nodes ≡ [])
    × (st2.closed ≡ pos 6 ∷ [])
    × (st2.poller.current_count ≡ pos 1)
accept_then_shutdown_example =
    accept_then_shutdown listener 1 6 init_net_connection from_peer true 0 0 (pos 0) (gives 0)
      (record init_net_connection { fd = pos 4 }) 1 refl no_peer refl refl refl

failed_accept_closes_twice_example :
    (st1 : Peers) × (accept_new_connection listener true
        (gives 6)
        from_peer
        (some init_net_connection)
        1
        (gives 0)
        (negsuc 8)
        (gives 0)
      ≡ some (negsuc 8, st1))
    × (st1.closed ≡ pos 6 ∷ pos 6 ∷ [])
failed_accept_closes_twice_example =
    failed_accept_closes_twice listener 1 6 init_net_connection from_peer true 0 (negsuc 8)
      (gives 0) (record init_net_connection { fd = pos 4 }) refl refl no_peer refl refl
