-- ===== src/Network/Peers/Entries.antt =====
-- Lookups and removals of the first entry, in the map of the peers and in the nodes of net_common.cpp.
use cpp_assistant.Prelude.{ℕ, ◌≡◌, refl, true, Option, some, ◌∷◌, pos, ◌==ℤ◌, ◌==◌, arith}
use cpp_assistant.Network.{NetConnection}
use cpp_assistant.Network.Peers.{PeerMap, lookup_fd, erase_fd, Nodes, node_at, free_node}

same_fd : (fd : ℕ) → (pos fd ==ℤ pos fd) ≡ true
same_fd fd = ground arith

same_at : (at : ℕ) → (at == at) ≡ true
same_at at = ground arith

pub lookup_first :
    (fd : ℕ) (held_at : Option ℕ) (m : PeerMap)
    → lookup_fd (pos fd) ((pos fd, held_at) ∷ m) ≡ some held_at
unfolding lookup_fd
lookup_first fd held_at m = rw (same_fd fd) refl

pub erase_first :
    (fd : ℕ) (held_at : Option ℕ) (m : PeerMap) → erase_fd (pos fd) ((pos fd, held_at) ∷ m) ≡ m
unfolding erase_fd
erase_first fd held_at m = rw (same_fd fd) refl

pub node_first :
    (at : ℕ) (conn : NetConnection) (m : Nodes) → node_at at ((at, conn) ∷ m) ≡ some conn
unfolding node_at
node_first at conn m = rw (same_at at) refl

pub free_first : (at : ℕ) (conn : NetConnection) (m : Nodes) → free_node at ((at, conn) ∷ m) ≡ m
unfolding free_node
free_first at conn m = rw (same_at at) refl
