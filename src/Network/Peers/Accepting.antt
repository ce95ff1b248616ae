-- ===== src/Network/Peers/Accepting.antt =====
-- Connections that are accepted, and shut down again.
use cpp_assistant.Prelude.{
  ℕ, suc, pos-+ℤ, ◌-ℤ◌, ◌≡◌, refl, ap, ◌∙◌, Bool, true, false, ◌&&◌, Option, none, some, ◌∷◌, ℤ,
  pos, ◌+ℤ◌, ltb_ℤ, leb_ℤ, arith, if◌then◌else◌, ◌>>=◌,
}
use cpp_assistant.ReturnCode.{ca_ret, ca_ret_ok, resource_not_available, object_does_not_exist}
use cpp_assistant.Network.{NetConnection, Called, gives}
use cpp_assistant.Network.Poller.{Poller, add, del, handle_monitored_connection}
use cpp_assistant.Network.Peers.{
  Peers, PeerMap, lookup_fd, erase_fd, Nodes, node_at, free_node, find_peer, add_found,
  add_connection, delete_found, delete_connection, close_fd, destroy_net_connection,
  shutdown_connection, Address, accepted, accept_failed, register_accepted, accept_new_connection,
}
use cpp_assistant.Network.Peers.Entries.{lookup_first, erase_first, node_first, free_first}

monitored_added :
    (p : Poller) (conn : NetConnection) (r : ℕ)
    → leb_ℤ (pos p.max_count) p.current_count ≡ false
    → handle_monitored_connection p (some conn) add (gives r)
      ≡ (ca_ret_ok, record p { current_count = p.current_count +ℤ pos 1 })
unfolding handle_monitored_connection
monitored_added p conn r free = rw free refl

both : (b c : Bool) → b ≡ true → c ≡ true → (b && c) ≡ true
both true c e f = f
both false c e f = e

both_false : (b : Bool) (x y : Option (ℤ × Peers)) → (if b && false then x else y) ≡ y
both_false true x y = refl
both_false false x y = refl

minus_one : (n : ℕ) → pos (suc n) -ℤ pos 1 ≡ pos n
unfolding ◌-ℤ◌
minus_one n = ground arith

module _ (st : Peers) (at fd : ℕ) (made : NetConnection) (address : Address)
    (is_nonblocking : Bool) where
  abbrev pub conn : NetConnection
  conn = accepted made fd address is_nonblocking

  -- The node that was registered last.
  abbrev registered : Poller → Peers
  registered poller = record st {
    peers = (pos fd, some at) ∷ st.peers;
    nodes = (at, conn) ∷ st.nodes;
    poller = poller;
  }

  abbrev removed : Poller → Called → Peers
  removed poller ctl = record st {
    closed = pos fd ∷ st.closed;
    poller = (handle_monitored_connection poller (some conn) del ctl).1;
  }

  delete_registered :
      (poller : Poller) (ctl : Called)
      → delete_connection (registered poller) at ctl ≡ some (ca_ret_ok, removed poller ctl)
  unfolding delete_connection delete_found destroy_net_connection
  delete_registered poller ctl =
      let listed = lookup_first fd (some at) st.peers in
      let found = node_first at conn st.nodes in
      let watched = record (registered poller) {
        poller = (handle_monitored_connection poller (some conn) del ctl).1;
      } in
      ap
        (λ (o : Option NetConnection). o >>= (λ c.
          delete_found (registered poller) c ctl (lookup_fd c.fd ((pos fd, some at) ∷ st.peers))))
        found
      ∙ ap (delete_found (registered poller) conn ctl) listed
      ∙ ap
          (λ (o : Option NetConnection).
            (o >>= (λ c. some (record watched {
              nodes = free_node at ((at, conn) ∷ st.nodes);
              closed = close_fd c.fd st.closed;
            })))
            >>= (λ s.
                some (
                  ca_ret_ok,
                  record s { peers = erase_fd (pos fd) ((pos fd, some at) ∷ st.peers) },
                )))
          found
      ∙ ap
          (λ (n : Nodes). some (
            ca_ret_ok,
            record (removed poller ctl) {
              nodes = n;
              peers = erase_fd (pos fd) ((pos fd, some at) ∷ st.peers);
            },
          ))
          (free_first at conn st.nodes)
      ∙ ap (λ (m : PeerMap). some (ca_ret_ok, record (removed poller ctl) { peers = m }))
          (erase_first fd (some at) st.peers)

  -- The counts of the poller after the connection was added.
  abbrev watching : Poller
  watching = record st.poller { current_count = st.poller.current_count +ℤ pos 1 }

  add_registered :
      lookup_fd (pos fd) st.peers ≡ none
      → add_connection (record st { nodes = (at, conn) ∷ st.nodes; poller = watching }) at
        ≡ some (ca_ret_ok, registered watching)
  unfolding add_connection add_found
  add_registered new =
      let st1 = record st { nodes = (at, conn) ∷ st.nodes; poller = watching } in
      ap (λ (o : Option NetConnection). o >>= (λ c. add_found st1 at c (lookup_fd c.fd st.peers)))
        (node_first at conn st.nodes)
      ∙ ap (add_found st1 at conn) new

  register_eq :
      (ctl_del : Called) (nonblocking : ℤ) (r : ℕ)
      → lookup_fd (pos fd) st.peers ≡ none
      → leb_ℤ (pos st.poller.max_count) st.poller.current_count ≡ false
      → register_accepted st at conn fd is_nonblocking (gives r) nonblocking ctl_del ≡ (
          if is_nonblocking && ltb_ℤ nonblocking (pos 0)
          then accept_failed (registered watching) nonblocking at fd ctl_del
          else some (pos fd, registered watching))
  unfolding register_accepted
  register_eq ctl_del nonblocking r new free =
      simp (monitored_added st.poller conn r free, add_registered new)

  shutdown_registered :
      (poller : Poller) (ctl : Called)
      → shutdown_connection (registered poller) (pos fd) ctl ≡ some (ca_ret_ok, removed poller ctl)
  unfolding shutdown_connection
  shutdown_registered poller ctl =
      ap
        (λ (o : Option (Option ℕ)).
          elim (elim o as (λ x. Option ℕ) [ none ↦ none | some n ↦ n ])
            as (λ x. Option (ℤ × Peers)) [
              | none ↦ some (ca_ret object_does_not_exist, registered poller)
              | some a ↦ delete_connection (registered poller) a ctl
            ])
        (lookup_first fd (some at) st.peers)
      ∙ delete_registered poller ctl

  accept_eq :
      (r : ℕ) (nonblocking : ℤ) (ctl_del : Called) (listening : NetConnection)
      → st.listening_conn ≡ some listening
      → lookup_fd (pos fd) st.peers ≡ none
      → leb_ℤ (pos st.poller.max_count) st.poller.current_count ≡ false
      → accept_new_connection st is_nonblocking
          (gives fd)
          address
          (some made)
          at
          (gives r)
          nonblocking
          ctl_del
        ≡ (if is_nonblocking && ltb_ℤ nonblocking (pos 0)
            then accept_failed (registered watching) nonblocking at fd ctl_del
            else some (pos fd, registered watching))
  unfolding accept_new_connection
  accept_eq r nonblocking ctl_del listening el new free =
      ap
        (λ (o : Option NetConnection). elim o as (λ x. Option (ℤ × Peers)) [
          | none ↦ some (ca_ret resource_not_available, st)
          | some l ↦ register_accepted st at conn fd is_nonblocking (gives r) nonblocking ctl_del
        ])
        el
      ∙ register_eq ctl_del nonblocking r new free

  -- A connection that is accepted with a new descriptor, while the poller has room, is found under it, with its node;
  -- when it is shut down, the peers and the nodes are as before, the poller counts as many connections, and the
  -- descriptor has been closed once.
  pub accept_then_shutdown :
      (r r' : ℕ) (nonblocking : ℤ) (ctl_del : Called) (listening : NetConnection) (n : ℕ)
      → st.listening_conn ≡ some listening
      → lookup_fd (pos fd) st.peers ≡ none
      → st.poller.current_count ≡ pos n
      → leb_ℤ (pos st.poller.max_count) st.poller.current_count ≡ false
      → ltb_ℤ nonblocking (pos 0) ≡ false
      → (st1 : Peers) × (st2 : Peers) × (accept_new_connection st is_nonblocking
            (gives fd)
            address
            (some made)
            at
            (gives r)
            nonblocking
            ctl_del
          ≡ some (pos fd, st1))
        × (find_peer st1 (pos fd) ≡ some at)
        × (node_at at st1.nodes ≡ some conn)
        × (st1.poller.current_count ≡ pos (suc n))
        × (shutdown_connection st1 (pos fd) (gives r') ≡ some (ca_ret_ok, st2))
        × (st2.peers ≡ st.peers)
        × (st2.nodes ≡ st.nodes)
        × (st2.closed ≡ pos fd ∷ st.closed)
        × (st2.poller.current_count ≡ pos n)
  unfolding handle_monitored_connection
  accept_then_shutdown r r' nonblocking ctl_del listening n el new en free ok =
      let count : st.poller.current_count +ℤ pos 1 ≡ pos (suc n) =
        ap (λ c. c +ℤ pos 1) en ∙ pos-+ℤ n 1 ∙ ap pos (omega arith) in
      (
        registered watching,
        removed watching (gives r'),
        accept_eq r nonblocking ctl_del listening el new free
            ∙ rw ok (both_false is_nonblocking _ _),
        ap (λ (o : Option (Option ℕ)). elim o as (λ x. Option ℕ) [ none ↦ none | some a ↦ a ])
            (lookup_first fd (some at) st.peers),
        node_first at conn st.nodes,
        count,
        shutdown_registered watching (gives r'),
        refl,
        refl,
        refl,
        ap (λ c. c -ℤ pos 1) count ∙ minus_one n,
      )

  -- If the new descriptor cannot be made non-blocking, it is closed twice: with its node, and once more behind
  -- ACCEPT_FAILED.
  pub failed_accept_closes_twice :
      (r : ℕ) (nonblocking : ℤ) (ctl_del : Called) (listening : NetConnection)
      → is_nonblocking ≡ true
      → st.listening_conn ≡ some listening
      → lookup_fd (pos fd) st.peers ≡ none
      → leb_ℤ (pos st.poller.max_count) st.poller.current_count ≡ false
      → ltb_ℤ nonblocking (pos 0) ≡ true
      → (st1 : Peers) × (accept_new_connection st is_nonblocking
            (gives fd)
            address
            (some made)
            at
            (gives r)
            nonblocking
            ctl_del
          ≡ some (nonblocking, st1))
        × (st1.closed ≡ pos fd ∷ (pos fd ∷ st.closed))
  unfolding accept_failed
  failed_accept_closes_twice r nonblocking ctl_del listening eb el new free bad =
      let fails_here : (is_nonblocking && ltb_ℤ nonblocking (pos 0)) ≡ true =
        both is_nonblocking _ eb bad in
      (
        record (removed watching ctl_del) { closed = pos fd ∷ (pos fd ∷ st.closed) },
        accept_eq r nonblocking ctl_del listening el new free
            ∙ ap
                (λ (b : Bool).
                  if b
                  then accept_failed (registered watching) nonblocking at fd ctl_del
                  else some (pos fd, registered watching))
                fails_here
            ∙ ap
                (λ (o : Option (ℤ × Peers)). o >>= (λ (d : ℤ × Peers).
                  let out : Option (ℤ × Peers) =
                    some (nonblocking, record (d.1) { closed = pos fd ∷ d.1.closed }) in
                  out))
                (delete_registered watching ctl_del),
        refl,
      )
