-- ===== src/Network/Watching.antt =====
-- Calls of the poller of net_poller.cpp in any order, beside the descriptors that the system watches for it.
use cpp_assistant.Prelude.{
  ℕ, ◌≡◌, Bool, true, false, ◌&&◌, some, List, [], ◌∷◌, ℤ, pos, leb_ℤ, ◌==ℤ◌, if◌then◌else◌,
}
use cpp_assistant.Network.{NetConnection, Called, gives, fails}
use cpp_assistant.Network.Poller.{
  Poller, HandleType, add, mod_events, del, is_add, new_poller, create_poller, init_poller,
  destroy_poller, poll, WaitCall, handle_monitored_connection, set_timeout,
}

unfoldable pub watches : List ℤ → ℤ → Bool
watches [] fd = false
watches (f ∷ fs) fd = if f ==ℤ fd then true else watches fs fd

unfoldable pub unwatch : List ℤ → ℤ → List ℤ
unwatch [] fd = []
unwatch (f ∷ fs) fd = if f ==ℤ fd then fs else f ∷ unwatch fs fd

-- What the manual of `epoll_ctl` says: a descriptor is added if it is not watched yet, and changed or
-- deleted if it is; a call that fails changes nothing.
pub data EpollCtl : HandleType → ℤ → List ℤ → Called → List ℤ → Type 0 where
  ctl_add :
      (fds : List ℤ) (fd : ℤ) → watches fds fd ≡ false → EpollCtl add fd fds (gives 0) (fd ∷ fds)
  ctl_mod :
      (fds : List ℤ) (fd : ℤ) → watches fds fd ≡ true → EpollCtl mod_events fd fds (gives 0) fds
  ctl_del :
      (fds : List ℤ) (fd : ℤ)
      → watches fds fd ≡ true
      → EpollCtl del fd fds (gives 0) (unwatch fds fd)
  ctl_error : (op : HandleType) (fds : List ℤ) (fd : ℤ) (e : ℕ) → EpollCtl op fd fds (fails e) fds

-- A poller and the descriptors that the system watches for it, after any calls. `epoll_ctl` is called
-- unless the poller has too many connections. When the descriptor of epoll is closed nothing is watched,
-- and a new one watches nothing.
pub data Watched : Poller → List ℤ → Type 0 where
  constructed : Watched init_poller []
  destroyed : {p : Poller} {fds : List ℤ} → Watched p fds → Watched (destroy_poller p) []
  created :
      {p : Poller} {fds : List ℤ}
      → Watched p fds
      → (max_conn_count timeout : ℤ) (epoll : Called) (alloc_ok : Bool)
      → Watched
          (create_poller p max_conn_count timeout epoll alloc_ok).1
          (if p.has_holder then fds else [])
  poller_created :
      (max_conn_count timeout : ℤ) (epoll : Called) (alloc_ok : Bool)
      → Watched (new_poller max_conn_count timeout epoll alloc_ok) []
  timeout_set :
      {p : Poller} {fds : List ℤ} → Watched p fds → (t : ℤ) → Watched (set_timeout p t) fds
  polled :
      {p : Poller} {fds : List ℤ}
      → Watched p fds
      → (wait : ℤ → WaitCall) → Watched (poll p wait).1 fds
  refused :
      {p : Poller} {fds : List ℤ}
      → Watched p fds
      → (conn : NetConnection) (ctl : Called) → leb_ℤ (pos p.max_count) p.current_count ≡ true
      → Watched (handle_monitored_connection p (some conn) add ctl).1 fds
  handled :
      {p : Poller} {fds fds' : List ℤ}
      → Watched p fds
      → (conn : NetConnection) (op : HandleType) (ctl : Called)
      → (is_add op && leb_ℤ (pos p.max_count) p.current_count) ≡ false
      → EpollCtl op conn.fd fds ctl fds'
      → Watched (handle_monitored_connection p (some conn) op ctl).1 fds'
