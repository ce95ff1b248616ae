-- ===== src/Network/Poller.antt =====
-- net_poller.cpp and net_poller.h, without SAVE_ALL_POLLER_CONNECTIONS. What `epoll_create`, `malloc`,
-- `epoll_wait` and `epoll_ctl` give are arguments.
use cpp_assistant.Prelude.{
  ℕ, ◌/◌, ◌%◌, Bool, true, false, not, ◌&&◌, ◌||◌, Option, none, some, List, [], ◌∷◌, length, ℤ,
  pos, negsuc, ◌+ℤ◌, ◌-ℤ◌, leb_ℤ, ltb_ℤ, ◌==ℤ◌, if◌then◌else◌, ◌==◌, ltb,
}
use cpp_assistant.ReturnCode.{
  ca_ret, ca_ret_ok, object_already_exists, memory_alloc_failed, null_param, excess_object_count,
}
use cpp_assistant.Network.{NetConnection, negated, Called, gives, fails}

abbrev pub default_poll_timeout : ℤ
default_poll_timeout = pos 10

abbrev pub infinite_poll_timeout : ℤ
infinite_poll_timeout = negsuc 0

abbrev pub default_connection_count : ℕ
default_connection_count = 1024

abbrev pub max_connection_count : ℕ
max_connection_count = 10000

-- The file descriptor and the events of an active connection.
pub record PollEvent : Type 0 where
  pub fd : ℤ
  pub events : ℕ

-- `has_holder` says that m_epoll_events_holder is no null pointer. The list has the m_active_connections
-- up to their count.
pub record Poller : Type 0 where
  pub epoll_fd : ℤ
  pub max_count : ℕ
  pub current_count : ℤ
  pub active_connections : List PollEvent
  pub has_holder : Bool
  pub timeout : ℤ

-- `init`.
abbrev pub init_poller : Poller
init_poller = record {
  epoll_fd = negsuc 0;
  max_count = 0;
  current_count = pos 0;
  active_connections = [];
  has_holder = false;
  timeout = pos 0;
}

-- `destroy`, and `clear` that it calls; the descriptor of epoll is closed.
abbrev pub destroy_poller : Poller → Poller
destroy_poller p = record p {
  epoll_fd = negsuc 0;
  max_count = 0;
  current_count = pos 0;
  active_connections = [];
  has_holder = false;
  timeout = pos 0;
}

unfoldable pub set_timeout : Poller → ℤ → Poller
set_timeout p milliseconds = record p {
  timeout =
      if ltb_ℤ p.timeout (pos 0) && not (infinite_poll_timeout ==ℤ p.timeout)
      then default_poll_timeout
      else milliseconds;
}

abbrev pub allowed_count : ℤ → ℕ
allowed_count (negsuc n) = default_connection_count
allowed_count (pos n) =
    if n == 0
    then default_connection_count
    else if ltb max_connection_count n
    then max_connection_count
    else n

unfoldable pub create_poller : Poller → ℤ → ℤ → Called → Bool → ℤ × Poller
create_poller p max_conn_count timeout epoll alloc_ok =
    if p.has_holder
    then (ca_ret object_already_exists, p)
    else let set = set_timeout (record p { max_count = allowed_count max_conn_count }) timeout in
      elim epoll [
        | fails e ↦ (negated e, destroy_poller set)
        | gives fd ↦ if not alloc_ok then (ca_ret memory_alloc_failed, destroy_poller set) else (
          ca_ret_ok,
          record set { epoll_fd = pos fd; has_holder = true; active_connections = [] },
        )
      ]

-- The constructor with arguments; what `create` returns is not looked at.
abbrev pub new_poller : ℤ → ℤ → Called → Bool → Poller
new_poller max_conn_count timeout epoll alloc_ok =
    (create_poller init_poller max_conn_count timeout epoll alloc_ok).1

-- What `epoll_wait` gives, the active connections or `errno`.
pub data WaitCall : Type 0 where
  ready : List PollEvent → WaitCall
  wait_error : ℕ → WaitCall

-- `wait` is given the number of events that there is room for.
unfoldable pub poll : Poller → (ℤ → WaitCall) → ℤ × Poller
poll p wait = elim (wait p.current_count) [
  | wait_error e ↦ (negated e, p)
  | ready events ↦ (pos (length events), record p { active_connections = events })
]

abbrev pub event_read : ℕ
event_read = 0x1

abbrev pub event_urgent_read : ℕ
event_urgent_read = 0x2

abbrev pub event_write : ℕ
event_write = 0x4

abbrev pub event_error : ℕ
event_error = 0x8

abbrev pub event_hang_up : ℕ
event_hang_up = 0x10

abbrev pub event_peer_close : ℕ
event_peer_close = 0x2000

abbrev pub event_one_shot_monitoring : ℕ
event_one_shot_monitoring = 0x40000000

abbrev pub event_edge_triggered : ℕ
event_edge_triggered = 0x80000000

-- One of the events, which are bits.
abbrev pub is_event : ℕ → Bool
is_event e =
    e == event_read
    || e == event_write
    || e == event_peer_close
    || e == event_urgent_read
    || e == event_error
    || e == event_hang_up
    || e == event_edge_triggered
    || e == event_one_shot_monitoring

-- The loop over the active connections; `event` is one bit.
unfoldable pub has_event : List PollEvent → ℤ → ℕ → Bool
has_event [] fd event = false
has_event (e ∷ es) fd event = fd ==ℤ e.fd && e.events / event % 2 == 1 || has_event es fd event

unfoldable pub test_single_event : Poller → ℤ → ℕ → Bool
test_single_event p fd event = is_event event && has_event p.active_connections fd event

abbrev pub is_readable : Poller → ℤ → Bool
is_readable p fd = test_single_event p fd event_read

abbrev pub is_writable : Poller → ℤ → Bool
is_writable p fd = test_single_event p fd event_write

pub data HandleType : Type 0 where
  add mod_events del : HandleType

abbrev pub is_add : HandleType → Bool
is_add add = true
is_add _ = false

-- How the count changes after a call of `epoll_ctl` that succeeds.
abbrev pub counted : HandleType → ℤ → ℤ
counted add n = n +ℤ pos 1
counted mod_events n = n
counted del n = n -ℤ pos 1

-- `ctl` is what `epoll_ctl` gives for the connection.
unfoldable pub handle_monitored_connection :
    Poller → Option NetConnection → HandleType → Called → ℤ × Poller
handle_monitored_connection p none op ctl = (ca_ret null_param, p)
handle_monitored_connection p (some conn) op ctl =
    if is_add op && leb_ℤ (pos p.max_count) p.current_count
    then (ca_ret excess_object_count, p)
    else elim ctl [
      | fails e ↦ (negated e, p)
      | gives r ↦ (ca_ret_ok, record p { current_count = counted op p.current_count })
    ]
