-- ===== src/Network/Monitored.antt =====
-- The poller's count beside the descriptors that the system watches, and the timeouts that it takes.
use cpp_assistant.Prelude.{
  ℕ, suc, ◌+◌, ◌≤◌, ◌≡◌, refl, sym, ap, ◌∙◌, subst, ◌⊎◌, inl, inr, Bool-cases, Bool, true, false,
  ◌&&◌, some, List, [], ◌∷◌, length, ℤ, pos, negsuc, ◌+ℤ◌, ◌-ℤ◌, leb_ℤ, arith, if◌then◌else◌,
}
use cpp_assistant.Network.{NetConnection, negated, Called, gives, fails}
use cpp_assistant.ReturnCode.{ca_ret_ok}
use cpp_assistant.Network.Poller.{
  Poller, HandleType, add, is_add, create_poller, init_poller, counted, poll, WaitCall, wait_error,
  ready, handle_monitored_connection, set_timeout, default_poll_timeout,
}
use cpp_assistant.Network.Watching.{
  watches, unwatch, EpollCtl, ctl_add, ctl_mod, ctl_del, ctl_error, Watched, constructed, destroyed,
  created, poller_created, timeout_set, polled, refused, handled,
}

length-unwatch :
    (fds : List ℤ) (fd : ℤ) → watches fds fd ≡ true → length (unwatch fds fd) + 1 ≡ length fds
unfolding watches unwatch
length-unwatch [] fd h = cc h
length-unwatch (f ∷ fds) fd h = ground (arith, length-unwatch fds fd)

abbrev Counted : Poller → List ℤ → Type 0
Counted p fds = (p.current_count ≡ pos (length fds)) × (length fds ≤ p.max_count)

-- A poller without events has room for no connection.
abbrev Roomless : Poller → Type 0
Roomless p = (p.has_holder ≡ true) ⊎ (p.max_count ≡ 0)

create_poller-anew :
    (p : Poller) (a t : ℤ) (epoll : Called) (ok : Bool)
    → p.has_holder ≡ false
    → p.current_count ≡ pos 0
    → Counted (create_poller p a t epoll ok).1 []
unfolding create_poller set_timeout
create_poller-anew p a t (fails e) ok h c = rw h (refl, omega arith)
create_poller-anew p a t (gives fd) true h c = rw h (c, omega arith)
create_poller-anew p a t (gives fd) false h c = rw h (refl, omega arith)

create_poller-again :
    (p : Poller) (a t : ℤ) (epoll : Called) (ok : Bool)
    → p.has_holder ≡ true
    → (create_poller p a t epoll ok).1 ≡ p
unfolding create_poller
create_poller-again p a t epoll ok h = rw h refl

create_poller-Counted :
    (p : Poller) (fds : List ℤ) (a t : ℤ) (epoll : Called) (ok : Bool)
    → Roomless p
    → Counted p fds
    → Counted (create_poller p a t epoll ok).1 (if p.has_holder then fds else [])
create_poller-Counted p fds a t epoll ok r (c, le) = elim (Bool-cases p.has_holder) [
  | inl h ↦
      subst (λ q. Counted q (if p.has_holder then fds else []))
        (sym (create_poller-again p a t epoll ok h)) (rw h (c, le))
  | inr h ↦ elim r [
    | inl h' ↦ let clash = sym h ∙ h' in absurd (cc clash)
    | inr nothing ↦
        let empty : p.current_count ≡ pos 0 = c ∙ ap pos (omega arith) in
        subst (λ b. Counted (create_poller p a t epoll ok).1 (if b then fds else [])) (sym h)
          (create_poller-anew p a t epoll ok h empty)
  ]
]

create_poller-Roomless :
    (p : Poller) (a t : ℤ) (epoll : Called) (ok : Bool)
    → p.has_holder ≡ false
    → Roomless (create_poller p a t epoll ok).1
unfolding create_poller set_timeout
create_poller-Roomless p a t (fails e) ok h = rw h (inr refl)
create_poller-Roomless p a t (gives fd) true h = rw h (inl refl)
create_poller-Roomless p a t (gives fd) false h = rw h (inr refl)

poll-Roomless : (p : Poller) (wait : ℤ → WaitCall) → Roomless p → Roomless (poll p wait).1
unfolding poll
poll-Roomless p wait h = events (wait p.current_count)
  where
    events :
        (w : WaitCall)
        → Roomless
            (elim w as (λ x. ℤ × Poller) [
              | wait_error e ↦ (negated e, p)
              | ready es ↦ (pos (length es), record p { active_connections = es })
            ]).1
    events (wait_error e) = h
    events (ready es) = h

handle-Roomless :
    (p : Poller) (conn : NetConnection) (op : HandleType) (ctl : Called)
    → Roomless p
    → Roomless (handle_monitored_connection p (some conn) op ctl).1
unfolding handle_monitored_connection
handle-Roomless p conn op ctl h =
    elim (Bool-cases (is_add op && leb_ℤ (pos p.max_count) p.current_count)) [
      | inl full ↦ rw full h
      | inr free ↦ rw free (called ctl)
    ]
  where
    called :
        (ctl : Called)
        → Roomless
            (elim ctl as (λ x. ℤ × Poller) [
              | fails e ↦ (negated e, p)
              | gives r ↦ (ca_ret_ok, record p { current_count = counted op p.current_count })
            ]).1
    called (fails e) = h
    called (gives r) = h

Watched-Roomless : {p : Poller} {fds : List ℤ} → Watched p fds → Roomless p
unfolding set_timeout
Watched-Roomless constructed = inr refl
Watched-Roomless (destroyed w) = inr refl
Watched-Roomless (created {p} w a t epoll ok) = elim (Bool-cases p.has_holder) [
  | inl h ↦ subst Roomless (sym (create_poller-again p a t epoll ok h)) (inl h)
  | inr h ↦ create_poller-Roomless p a t epoll ok h
]
Watched-Roomless (poller_created a t epoll ok) =
    create_poller-Roomless init_poller a t epoll ok refl
Watched-Roomless (timeout_set w t) = Watched-Roomless w
Watched-Roomless (polled {p} w wait) = poll-Roomless p wait (Watched-Roomless w)
Watched-Roomless (refused {p} w conn ctl full) = handle-Roomless p conn add ctl (Watched-Roomless w)
Watched-Roomless (handled {p} w conn op ctl t e) =
    handle-Roomless p conn op ctl (Watched-Roomless w)

poll-Counted :
    (p : Poller) (fds : List ℤ) (wait : ℤ → WaitCall) → Counted p fds → Counted (poll p wait).1 fds
unfolding poll
poll-Counted p fds wait h = ground arith

added :
    (n max : ℕ) (c : ℤ)
    → c ≡ pos n
    → leb_ℤ (pos max) c ≡ false
    → (c +ℤ pos 1 ≡ pos (suc n)) × (suc n ≤ max)
unfolding ◌+ℤ◌
added n max c e h = ground arith

removed : (n k : ℕ) (c : ℤ) → c ≡ pos n → k + 1 ≡ n → c -ℤ pos 1 ≡ pos k
unfolding ◌-ℤ◌
removed n k c e h = ground arith

handle-Counted :
    (p : Poller) (conn : NetConnection) (op : HandleType) (fd : ℤ) (fds : List ℤ) (ctl : Called)
    (fds' : List ℤ)
    → (is_add op && leb_ℤ (pos p.max_count) p.current_count) ≡ false
    → EpollCtl op fd fds ctl fds'
    → Counted p fds
    → Counted (handle_monitored_connection p (some conn) op ctl).1 fds'
unfolding handle_monitored_connection
handle-Counted p conn _ _ _ _ _ t (ctl_add fds fd new) (c, le) =
    rw t (added (length fds) p.max_count p.current_count c t)
handle-Counted p conn _ _ _ _ _ t (ctl_mod fds fd old) h = h
handle-Counted p conn _ _ _ _ _ t (ctl_del fds fd old) (c, le) =
    let shorter = length-unwatch fds fd old in
    (removed (length fds) (length (unwatch fds fd)) p.current_count c shorter, omega arith)
handle-Counted p conn _ _ _ _ _ t (ctl_error op fds fd e) h = rw t h

refused-Counted :
    (p : Poller) (fds : List ℤ) (conn : NetConnection) (ctl : Called)
    → leb_ℤ (pos p.max_count) p.current_count ≡ true
    → Counted p fds
    → Counted (handle_monitored_connection p (some conn) add ctl).1 fds
unfolding handle_monitored_connection
refused-Counted p fds conn ctl full h = rw full h

-- After any calls of the poller's constructors, of `create`, `destroy`, `set_timeout` and `poll`, and of the
-- operations that add, change and delete a connection, if `epoll_ctl` does what its manual says, the count of
-- connections is the number of the descriptors that the system watches, and it is at most the maximum.
pub count_is_watched :
    (p : Poller) (fds : List ℤ)
    → Watched p fds
    → (p.current_count ≡ pos (length fds)) × (length fds ≤ p.max_count)
unfolding set_timeout
count_is_watched p fds constructed = (refl, omega arith)
count_is_watched p fds (destroyed w) = (refl, omega arith)
count_is_watched p fds (created {p = q} {fds = fds0} w a t epoll ok) =
    create_poller-Counted q fds0 a t epoll ok (Watched-Roomless w) (count_is_watched q fds0 w)
count_is_watched p fds (poller_created a t epoll ok) =
    create_poller-anew init_poller a t epoll ok refl refl
count_is_watched p fds (timeout_set w t) = count_is_watched _ fds w
count_is_watched p fds (polled {p = q} w wait) = poll-Counted q fds wait (count_is_watched q fds w)
count_is_watched p fds (refused {p = q} w conn ctl full) =
    refused-Counted q fds conn ctl full (count_is_watched q fds w)
count_is_watched p fds (handled {p = q} {fds = fds0} w conn op ctl t e) =
    handle-Counted q conn op conn.fd fds0 ctl fds t e (count_is_watched q fds0 w)

-- `set_timeout` looks at the timeout that is set instead of the one that it is given: any negative number
-- is taken where the old timeout is 0 or more, and after a number below -1 the next call sets the
-- default whatever it is given.
pub set_timeout_lags :
    (p : Poller) (n k : ℕ) (t : ℤ)
    → p.timeout ≡ pos n
    → ((set_timeout p (negsuc (suc k))).timeout ≡ negsuc (suc k))
      × ((set_timeout (set_timeout p (negsuc (suc k))) t).timeout ≡ default_poll_timeout)
unfolding set_timeout
set_timeout_lags p n k t e = ground arith
