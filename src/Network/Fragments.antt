-- ===== src/Network/Fragments.antt =====
-- `send_fragment` and `recv_fragment` of tcp_base.cpp. What `send` and `recv` give, call by call, is a
-- list; `none` means that the loop goes on beyond its end.
use cpp_assistant.Prelude.{
  ℕ, ◌+◌, Option, none, some, List, [], ◌∷◌, ◌++◌, length, take, ℤ, pos, if◌then◌else◌, leb, ◌==◌,
  overwrite,
}
use cpp_assistant.ReturnCode.{ca_ret, invalid_param_value, connection_broken}
use cpp_assistant.Network.{negated, eintr, eagain}

-- A call of `send`: how many bytes the socket has taken, or `errno`.
pub data SendCall : Type 0 where
  sent : ℕ → SendCall
  send_error : ℕ → SendCall

-- What is returned, the bytes that have gone to the peer, and the calls not yet made.
pub record Sending : Type 0 where
  pub ret : ℤ
  pub wire : List ℕ
  pub calls : List SendCall

-- The loop: every call of `send` is given the whole of `bytes` again.
unfoldable pub send_loop : List SendCall → List ℕ → ℕ → List ℕ → Option Sending
send_loop [] bytes done wire = none
send_loop (send_error e ∷ calls) bytes done wire =
    let rest = send_loop calls bytes done wire in
    if e == eintr
    then rest
    else if e == eagain
    then some (record { ret = pos done; wire = wire; calls = calls })
    else some (record { ret = negated e; wire = wire; calls = calls })
send_loop (sent n ∷ calls) bytes done wire =
    let rest = send_loop calls bytes (done + n) (wire ++ take n bytes) in
    if leb (length bytes) (done + n)
    then some (record { ret = pos (done + n); wire = wire ++ take n bytes; calls = calls })
    else rest

-- `buf` are the bytes at the pointer, at least `len` of them.
unfoldable pub send_fragment : ℤ → Option (List ℕ) → ℤ → List SendCall → Option Sending
send_fragment (pos fd) (some buf) (pos len) calls =
    if len == 0
    then some (record { ret = pos 0; wire = []; calls = calls })
    else send_loop calls (take len buf) 0 []
send_fragment fd buf len calls =
    some (record { ret = ca_ret invalid_param_value; wire = []; calls = calls })

-- A call of `recv`: the bytes received, or `errno`. No bytes mean that the peer has closed.
pub data RecvCall : Type 0 where
  received : List ℕ → RecvCall
  recv_error : ℕ → RecvCall

pub record Receiving : Type 0 where
  pub ret : ℤ
  pub memory : List ℕ
  pub calls : List RecvCall

-- The loop: every call of `recv` writes to the start of the buffer again.
unfoldable pub recv_loop : List RecvCall → List ℕ → ℕ → ℕ → Option Receiving
recv_loop [] memory len done = none
recv_loop (recv_error e ∷ calls) memory len done =
    let rest = recv_loop calls memory len done in
    if e == eintr
    then rest
    else if e == eagain
    then some (record { ret = pos done; memory = memory; calls = calls })
    else some (record { ret = negated e; memory = memory; calls = calls })
recv_loop (received [] ∷ calls) memory len done =
    some (record { ret = ca_ret connection_broken; memory = memory; calls = calls })
recv_loop (received (b ∷ bs) ∷ calls) memory len done =
    let written = overwrite memory 0 (b ∷ bs) in
    let total = done + length (b ∷ bs) in
    let rest = recv_loop calls written len total in
    if leb len total
    then some (record { ret = pos total; memory = written; calls = calls })
    else rest

-- `memory` is the block at the pointer.
unfoldable pub recv_fragment : ℤ → Option (List ℕ) → ℤ → List RecvCall → Option Receiving
recv_fragment (pos fd) (some memory) (pos len) calls =
    if len == 0
    then some (record { ret = pos 0; memory = memory; calls = calls })
    else recv_loop calls memory len 0
recv_fragment fd (some memory) len calls =
    some (record { ret = ca_ret invalid_param_value; memory = memory; calls = calls })
recv_fragment fd none len calls =
    some (record { ret = ca_ret invalid_param_value; memory = []; calls = calls })
