-- ===== src/Network/Sending.antt =====
-- What `send_fragment` reports, when it ends, and what reaches the peer.
use cpp_assistant.Prelude.{
  ℕ, suc, ◌+◌, ◌-◌, ◌≤◌, ◌<◌, ◌≡◌, refl, inl, inr, some, List, [], ◌∷◌, ◌++◌, length, take, pos,
  arith, if◌then◌else◌, leb, ◌==◌, Bool-cases, length-append, length-take, subst, sym, ap, ◌∙◌,
  true, false, append-nil, append_assoc,
}
use cpp_assistant.Network.{negated, eintr, eagain}
use cpp_assistant.Network.Fragments.{SendCall, sent, send_error, Sending, send_loop, send_fragment}

-- A call that succeeds takes one byte at least, and no more than it is given.
abbrev pub Sensible : ℕ → List SendCall → Type 0
Sensible len [] = Unit {0}
Sensible len (send_error e ∷ calls) = Sensible len calls
Sensible len (sent n ∷ calls) = (0 < n) × (n ≤ len) × Sensible len calls

-- How many calls are not interrupted by a signal.
abbrev pub answers : List SendCall → ℕ
answers [] = 0
answers (send_error e ∷ calls) = if e == eintr then answers calls else suc (answers calls)
answers (sent n ∷ calls) = suc (answers calls)

-- The bytes that a list of calls has taken, each from the start of `bytes`.
abbrev pub carried : List ℕ → List SendCall → List ℕ
carried bytes [] = []
carried bytes (send_error e ∷ calls) = carried bytes calls
carried bytes (sent n ∷ calls) = take n bytes ++ carried bytes calls

-- Calls that took bytes or were interrupted by a signal.
abbrev pub GoOn : List SendCall → Type 0
GoOn [] = Unit {0}
GoOn (send_error e ∷ calls) = ((e == eintr) ≡ true) × GoOn calls
GoOn (sent n ∷ calls) = GoOn calls

-- What is returned after the last call.
abbrev pub Ends : ℕ → SendCall → Sending → Type 0
Ends len (sent n) s = (s.ret ≡ pos (length s.wire)) × (len ≤ length s.wire)
Ends len (send_error e) s =
    ((e == eintr) ≡ false) × (s.ret ≡ (if e == eagain then pos (length s.wire) else negated e))

-- The calls that were made, of which only the last one ends the loop; `wire` has gone to the peer before.
abbrev pub Reported : List ℕ → List ℕ → List SendCall → Sending → Type 0
Reported wire bytes calls s =
    (before : List SendCall) × (last : SendCall) × (calls ≡ before ++ (last ∷ s.calls))
    × GoOn before
    × (length (wire ++ carried bytes before) < length bytes)
    × (s.wire ≡ wire ++ carried bytes (before ++ (last ∷ [])))
    × (length s.wire < length bytes + length bytes)
    × Ends (length bytes) last s

Reported-interrupted :
    (wire bytes : List ℕ) (e : ℕ) (calls : List SendCall) (s : Sending)
    → (e == eintr) ≡ true
    → Reported wire bytes calls s
    → Reported wire bytes (send_error e ∷ calls) s
Reported-interrupted wire bytes e calls s h (before, last, eq, go, lt, ew, most, ends) =
    (send_error e ∷ before, last, ap (λ l. send_error e ∷ l) eq, (h, go), lt, ew, most, ends)

Reported-sent :
    (wire bytes : List ℕ) (n : ℕ) (calls : List SendCall) (s : Sending)
    → Reported (wire ++ take n bytes) bytes calls s
    → Reported wire bytes (sent n ∷ calls) s
Reported-sent wire bytes n calls s (before, last, eq, go, lt, ew, most, ends) = (
  sent n ∷ before,
  last,
  ap (λ l. sent n ∷ l) eq,
  go,
  subst (λ l. length l < length bytes) (append_assoc wire (take n bytes) (carried bytes before)) lt,
  ew ∙ append_assoc wire (take n bytes) (carried bytes (before ++ (last ∷ []))),
  most,
  ends,
)

-- The loop ends with the call that comes next.
Reported-last :
    (wire bytes : List ℕ) (last : SendCall) (calls : List SendCall) (s : Sending)
    → s.calls ≡ calls
    → length wire < length bytes
    → s.wire ≡ wire ++ carried bytes (last ∷ [])
    → length s.wire < length bytes + length bytes
    → Ends (length bytes) last s
    → Reported wire bytes (last ∷ calls) s
Reported-last wire bytes last calls s ec lt ew most ends = (
  [],
  last,
  ap (λ l. last ∷ l) (sym ec),
  tt,
  subst (λ l. length l < length bytes) (sym (append-nil wire)) lt,
  ew,
  most,
  ends,
)

send_loop-Reported :
    (calls : List SendCall) (bytes : List ℕ) (done : ℕ) (wire : List ℕ)
    → Sensible (length bytes) calls
    → done < length bytes
    → length wire ≡ done
    → length bytes - done ≤ answers calls
    → (s : Sending) × (send_loop calls bytes done wire ≡ some s) × Reported wire bytes calls s
unfolding send_loop
send_loop-Reported [] bytes done wire k lt lw enough = absurd (omega arith)
send_loop-Reported (send_error e ∷ calls) bytes done wire k lt lw enough =
    let unsent : wire ≡ wire ++ carried bytes (send_error e ∷ []) = sym (append-nil wire) in
    elim (Bool-cases (e == eintr)) [
      | inl again ↦
          let (s, es, r) = send_loop-Reported calls bytes done wire k lt lw (rw again at enough) in
          (s, rw again es, Reported-interrupted wire bytes e calls s again r)
      | inr ended ↦ elim (Bool-cases (e == eagain)) [
        | inl full ↦ (
          record { ret = pos done; wire = wire; calls = calls },
          rw (ended, full) refl,
          Reported-last wire bytes (send_error e) calls _ refl (omega arith) unsent (omega arith)
              (ended, rw full (ap pos (sym lw))),
        )
        | inr bad ↦ (
          record { ret = negated e; wire = wire; calls = calls },
          rw (ended, bad) refl,
          Reported-last wire bytes (send_error e) calls _ refl (omega arith) unsent (omega arith)
              (ended, rw bad refl),
        )
      ]
    ]
send_loop-Reported (sent n ∷ calls) bytes done wire (pn, ln, k) lt lw enough =
    let lw' : length (wire ++ take n bytes) ≡ done + n =
      omega (arith, length-append wire (take n bytes), length-take n bytes) in
    elim (Bool-cases (leb (length bytes) (done + n))) [
      | inl ended ↦ (
        record { ret = pos (done + n); wire = wire ++ take n bytes; calls = calls },
        rw ended refl,
        Reported-last wire bytes (sent n) calls _ refl (omega arith)
            (ap (λ l. wire ++ l) (sym (append-nil (take n bytes)))) (omega arith)
            (ap pos (sym lw'), ground arith),
      )
      | inr more ↦
          let (s, es, r) =
            send_loop-Reported calls bytes (done + n) (wire ++ take n bytes) k (ground arith) lw'
              (omega arith) in
          (s, rw more es, Reported-sent wire bytes n calls s r)
    ]

-- If it is given at least one byte and a valid descriptor, and every call of `send` that succeeds takes at
-- least one byte and at most those given, `send_fragment` returns once there were as many calls that are not interrupted as bytes. The call that ends it is the
-- first one with an error other than EINTR, or the one after which at least as many bytes as were given
-- have gone to the peer. It returns how many bytes have gone to the peer, which are those that the calls
-- took and less than twice the bytes given; but if the last call had an error other than EAGAIN, it
-- returns that error, negated.
pub send_fragment_lem :
    (fd len : ℕ) (buf : List ℕ) (calls : List SendCall)
    → 0 < len
    → len ≤ length buf
    → Sensible len calls
    → len ≤ answers calls
    → (s : Sending) × (send_fragment (pos fd) (some buf) (pos len) calls ≡ some s)
      × Reported [] (take len buf) calls s
unfolding send_fragment
send_fragment_lem fd len buf calls h0 h k enough =
    let given : length (take len buf) ≡ len = omega (arith, length-take len buf) in
    let (s, e, r) =
      send_loop-Reported calls (take len buf) 0 [] (rw given k) (omega arith) refl (omega arith) in
    (s, ground (arith, e), r)

pub send_loop-once :
    (bytes : List ℕ) (n : ℕ) (calls : List SendCall)
    → n ≤ length bytes
    → (rest : List SendCall) × (send_loop (sent n ∷ send_error eagain ∷ calls) bytes 0 []
        ≡ some (record { ret = pos n; wire = take n bytes; calls = rest }))
unfolding send_loop
send_loop-once bytes n calls h = elim (Bool-cases (leb (length bytes) (0 + n))) [
  | inl all ↦ (send_error eagain ∷ calls, rw all (ground arith))
  | inr part ↦ (calls, rw part (ground arith))
]

pub send_loop-twice :
    (bytes : List ℕ) (n m : ℕ) (calls : List SendCall)
    → n < length bytes
    → length bytes ≤ n + m
    → send_loop (sent n ∷ sent m ∷ calls) bytes 0 []
      ≡ some (record { ret = pos (n + m); wire = take n bytes ++ take m bytes; calls = calls })
unfolding send_loop
send_loop-twice bytes n m calls lt le = ground arith
