-- ===== src/Network/Arriving.antt =====
-- What a connection receives, in terms of the queue that its buffer holds.
use cpp_assistant.Prelude.{
  ℕ, ◌+◌, ◌-◌, ◌≤◌, ◌<◌, ◌≡◌, refl, true, false, Option, none, some, List, [], ◌∷◌, ◌++◌, length,
  take, drop, ℤ, pos, ◌-ℤ◌, arith, sym, ap, ◌∙◌, leb_ℤ, ltb_ℤ, leb, take_all, drop_all, drop-drop,
  append-nil, take-append_self, load, store, overwrite, ◌==ℤ◌, load-eq-some, store-eq-some,
  length-take, length-drop, length-overwrite, Bool-cases, inl, inr,
}
use cpp_assistant.ReturnCode.{ca_ret, resource_not_available, connection_broken}
use cpp_assistant.SequentialBuffer.{SequentialBuffer, get_write_pointer, move_write_pointer}
use cpp_assistant.SequentialBuffer.Layout.{Holds, held}
use cpp_assistant.SequentialBuffer.WritePointer.{
  same_pointer, direct_write_enqueues, get_write_pointer-Roomy,
}
use cpp_assistant.Network.{NetConnection, eagain}
use cpp_assistant.Network.Fragments.{
  RecvCall, received, recv_error, Receiving, recv_loop, recv_fragment,
}
use cpp_assistant.Network.Transfer.{
  Transferred, stopped, recv_at, recv_buffer, recv_to_connection, when_connected,
}
use cpp_assistant.Network.Delivery.{IsUp}

recv_loop-once :
    (memory : List ℕ) (b len : ℕ) (bs : List ℕ) (calls : List RecvCall)
    → (rest : List RecvCall) × (recv_loop
          (received (b ∷ bs) ∷ recv_error eagain ∷ calls)
          memory
          len
          0
        ≡ some (record {
          ret = pos (length (b ∷ bs));
          memory = overwrite memory 0 (b ∷ bs);
          calls = rest;
        }))
unfolding recv_loop
recv_loop-once memory b len bs calls = elim (Bool-cases (leb len (0 + length (b ∷ bs)))) [
  | inl all ↦ (recv_error eagain ∷ calls, rw all (ground arith))
  | inr part ↦ (calls, rw part (ground arith))
]

-- The part of a block behind a place, written to at its start and put back.
overwrite-tail :
    (m : List ℕ) (at : ℕ) (bs : List ℕ)
    → at + length bs ≤ length m
    → overwrite m at (overwrite (take (length m - at) (drop at m)) 0 bs) ≡ overwrite m at bs
overwrite-tail m at bs h =
    let tail : take (length m - at) (drop at m) ≡ drop at m =
      take_all (length m - at) (drop at m) (omega (arith, length-drop at m)) in
    let sized : length (overwrite (drop at m) 0 bs) ≡ length (drop at m) =
      length-overwrite (drop at m) 0 bs (omega (arith, length-drop at m)) in
    let past : drop (at + length (overwrite (drop at m) 0 bs)) m ≡ [] =
      drop_all (at + length (overwrite (drop at m) 0 bs)) m
        (omega (arith, sized, length-drop at m)) in
    let joined : drop (0 + length bs) (drop at m) ≡ drop (at + length bs) m =
      ap (λ k. drop k (drop at m)) (let e : 0 + length bs ≡ length bs = omega arith in e)
      ∙ drop-drop (length bs) at m in
    rw tail (
      ap (λ l. take at m ++ (overwrite (drop at m) 0 bs ++ l)) past
      ∙ ap (λ l. take at m ++ l) (append-nil (overwrite (drop at m) 0 bs))
      ∙ ap (λ l. take at m ++ (bs ++ l)) joined)

minus-pos : (n k : ℕ) → k ≤ n → pos n -ℤ pos k ≡ pos (n - k)
unfolding ◌-ℤ◌
minus-pos n k h = ground arith

recv_fragment-once :
    (fd len : ℕ) (memory : List ℕ) (x : ℕ) (xs : List ℕ) (calls : List RecvCall)
    → 0 < len
    → (rest : List RecvCall) × (recv_fragment
          (pos fd)
          (some memory)
          (pos len)
          (received (x ∷ xs) ∷ recv_error eagain ∷ calls)
        ≡ some (record {
          ret = pos (length (x ∷ xs));
          memory = overwrite memory 0 (x ∷ xs);
          calls = rest;
        }))
unfolding recv_fragment
recv_fragment-once fd len memory x xs calls h =
    let (rest, e) = recv_loop-once memory x len xs calls in (rest, ground (arith, e))

recv_at_eq :
    (conn : NetConnection) (fd : ℕ) (buf buf' : SequentialBuffer) (at n : ℕ) (memory block : List ℕ)
    (moved : ℤ) (calls : List RecvCall) (now : ℤ) (r : Receiving)
    → conn.fd ≡ pos fd
    → load buf.block (pos at) (pos n) ≡ some memory
    → recv_fragment (pos fd) (some memory) (pos n) calls ≡ some r
    → store buf.block (pos at) r.memory ≡ some block
    → (ltb_ℤ (pos 0) r.ret ≡ true) × ((r.ret ==ℤ ca_ret connection_broken) ≡ false)
    → move_write_pointer (record buf { block = some block }) r.ret ≡ some (moved, buf')
    → recv_at conn buf (pos at) (pos n) calls now
      ≡ some (record {
        ret = r.ret;
        wire = [];
        conn = record conn { recv_buf = some buf'; last_op_time = now };
      })
unfolding recv_at
recv_at_eq conn fd buf buf' at n memory block moved calls now r ef el er es (up, ok) em =
    let got : recv_fragment conn.fd (some memory) (pos n) calls ≡ some r =
      ap (λ f. recv_fragment f (some memory) (pos n) calls) ef ∙ er in
    simp (el, got, es, up, ok, em)

recv_buffer_eq :
    (conn : NetConnection) (buf : SequentialBuffer) (m : List ℕ) (a b : ℕ) (calls : List RecvCall)
    (now : ℤ)
    → get_write_pointer buf ≡ some (some (pos b), held m (pos a) (pos b))
    → b < length m
    → recv_buffer conn buf calls now
      ≡ recv_at
          (record conn { recv_buf = some (held m (pos a) (pos b)) })
          (held m (pos a) (pos b))
          (pos b)
          (pos (length m - b))
          calls
          now
unfolding recv_buffer
recv_buffer_eq conn buf m a b calls now eg hb =
    let room : leb_ℤ (pos (length m - b)) (pos 0) ≡ false = ground arith in
    let within : ltb_ℤ (pos (length m)) (pos (length m - b)) ≡ false = ground arith in
    simp (eg, minus-pos (length m) b (omega arith), room, within)

recv_to_connection_eq :
    (conn : NetConnection) (buf : SequentialBuffer) (calls : List RecvCall) (now : ℤ)
    → IsUp conn
    → conn.recv_buf ≡ some buf
    → recv_to_connection conn calls now ≡ recv_buffer conn buf calls now
unfolding recv_to_connection
recv_to_connection_eq conn buf calls now (u, v) eb =
    ap
      (λ o. elim o as (λ (x : Option SequentialBuffer). Option Transferred) [
        | none ↦ stopped (ca_ret resource_not_available) conn
        | some b ↦ when_connected conn (recv_buffer conn b calls now)
      ])
      eb
    ∙ simp (u, v)

-- Bytes arrive at a connection that is up, with a buffer that is not full, at most as many as lie behind
-- the write pointer, and then no more: they join the queue that the buffer holds.
pub recv_to_connection_enqueues :
    (size fd b x : ℕ) (xs q : List ℕ) (conn : NetConnection) (buf buf1 : SequentialBuffer)
    (calls : List RecvCall) (now : ℤ)
    → IsUp conn
    → conn.fd ≡ pos fd
    → conn.recv_buf ≡ some buf
    → Holds size q buf
    → length q < size
    → get_write_pointer buf ≡ some (some (pos b), buf1)
    → b + length (x ∷ xs) ≤ size
    → (buf' : SequentialBuffer) × (recv_to_connection conn
          (received (x ∷ xs) ∷ recv_error eagain ∷ calls)
          now
        ≡ some (record {
          ret = pos (length (x ∷ xs));
          wire = [];
          conn = record conn { recv_buf = some buf'; last_op_time = now };
        }))
      × Holds size (q ++ (x ∷ xs)) buf'
recv_to_connection_enqueues size fd b x xs q conn buf buf1 calls now up ef eb hold lt eg room =
    let (m, a, b', eo, em, hab, hb, ec) = get_write_pointer-Roomy size q buf hold lt in
    let (same, _) = same_pointer b b' buf1 (held m (pos a) (pos b')) (sym eg ∙ eo) in
    let eo' : get_write_pointer buf ≡ some (some (pos b), held m (pos a) (pos b)) = rw same eo in
    let (block, buf', es, emv, hold') =
      direct_write_enqueues size b q (x ∷ xs) buf (held m (pos a) (pos b)) hold lt eo' (omega arith)
        room in
    let memory = take (length m - b) (drop b m) in
    let tail : length memory ≡ length m - b =
      omega (arith, length-take (length m - b) (drop b m), length-drop b m) in
    let (rest, er) = recv_fragment-once fd (length m - b) memory x xs calls (omega arith) in
    let stored : store (some m) (pos b) (overwrite memory 0 (x ∷ xs)) ≡ some block =
      store-eq-some m b (overwrite memory 0 (x ∷ xs))
        (omega (arith, tail, length-overwrite memory 0 (x ∷ xs) (omega (arith, tail))))
      ∙ ap some (overwrite-tail m b (x ∷ xs) (omega arith))
      ∙ sym (store-eq-some m b (x ∷ xs) (omega arith))
      ∙ es in
    (
      buf',
      recv_to_connection_eq conn buf _ now up eb
          ∙ recv_buffer_eq conn buf m a b _ now eo' (omega arith)
          ∙ recv_at_eq (record conn { recv_buf = some (held m (pos a) (pos b)) }) fd
              (held m (pos a) (pos b)) buf' b (length m - b) memory block _ _ now _ ef
              (load-eq-some m b (length m - b) (omega arith)) er stored (ground arith, ground arith)
              emv,
      hold',
    )

-- Where fewer bytes arrive than `len`, and at the next call enough for the rest, `recv_fragment` writes
-- the second bytes over the first ones, and returns the number of both.
pub partial_recv_overwrites :
    (fd len x y : ℕ) (memory xs ys : List ℕ) (calls : List RecvCall)
    → length (x ∷ xs) < len
    → len ≤ length (x ∷ xs) + length (y ∷ ys)
    → len ≤ length memory
    → length (y ∷ ys) ≤ len
    → (r : Receiving) × (recv_fragment
          (pos fd)
          (some memory)
          (pos len)
          (received (x ∷ xs) ∷ received (y ∷ ys) ∷ calls)
        ≡ some r)
      × (r.ret ≡ pos (length (x ∷ xs) + length (y ∷ ys)))
      × (take (length (y ∷ ys)) r.memory ≡ y ∷ ys)
unfolding recv_fragment recv_loop
partial_recv_overwrites fd len x y memory xs ys calls lt le room fits = (
  record {
    ret = pos (length (x ∷ xs) + length (y ∷ ys));
    memory = overwrite (overwrite memory 0 (x ∷ xs)) 0 (y ∷ ys);
    calls = calls;
  },
  ground arith,
  refl,
  take-append_self (y ∷ ys) _,
)
