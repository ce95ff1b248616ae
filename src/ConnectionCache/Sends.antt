-- ===== src/ConnectionCache/Sends.antt =====
-- `send_to_single_connection` and `send_to_connections_by_type` of connection_cache.cpp. What `send` gives
-- for each descriptor is a function.
use cpp_assistant.Prelude.{
  ℕ, suc, Bool, ◌||◌, Option, none, some, List, [], ◌∷◌, ℤ, pos, ◌+ℤ◌, leb_ℤ, ltb_ℤ, if◌then◌else◌,
  ◌==◌, ◌>>=◌, not, true,
}
use cpp_assistant.Strings.{Text}
use cpp_assistant.TimedTasks.{ret_failed}
use cpp_assistant.Network.{NetConnection}
use cpp_assistant.Network.Fragments.{SendCall, send_fragment}
use cpp_assistant.Dictionary.{Dict}
use cpp_assistant.ConnectionCache.{
  ConnIndex, ConnectionCache, candidate, names_of, pick_one_connection,
}

-- What is returned, and the bytes that have gone to the peer of each name.
pub record Broadcast : Type 0 where
  pub ret : ℤ
  pub deliveries : List (Text × List ℕ)

abbrev pub failed : Option Broadcast
failed = some (record { ret = ret_failed; deliveries = [] })

-- A message to one peer.
unfoldable pub send_message :
    Text → NetConnection → List ℕ → ℤ → (ℤ → List SendCall) → Option Broadcast
send_message name conn msg msg_len io = do
  s ← send_fragment conn.fd (some msg) msg_len (io conn.fd)
  some (record {
    ret = if ltb_ℤ s.ret (pos 0) then ret_failed else s.ret;
    deliveries = (name, s.wire) ∷ [];
  })

module _ (dict : Dict ConnIndex) (io : ℤ → List SendCall) where
  unfoldable pub send_to_single_connection :
      ConnectionCache dict → Option Text → Option (List ℕ) → ℤ → Option Broadcast
  send_to_single_connection cache (some name) (some msg) msg_len =
      if ltb_ℤ msg_len (pos 0) then failed else elim (candidate dict cache true name) [
        | none ↦ failed
        | some c ↦ elim c.conn_detail [
          | none ↦ failed
          | some conn ↦ send_message name conn msg msg_len io
        ]
      ]
  send_to_single_connection cache name msg msg_len = failed

  -- The loop over the names of the type; `ok_count` connections have been sent `bytes` bytes. The names
  -- of the result are those that a successful send was made to.
  unfoldable pub send_each :
      ConnectionCache dict → List Text → ℤ → List ℕ → ℤ → ℕ → ℤ → Option (ℕ × ℤ × List Text)
  send_each cache [] max_count msg msg_len ok_count bytes = some (ok_count, bytes, [])
  send_each cache (name ∷ names) max_count msg msg_len ok_count bytes =
      let skipped = send_each cache names max_count msg msg_len ok_count bytes in
      elim (candidate dict cache true name) [
        | none ↦ skipped
        | some c ↦ elim c.conn_detail [
          | none ↦ skipped
          | some conn ↦ elim (send_fragment conn.fd (some msg) msg_len (io conn.fd)) [
            | none ↦ none
            | some s ↦
                let rest =
                  send_each cache names max_count msg msg_len (suc ok_count) (bytes +ℤ s.ret) in
                if ltb_ℤ s.ret (pos 0)
                then skipped
                else if leb_ℤ max_count (pos (suc ok_count))
                then some (suc ok_count, bytes +ℤ s.ret, name ∷ [])
                else (do (n, total, receivers) ← rest; some (n, total, name ∷ receivers))
          ]
        ]
      ]

  unfoldable pub send_to_all : ConnectionCache dict → Text → ℤ → List ℕ → ℤ → Option (ℤ × List Text)
  send_to_all cache type max_count msg msg_len = do
    g ← cache.type_group
    (ok_count, bytes, receivers) ← send_each cache (names_of type g) max_count msg msg_len 0 (pos 0)
    some (if ok_count == 0 then ret_failed else bytes, receivers)

  -- The index that is picked has a connection, which is read without a test.
  unfoldable pub send_to_picked :
      ConnectionCache dict → Text → List ℕ → ℤ → ℕ → ℤ → ℕ → Option (ℤ × List Text)
  send_to_picked cache type msg msg_len policy id rand = do
    picked ← pick_one_connection dict cache (some type) policy id true rand
    elim picked [
      | none ↦ some (ret_failed, [])
      | some c ↦ (do
        conn ← c.conn_detail
        b ← send_message conn.peer_name conn msg msg_len io
        some (b.ret, (if ltb_ℤ b.ret (pos 0) then [] else conn.peer_name ∷ [])))
    ]

  unfoldable pub send_to_connections_by_type :
      ConnectionCache dict
      → Option Text
      → ℤ
      → Option (List ℕ)
      → ℤ
      → Bool
      → ℕ
      → ℤ
      → ℕ
      → Option (ℤ × List Text)
  send_to_connections_by_type cache (some type) max_count (some msg) msg_len to_all policy id rand =
      if ltb_ℤ max_count (pos 0) || ltb_ℤ msg_len (pos 0)
      then some (ret_failed, [])
      else if not to_all
      then send_to_picked cache type msg msg_len policy id rand
      else send_to_all cache type max_count msg msg_len
  send_to_connections_by_type cache type max_count msg msg_len to_all policy id rand =
      some (ret_failed, [])
