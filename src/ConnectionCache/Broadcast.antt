-- ===== src/ConnectionCache/Broadcast.antt =====
-- How many connections a message goes to.
use cpp_assistant.Prelude.{
  ℕ, suc, ◌+◌, ◌≤◌, ◌<◌, ◌≡◌, refl, true, false, Option, none, some, List, [], ◌∷◌, length, ℤ, pos,
  ◌+ℤ◌, arith, if◌then◌else◌, leb_ℤ, ltb_ℤ, Bool-cases, Option-cases, inl, inr, max, pos-+ℤ, ap,
  ◌∙◌, sym, ◌>>=◌, ◌==◌,
}
use cpp_assistant.Strings.{Text}
use cpp_assistant.TimedTasks.{ret_failed}
use cpp_assistant.Network.{NetConnection}
use cpp_assistant.Network.Fragments.{SendCall, Sending, send_fragment}
use cpp_assistant.Dictionary.{Dict}
use cpp_assistant.ConnectionCache.{ConnIndex, ConnectionCache, ServerGroup, candidate, names_of}
use cpp_assistant.ConnectionCache.Sends.{send_each, send_to_all}

-- What the loop over the names has come to, with room for `limit` successful sends.
abbrev Within : ℕ → ℕ → Option (ℕ × ℤ × List Text) → Type 0
Within limit start none = ⊥
Within limit start (some (n, total, receivers)) = (n ≡ start + length receivers) × (n ≤ limit)

Within-cons :
    (limit start : ℕ) (name : Text) (r : Option (ℕ × ℤ × List Text))
    → Within limit (suc start) r
    → Within limit start (do (n, total, receivers) ← r; some (n, total, name ∷ receivers))
Within-cons limit start name none h = absurd h
Within-cons limit start name (some (n, total, rs)) h = omega arith

never : {o : Option Sending} → o ≡ none → (s : Sending) × (o ≡ some s) → ⊥
never e (s, f) = let clash = sym e ∙ f in cc clash

module _ (dict : Dict ConnIndex) (io : ℤ → List SendCall) (cache : ConnectionCache dict) where
  send_each-Within :
      (names : List Text) (k : ℕ) (msg : List ℕ) (msg_len : ℤ) (ok_count : ℕ) (bytes : ℤ)
      → ((fd : ℤ) → (s : Sending) × (send_fragment fd (some msg) msg_len (io fd) ≡ some s))
      → ok_count < max 1 k
      → Within (max 1 k) ok_count (send_each dict io cache names (pos k) msg msg_len ok_count bytes)
  unfolding send_each
  send_each-Within [] k msg msg_len ok_count bytes ends lt = omega arith
  send_each-Within (name ∷ names) k msg msg_len ok_count bytes ends lt =
      let skipped = send_each-Within names k msg msg_len ok_count bytes ends lt in
      elim (Option-cases (candidate dict cache true name)) [
        | inl miss ↦ rw (miss, send_each) skipped
        | inr (c, hit) ↦
            rw (hit, send_each)
              (elim (Option-cases c.conn_detail) [
                | inl dead ↦ rw dead skipped
                | inr (conn, alive) ↦
                    rw alive
                      (elim (Option-cases (send_fragment conn.fd (some msg) msg_len (io conn.fd))) [
                        | inl waits ↦ absurd (never waits (ends conn.fd))
                        | inr (s, done) ↦ rw done (elim (Bool-cases (ltb_ℤ s.ret (pos 0))) [
                          | inl bad ↦ rw bad skipped
                          | inr good ↦
                              rw good (elim (Bool-cases (leb_ℤ (pos k) (pos (suc ok_count)))) [
                                | inl enough ↦ rw enough (omega arith)
                                | inr more ↦ rw more (
                                    Within-cons (max 1 k) ok_count name _ (
                                      send_each-Within names k msg msg_len (suc ok_count)
                                        (bytes +ℤ s.ret) ends (ground arith)))
                              ])
                        ])
                      ])
              ])
      ]

  -- A message to all connections of a type goes out to as many as the maximum at most, but to one where
  -- the maximum is 0, if each call of `send_fragment` returns.
  pub send_to_all_bound :
      (type : Text) (k : ℕ) (msg : List ℕ) (msg_len : ℤ) (g : ServerGroup)
      → ((fd : ℤ) → (s : Sending) × (send_fragment fd (some msg) msg_len (io fd) ≡ some s))
      → cache.type_group ≡ some g
      → (ret : ℤ) × (receivers : List Text) × (send_to_all dict io cache type (pos k) msg msg_len
          ≡ some (ret, receivers))
        × (length receivers ≤ max 1 k)
  unfolding send_to_all
  send_to_all_bound type k msg msg_len g ends eg =
      reached (send_each dict io cache (names_of type g) (pos k) msg msg_len 0 (pos 0)) eg refl
        (send_each-Within (names_of type g) k msg msg_len 0 (pos 0) ends (omega arith))
    where
      reached :
          (r : Option (ℕ × ℤ × List Text))
          → cache.type_group ≡ some g
          → send_each dict io cache (names_of type g) (pos k) msg msg_len 0 (pos 0) ≡ r
          → Within (max 1 k) 0 r
          → (ret : ℤ) × (receivers : List Text) × (send_to_all dict io cache type
                (pos k)
                msg
                msg_len
              ≡ some (ret, receivers))
            × (length receivers ≤ max 1 k)
      reached none eg e h = absurd h
      reached (some (n, total, rs)) eg e h =
          (if n == 0 then ret_failed else total, rs, simp (eg, e), omega arith)

  -- The first name of a type can be sent to: with a maximum of 0 the message goes to it all the same.
  pub zero_receivers_still_sends :
      (type name : Text) (names : List Text) (g : ServerGroup) (c : ConnIndex)
      (conn : NetConnection) (msg : List ℕ) (msg_len : ℤ) (s : Sending) (m : ℕ)
      → cache.type_group ≡ some g
      → names_of type g ≡ name ∷ names
      → candidate dict cache true name ≡ some c
      → c.conn_detail ≡ some conn
      → send_fragment conn.fd (some msg) msg_len (io conn.fd) ≡ some s
      → s.ret ≡ pos m
      → send_to_all dict io cache type (pos 0) msg msg_len ≡ some (pos m, name ∷ [])
  unfolding send_to_all send_each
  zero_receivers_still_sends type name names g c conn msg msg_len s m eg en ec ed es er =
      let nonneg : ltb_ℤ (pos m) (pos 0) ≡ false = ground arith in
      let sum : pos 0 +ℤ pos m ≡ pos m = pos-+ℤ 0 m ∙ ap pos (omega arith) in
      simp (eg, en) (rw (ec, send_each) (rw ed (rw es (rw er (rw nonneg (rw sum refl))))))
