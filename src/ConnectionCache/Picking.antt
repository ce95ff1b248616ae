-- ===== src/ConnectionCache/Picking.antt =====
-- Which connection `pick_one_connection` picks.
use cpp_assistant.Prelude.{
  ℕ, zero, suc, ◌+◌, ◌-◌, ◌%◌, ◌≤◌, ◌<◌, ◌≡◌, refl, Bool, false, Option, none, some, List, [], ◌∷◌,
  length, ℤ, abs, arith, if◌then◌else◌, ltb, ◌==◌, get_elem?, Bool-cases, Option-cases, inl, inr,
  ap, ◌∙◌, sym, some_inj,
}
use cpp_assistant.Strings.{Text}
use cpp_assistant.Dictionary.{Dict}
use cpp_assistant.ConnectionCache.{
  ConnIndex, ConnectionCache, ServerGroup, candidate, names_of, pick_one_connection, search_all,
  search_from, node_offset, send_policy_by_id,
}

minus_zero : (n : ℕ) → n - 0 ≡ n
minus_zero n = omega arith

module _ (dict : Dict ConnIndex) (cache : ConnectionCache dict) (alive_only : Bool) where
  -- A connection of one of the names, which can be picked.
  abbrev pub PickedFrom : List Text → Option ConnIndex → Type 0
  PickedFrom names picked =
      (i : ℕ) × (n : Text) × (c : ConnIndex) × (picked ≡ some c)
      × (get_elem? names i ≡ some n)
      × (candidate dict cache alive_only n ≡ some c)

  search_all-finds :
      (names : List Text) (i : ℕ) (n : Text) (c : ConnIndex)
      → get_elem? names i ≡ some n
      → candidate dict cache alive_only n ≡ some c
      → PickedFrom names (search_all dict cache alive_only names)
  unfolding search_all
  search_all-finds [] i n c e h = cc e
  search_all-finds (m ∷ names) zero n c e h =
      let hit : candidate dict cache alive_only m ≡ some c =
        ap (candidate dict cache alive_only) (some_inj e) ∙ h in
      (0, m, c, rw (hit, search_all) refl, refl, hit)
  search_all-finds (m ∷ names) (suc i) n c e h =
      elim (Option-cases (candidate dict cache alive_only m)) [
        | inr (d, hit) ↦ (0, m, d, rw (hit, search_all) refl, refl, hit)
        | inl miss ↦
            let (j, n', c', p, q, r) = search_all-finds names i n c e h in
            (suc j, n', c', rw (miss, search_all) p, q, r)
      ]

  -- What the cycle with an offset does once it has reached the offset.
  abbrev or_restart : List Text → Option ConnIndex → Option ConnIndex
  or_restart all found = elim found as (λ (x : Option ConnIndex). Option ConnIndex) [
    | none ↦ (if ltb 1 (length all) then search_all dict cache alive_only all else none)
    | some c ↦ some c
  ]

  search_from-at :
      (all names : List Text) (offset current : ℕ) (n : Text)
      → current ≤ offset
      → get_elem? names (offset - current) ≡ some n
      → search_from dict cache alive_only all offset current names
        ≡ or_restart all (candidate dict cache alive_only n)
  unfolding search_from
  search_from-at all [] offset current n h e = cc e
  search_from-at all (m ∷ names) offset current n h e = elim (Bool-cases (ltb current offset)) [
    | inl before ↦
        let next : offset - current ≡ suc (offset - (current + 1)) = ground arith in
        rw before (search_from-at all names offset (current + 1) n (ground arith) (rw next at e))
    | inr here ↦
        let start : offset - current ≡ 0 = ground arith in rw (here, some_inj (rw start at e)) refl
  ]

  -- The place of a list of one element.
  only_one :
      (names : List Text) (i : ℕ) (n : Text)
      → ltb 1 (length names) ≡ false
      → get_elem? names i ≡ some n
      → i ≡ 0
  only_one [] i n h e = cc e
  only_one (m ∷ []) zero n h e = refl
  only_one (m ∷ []) (suc i) n h e = absurd (cc e)
  only_one (m ∷ k ∷ names) i n h e = absurd (ground arith)

  get_elem?-some :
      (names : List Text) (i : ℕ) → i < length names → (n : Text) × (get_elem? names i ≡ some n)
  get_elem?-some [] i h = absurd (omega arith)
  get_elem?-some (m ∷ names) zero h = (m, refl)
  get_elem?-some (m ∷ names) (suc i) h = get_elem?-some names i (omega arith)

  search_from-finds :
      (names : List Text) (offset i : ℕ) (n : Text) (c : ConnIndex)
      → offset < length names
      → get_elem? names i ≡ some n
      → candidate dict cache alive_only n ≡ some c
      → PickedFrom names (search_from dict cache alive_only names offset 0 names)
  search_from-finds names offset i n c lt e h =
      let (m, em) = get_elem?-some names offset lt in
      let found =
        search_from-at names names offset 0 m (omega arith)
          (ap (get_elem? names) (minus_zero offset) ∙ em) in
      elim (Option-cases (candidate dict cache alive_only m)) [
        | inr (d, hit) ↦ (offset, m, d, found ∙ ap (or_restart names) hit, em, hit)
        | inl miss ↦ elim (Bool-cases (ltb 1 (length names))) [
          | inl more ↦
              let (j, n', c', p, q, r) = search_all-finds names i n c e h in
              (j, n', c', found ∙ ap (or_restart names) miss ∙ rw more p, q, r)
          | inr one ↦
              let first : i ≡ 0 = only_one names i n one e in
              let zeroth : offset ≡ 0 = ground arith in
              let same : m ≡ n =
                some_inj (sym em ∙ ap (get_elem? names) (zeroth ∙ sym first) ∙ e) in
              let clash = sym miss ∙ ap (candidate dict cache alive_only) same ∙ h in
              absurd (cc clash)
        ]
      ]

  nonempty : (names : List Text) (i : ℕ) (n : Text) → get_elem? names i ≡ some n → 0 < length names
  nonempty [] i n e = absurd (cc e)
  nonempty (m ∷ names) i n e = omega arith

  pick_eq :
      (type : Text) (policy : ℕ) (id : ℤ) (rand : ℕ) (g : ServerGroup)
      → cache.type_group ≡ some g
      → 0 < length (names_of type g)
      → pick_one_connection dict cache (some type) policy id alive_only rand
        ≡ some (
            search_from dict cache alive_only
              (names_of type g)
              (node_offset policy id rand (length (names_of type g)))
              0
              (names_of type g))
  unfolding pick_one_connection
  pick_eq type policy id rand g eg h =
      let some_names : (length (names_of type g) == 0) ≡ false = ground arith in
      simp (eg, some_names)

  -- If some name of the type has a connection that can be picked, `pick_one_connection` picks one that
  -- can be picked, of a name of the type, whatever the policy, the id and the random number are.
  pub pick_one_connection_finds :
      (type : Text) (policy : ℕ) (id : ℤ) (rand : ℕ) (g : ServerGroup) (i : ℕ) (n : Text)
      (c : ConnIndex)
      → cache.type_group ≡ some g
      → get_elem? (names_of type g) i ≡ some n
      → candidate dict cache alive_only n ≡ some c
      → (picked : Option ConnIndex) × (pick_one_connection dict cache
            (some type)
            policy
            id
            alive_only
            rand
          ≡ some picked)
        × PickedFrom (names_of type g) picked
  pick_one_connection_finds type policy id rand g i n c eg e h =
      let count = length (names_of type g) in
      let lt = nonempty (names_of type g) i n e in
      (
        _,
        pick_eq type policy id rand g eg lt,
        search_from-finds (names_of type g) (node_offset policy id rand count) i n c
            (offset_below policy id rand count lt) e h,
      )
    where
      offset_below :
          (policy : ℕ) (id : ℤ) (rand count : ℕ)
          → 0 < count
          → node_offset policy id rand count < count
      offset_below policy id rand count h = ground arith

  -- With the policy SEND_POLICY_BY_ID the id alone chooses the name: it is the one at the place of the
  -- remainder of the id by the number of names, if that one can be picked.
  pub pick_by_id :
      (type : Text) (id : ℤ) (rand : ℕ) (g : ServerGroup) (n : Text) (c : ConnIndex)
      → cache.type_group ≡ some g
      → 0 < length (names_of type g)
      → get_elem? (names_of type g) (abs id % length (names_of type g)) ≡ some n
      → candidate dict cache alive_only n ≡ some c
      → pick_one_connection dict cache (some type) send_policy_by_id id alive_only rand
        ≡ some (some c)
  pick_by_id type id rand g n c eg lt e h =
      pick_eq type send_policy_by_id id rand g eg lt
      ∙ ap some (
          search_from-at (names_of type g) (names_of type g) _ 0 n (omega arith)
            (ap (get_elem? (names_of type g)) (minus_zero _) ∙ e)
          ∙ ap (or_restart (names_of type g)) h)
