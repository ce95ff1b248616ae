-- ===== src/ConnectionCache/Runs.antt =====
-- The cache over time: calls of `create`, `add`, `del` and `destroy` in any order, each with the length of
-- the name that it is given.
use cpp_assistant.Prelude.{
  ℕ, zero, suc, ◌≡◌, refl, Bool, true, Option, none, some, [], ◌∷◌, length, ℤ, pos, Bool-cases, inl,
  inr, some_inj, ap, ◌∙◌, sym, subst, text_eq, text_eq_iff, get_elem?, ◌↔◌,
}
use cpp_assistant.Strings.{Text}
use cpp_assistant.Dictionary.{Dict}
use cpp_assistant.ConnectionCache.{
  ConnIndex, ServerGroup, ConnectionCache, names_of, create_cache, add_connection, del_connection,
}
use cpp_assistant.ConnectionCache.Grouping.{Known, has_pair}
use cpp_assistant.ConnectionCache.Agreeing.{Fine, add-Fine, del-Fine, create-Fine}

module _ (dict : Dict ConnIndex) where
  open dict use {
    Content, created, dict_find, dict_add, dict_delete, find-created, find-add, add_fresh,
    find-delete,
  }

  -- What the constructor and `destroy` leave.
  abbrev pub blank : ConnectionCache dict
  blank = record { dictionary = none; type_group = none }

  pub data Reachable : ConnectionCache dict → Type 0 where
    constructed : Reachable blank
    destroyed : {cache : ConnectionCache dict} → Reachable cache → Reachable blank
    after_create :
        {cache : ConnectionCache dict}
        → Reachable cache
        → (dict_ok group_ok : Bool) → Reachable (create_cache dict cache dict_ok group_ok).1
    after_add :
        {cache cache' : ConnectionCache dict} {ret : ℤ}
        → Reachable cache
        → (name : Text) (conn : ConnIndex) (conn_len : ℤ) (alloc_ok : Bool)
        → add_connection dict cache (some name) (pos (length name)) (some conn) conn_len alloc_ok
          ≡ some (ret, cache')
        → Reachable cache'
    after_del :
        {cache cache' : ConnectionCache dict} {ret : ℤ}
        → Reachable cache
        → (name : Text)
        → del_connection dict cache (some name) (pos (length name)) ≡ some (ret, cache')
        → Reachable cache'

  Reachable-Fine : {cache : ConnectionCache dict} → Reachable cache → Fine dict cache
  Reachable-Fine constructed = refl
  Reachable-Fine (destroyed r) = refl
  Reachable-Fine (after_create {cache} r a b) =
      create-Fine dict cache.dictionary cache.type_group a b (Reachable-Fine r)
  Reachable-Fine (after_add {cache} {cache'} {ret} r name conn conn_len ok e) =
      add-Fine dict cache.dictionary cache.type_group cache' ret name conn conn_len ok e
        (Reachable-Fine r)
  Reachable-Fine (after_del {cache} {cache'} {ret} r name e) =
      del-Fine dict cache.dictionary cache.type_group cache' ret name e (Reachable-Fine r)

  names_of-has_pair :
      (type name : Text) (g : ServerGroup)
      → has_pair g type name ≡ true
      → (i : ℕ) × (get_elem? (names_of type g) i ≡ some name)
  unfolding names_of has_pair
  names_of-has_pair type name [] h = absurd (cc h)
  names_of-has_pair type name ((t, n) ∷ g) h = elim (Bool-cases (text_eq t type)) [
    | inl same ↦ elim (Bool-cases (text_eq n name)) [
      | inl hit ↦ (0, rw same (ap some ((text_eq_iff n name).0 hit)))
      | inr miss ↦
          let (i, e) = names_of-has_pair type name g (rw (same, miss) at h) in (suc i, rw same e)
    ]
    | inr differ ↦ let (i, e) = names_of-has_pair type name g (rw differ at h) in (i, rw differ e)
  ]

  names_of-Known :
      (d : Content) (type name : Text) (g : ServerGroup) (i : ℕ)
      → Known dict d g
      → get_elem? (names_of type g) i ≡ some name
      → (c : ConnIndex) × (dict_find d name ≡ some c) × (c.server_type ≡ type)
  unfolding names_of
  names_of-Known d type name [] i h e = absurd (cc e)
  names_of-Known d type name ((t, n) ∷ g) i ((c, f, et), hs) e =
      elim (Bool-cases (text_eq t type)) [
        | inr differ ↦ names_of-Known d type name g i hs (rw differ at e)
        | inl same ↦
            placed i (rw same at e) (λ k q. names_of-Known d type name g k hs q)
              ((text_eq_iff t type).0 same)
      ]
    where
      placed :
          (i : ℕ)
          → get_elem? (n ∷ names_of type g) i ≡ some name
          → ((k : ℕ)
              → get_elem? (names_of type g) k ≡ some name
              → (c : ConnIndex) × (dict_find d name ≡ some c) × (c.server_type ≡ type))
          → t ≡ type
          → (c : ConnIndex) × (dict_find d name ≡ some c) × (c.server_type ≡ type)
      placed zero e later typed = (c, ap (dict_find d) (sym (some_inj e)) ∙ f, et ∙ typed)
      placed (suc k) e later typed = later k e

  -- Whatever connections have been added and deleted, the names of a type are just those of the
  -- dictionary whose connections have the type, so `pick_one_connection` never misses an index.
  pub names_of_type :
      (cache : ConnectionCache dict) (d : Content) (g : ServerGroup) (type name : Text)
      → Reachable cache
      → cache.dictionary ≡ some d
      → cache.type_group ≡ some g
      → ((i : ℕ) × (get_elem? (names_of type g) i ≡ some name))
        ↔ ((c : ConnIndex) × (dict_find d name ≡ some c) × (c.server_type ≡ type))
  names_of_type cache d g type name r ed eg =
      let whole_cache : cache ≡ record { dictionary = some d; type_group = some g } =
        ap
          (λ (x : Option Content × Option ServerGroup). record {
            dictionary = x.0;
            type_group = x.1;
          })
          (λ i. (ed i, eg i)) in
      let (known, distinct, listed) = subst (Fine dict) whole_cache (Reachable-Fine r) in
      (
        (λ (i, e). names_of-Known d type name g i known e),
        (λ (c, f, t).
            names_of-has_pair type name g
              (subst (λ u. has_pair g u name ≡ true) t (listed name c f))),
      )
