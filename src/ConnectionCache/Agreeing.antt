-- ===== src/ConnectionCache/Agreeing.antt =====
-- What `create_cache`, `add_connection` and `del_connection` of connection_cache.cpp do to the agreement of
-- the dictionary with the group of the types.
use cpp_assistant.Prelude.{
  ◌≡◌, refl, Bool, true, false, ◌||◌, Option, none, some, length, ℤ, pos, arith, take_all,
  if◌then◌else◌, leb_ℤ, ltb_ℤ, Bool-cases, Option-cases, inl, inr, some_inj, ap, ◌∙◌, sym, subst,
  text_eq, text_eq_iff, text_eq_refl,
}
use cpp_assistant.Strings.{Text}
use cpp_assistant.TimedTasks.{ret_ok, ret_failed}
use cpp_assistant.Dictionary.{
  Dict, char_dict_add_element, char_dict_delete_element, char_dict_find_value, add_key, key_of,
  delete_found,
}
use cpp_assistant.ConnectionCache.{
  ConnIndex, ServerGroup, ConnectionCache, group_insert, group_erase, create_cache, add_connection,
  del_connection, erase_name, group_added,
}
use cpp_assistant.ConnectionCache.Grouping.{
  Distinct, Known, has_pair, insert-Distinct, erase-Distinct, Known-absent, Known-other,
  Known-insert, Known-erase, erase_removes, has_pair-insert, has_pair-erase,
}

module _ (dict : Dict ConnIndex) where
  open dict use {
    Content, created, dict_find, dict_add, dict_delete, find-created, find-add, add_fresh,
    find-delete,
  }

  -- The dictionary and the group have the same names, each under its type.
  abbrev pub Agree : Content → ServerGroup → Type 0
  Agree d g =
      Known dict d g
      × Distinct g
      × ((k : Text) (c : ConnIndex) → dict_find d k ≡ some c → has_pair g c.server_type k ≡ true)

  abbrev pub Fine : ConnectionCache dict → Type 0
  Fine cache = elim cache.dictionary as (λ (x : Option Content). Type 0) [
    | none ↦ cache.type_group ≡ none
    | some d ↦ elim cache.type_group as (λ (x : Option ServerGroup). Type 0) [
      | none ↦ (k : Text) → dict_find d k ≡ none
      | some g ↦ Agree d g
    ]
  ]

  Agree-add :
      (d d' : Content) (g : ServerGroup) (k : Text) (c : ConnIndex)
      → dict_add d k c ≡ some d'
      → Agree d g
      → Agree d' (group_insert c.server_type k g)
  Agree-add d d' g k c e (known, distinct, listed) =
      let fresh = Known-absent dict d g k known (add_fresh d d' k c e) in
      let added : dict_find d' k ≡ some c = find-add d d' k k c e ∙ rw (text_eq_refl k) refl in
      let others : (j : Text) → text_eq k j ≡ false → dict_find d' j ≡ dict_find d j =
        λ j h. find-add d d' k j c e ∙ rw h refl in
      (
        Known-insert dict d' g c.server_type k c added refl
            (Known-other dict d d' g k others fresh known),
        insert-Distinct c.server_type k g fresh distinct,
        λ j b f. elim (Bool-cases (text_eq k j)) [
          | inl same ↦
              let eq : k ≡ j = (text_eq_iff k j).0 same in
              let types : c ≡ b = some_inj (sym added ∙ ap (dict_find d') eq ∙ f) in
              rw (has_pair-insert c.server_type k b.server_type j g, ← types)
                (rw (text_eq_refl c.server_type, same) refl)
          | inr differ ↦
              let old : has_pair g b.server_type j ≡ true =
                listed j b (sym (others j differ) ∙ f) in
              rw (has_pair-insert c.server_type k b.server_type j g) (ground (arith, old))
        ],
      )

  Agree-delete :
      (d d' : Content) (g : ServerGroup) (k : Text) (c : ConnIndex)
      → dict_find d k ≡ some c
      → dict_delete d k ≡ some d'
      → Agree d g
      → Agree d' (group_erase c.server_type k g)
  Agree-delete d d' g k c f e (known, distinct, listed) =
      let others : (j : Text) → text_eq k j ≡ false → dict_find d' j ≡ dict_find d j =
        λ j h. find-delete d d' k j e ∙ rw h refl in
      let gone : dict_find d' k ≡ none = find-delete d d' k k e ∙ rw (text_eq_refl k) refl in
      (
        Known-other dict d d' (group_erase c.server_type k g) k others
            (erase_removes dict d g k c f known distinct)
            (Known-erase dict d g c.server_type k known),
        erase-Distinct c.server_type k g distinct,
        λ j b h. elim (Bool-cases (text_eq k j)) [
          | inl same ↦
              let eq : k ≡ j = (text_eq_iff k j).0 same in
              let clash : none ≡ some b = sym gone ∙ ap (dict_find d') eq ∙ h in absurd (cc clash)
          | inr differ ↦
              has_pair-erase c.server_type k b.server_type j g differ
                (listed j b (sym (others j differ) ∙ h))
        ],
      )

  whole : (name : Text) → key_of dict name (pos (length name)) ≡ name
  whole name = take_all (length name) name (omega arith)

  same_cache :
      {r ret : ℤ} {cache cache' : ConnectionCache dict}
      → ◌≡◌ {A = Option (ℤ × ConnectionCache dict)} (some (r, cache)) (some (ret, cache'))
      → Fine cache
      → Fine cache'
  same_cache {cache = cache} {cache' = cache'} e h =
      let same : cache ≡ cache' = cc in subst Fine same h

  pub add-Fine :
      (d : Option Content) (g : Option ServerGroup) (cache' : ConnectionCache dict) (ret : ℤ)
      (name : Text) (conn : ConnIndex) (conn_len : ℤ) (alloc_ok : Bool)
      → add_connection dict
          (record { dictionary = d; type_group = g })
          (some name)
          (pos (length name))
          (some conn)
          conn_len
          alloc_ok
        ≡ some (ret, cache')
      → Fine (record { dictionary = d; type_group = g })
      → Fine cache'
  unfolding add_connection group_added char_dict_add_element add_key
  add-Fine none g cache' ret name conn conn_len alloc_ok e h = same_cache e h
  add-Fine (some d) g cache' ret name conn conn_len alloc_ok e h =
      elim (Bool-cases (leb_ℤ (pos (length name)) (pos 0) || leb_ℤ conn_len (pos 0))) [
        | inl bad ↦ same_cache (rw bad at e) h
        | inr good ↦ allocated alloc_ok (rw (good, whole name) at e)
      ]
    where
      inserted :
          (d' : Content)
          → dict_add d name conn ≡ some d'
          → (g : Option ServerGroup) → Fine (record { dictionary = some d; type_group = g })
          → group_added dict (some d') name conn g ≡ some (ret, cache')
          → Fine cache'
      inserted d' a none h e = absurd (cc e)
      inserted d' a (some g') h e = same_cache e (Agree-add d d' g' name conn a h)

      allocated :
          (ok : Bool)
          → (let (r, d'') = add_key dict d name conn ok in
              let d' = some d'' in
              if ltb_ℤ r (pos 0)
              then some (ret_failed, record { dictionary = d'; type_group = g })
              else group_added dict d' name conn g)
            ≡ some (ret, cache')
          → Fine cache'
      allocated false e = same_cache e h
      allocated true e = elim (Option-cases (dict_add d name conn)) [
        | inl failed ↦ same_cache (rw (failed, add_key) at e) h
        | inr (d', done) ↦ inserted d' done g h (rw (done, add_key) at e)
      ]

  found_whole :
      (d : Content) (name : Text)
      → char_dict_find_value dict (some name) (pos (length name)) (some d) ≡ dict_find d name
  unfolding char_dict_find_value
  found_whole d name = ap (dict_find d) (whole name)

  delete_whole :
      (d d' : Content) (name : Text) (c : ConnIndex)
      → dict_find d name ≡ some c
      → dict_delete d name ≡ some d'
      → char_dict_delete_element dict (some name) (pos (length name)) (some d) ≡ (ret_ok, some d')
  unfolding char_dict_delete_element
  delete_whole d d' name c e f =
      rw (whole name, char_dict_delete_element)
        (rw (e, char_dict_delete_element) (rw (whole name, f) refl))

  delete_missing :
      (d : Content) (name : Text)
      → dict_find d name ≡ none
      → char_dict_delete_element dict (some name) (pos (length name)) (some d)
        ≡ (ret_failed, some d)
  unfolding char_dict_delete_element
  delete_missing d name e =
      rw (whole name, char_dict_delete_element) (rw (e, char_dict_delete_element) refl)

  erase_name_found :
      (d : Content) (g : ServerGroup) (name : Text) (c : ConnIndex)
      → dict_find d name ≡ some c
      → erase_name dict
          (record { dictionary = some d; type_group = some g })
          name
          (pos (length name))
        ≡ some
            (record { dictionary = some d; type_group = some (group_erase c.server_type name g) })
  unfolding erase_name
  erase_name_found d g name c e = rw (found_whole d name, erase_name) (rw (e, erase_name) refl)

  erase_name_missing :
      (d : Content) (g : Option ServerGroup) (name : Text)
      → dict_find d name ≡ none
      → erase_name dict (record { dictionary = some d; type_group = g }) name (pos (length name))
        ≡ some (record { dictionary = some d; type_group = g })
  unfolding erase_name
  erase_name_missing d g name e = rw (found_whole d name, erase_name) (rw (e, erase_name) refl)

  missing-Fine :
      (d : Content) (g : Option ServerGroup) (cache' : ConnectionCache dict) (ret : ℤ) (name : Text)
      → dict_find d name ≡ none
      → del_connection dict
          (record { dictionary = some d; type_group = g })
          (some name)
          (pos (length name))
        ≡ some (ret, cache')
      → Fine (record { dictionary = some d; type_group = g })
      → Fine cache'
  unfolding del_connection
  missing-Fine d g cache' ret name missing e h =
      same_cache (simp (erase_name_missing d g name missing, delete_missing d name missing) at e) h

  pub del-Fine :
      (d : Option Content) (g : Option ServerGroup) (cache' : ConnectionCache dict) (ret : ℤ)
      (name : Text)
      → del_connection dict
          (record { dictionary = d; type_group = g })
          (some name)
          (pos (length name))
        ≡ some (ret, cache')
      → Fine (record { dictionary = d; type_group = g })
      → Fine cache'
  unfolding del_connection erase_name char_dict_find_value char_dict_delete_element
  del-Fine none g cache' ret name e h = same_cache e h
  del-Fine (some d) none cache' ret name e h = missing-Fine d none cache' ret name (h name) e h
  del-Fine (some d) (some g) cache' ret name e h = elim (Option-cases (dict_find d name)) [
    | inl missing ↦ missing-Fine d (some g) cache' ret name missing e h
    | inr (c, there) ↦
        let (d', gone) = delete_found dict d name c there in
        same_cache
          (simp (erase_name_found d g name c there, delete_whole d d' name c there gone) at e)
          (Agree-delete d d' g name c there gone h)
  ]

  pub create-Fine :
      (d : Option Content) (g : Option ServerGroup) (dict_ok group_ok : Bool)
      → Fine (record { dictionary = d; type_group = g })
      → Fine (create_cache dict (record { dictionary = d; type_group = g }) dict_ok group_ok).1
  unfolding create_cache
  create-Fine none (some g) dict_ok group_ok h = absurd (cc h)
  create-Fine none none false group_ok h = refl
  create-Fine none none true false h = find-created
  create-Fine none none true true h =
      (tt, tt, λ k c f. let clash = sym (find-created k) ∙ f in cc clash)
  create-Fine (some d) none dict_ok false h = h
  create-Fine (some d) none dict_ok true h =
      (tt, tt, λ k c f. let clash = sym (h k) ∙ f in cc clash)
  create-Fine (some d) (some g) dict_ok group_ok h = h
