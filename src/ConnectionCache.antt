-- ===== src/ConnectionCache.antt =====
-- Connections by name and by the type of the peer: code/frameworks/framework_public/connection_cache.cpp and
-- connection_cache.h. A `none` result is an access through a null pointer, or a loop of `send` that goes
-- on beyond the calls given.
pub mod Sends
pub mod Picking
pub mod Grouping
pub mod Broadcast
pub mod Agreeing
pub mod Runs
mod Examples
use cpp_assistant.Prelude.{
  ℕ, zero, suc, ◌+◌, ◌%◌, ◌<◌, ◌≡◌, Bool, true, false, ◌||◌, ◌&&◌, not, Option, none, some, List,
  [], ◌∷◌, ◌++◌, length, ℤ, pos, negsuc, ◌+ℤ◌, abs, leb_ℤ, ltb_ℤ, ◌==ℤ◌, if◌then◌else◌, ltb, leb,
  ◌==◌, text_eq, ◌>>=◌, take, get_elem?,
}
use cpp_assistant.Prelude.TextMap.{text_lt}
use cpp_assistant.Strings.{Text}
use cpp_assistant.TimedTasks.{ret_ok, ret_failed}
use cpp_assistant.Network.{NetConnection}
use cpp_assistant.Network.Fragments.{SendCall, Sending, send_fragment}
use cpp_assistant.Dictionary.{
  Dict, char_dict_create, char_dict_add_element, char_dict_delete_element, char_dict_find_value,
}

-- `net_conn_index`.
pub record ConnIndex : Type 0 where
  pub server_type : Text
  pub is_server : Bool
  pub conn_alias : Text
  pub peer_ip : Text
  pub peer_port : ℕ
  pub conn_detail : Option NetConnection
  pub fd : ℤ
  pub is_master : Bool

-- `server_group`, a multimap from types to names: pairs in the order of the types, and of the
-- insertions where the types are the same.
abbrev pub ServerGroup : Type 0
ServerGroup = List (Text × Text)

-- `insert`: behind all pairs with a type that is not greater.
unfoldable pub group_insert : Text → Text → ServerGroup → ServerGroup
group_insert type name [] = (type, name) ∷ []
group_insert type name ((t, n) ∷ g) =
    let rest = group_insert type name g in
    if text_lt type t then (type, name) ∷ ((t, n) ∷ g) else (t, n) ∷ rest

-- The names in `equal_range(type)`.
unfoldable pub names_of : Text → ServerGroup → List Text
names_of type [] = []
names_of type ((t, n) ∷ g) = let rest = names_of type g in if text_eq t type then n ∷ rest else rest

-- The loop of `del`: the first pair of the type that has the name is erased.
unfoldable pub group_erase : Text → Text → ServerGroup → ServerGroup
group_erase type name [] = []
group_erase type name ((t, n) ∷ g) =
    let rest = group_erase type name g in
    if text_eq t type && text_eq n name then g else (t, n) ∷ rest

abbrev pub send_policy_by_id : ℕ
send_policy_by_id = 1

-- `rand` is what `rand_r` gives.
abbrev pub node_offset : ℕ → ℤ → ℕ → ℕ → ℕ
node_offset policy id rand count = (if policy == send_policy_by_id then abs id else rand) % count

-- The index has a connection where one is wanted.
abbrev pub is_usable : Bool → ConnIndex → Bool
is_usable alive_only c = elim c.conn_detail [ none ↦ not alive_only | some d ↦ true ]

abbrev pub usable : Bool → Option ConnIndex → Option ConnIndex
usable alive_only none = none
usable alive_only (some c) = if is_usable alive_only c then some c else none

module _ (dict : Dict ConnIndex) where
  open dict use {Content}

  -- `connection_cache`.
  pub record ConnectionCache : Type 0 where
    pub dictionary : Option Content
    pub type_group : Option ServerGroup

  -- The two allocations of `create`.
  unfoldable pub create_cache : ConnectionCache → Bool → Bool → ℤ × ConnectionCache
  create_cache cache dict_ok group_ok =
      let d : Option Content = elim cache.dictionary [
        | none ↦ char_dict_create dict dict_ok
        | some d ↦ some d
      ] in
      let g : Option ServerGroup = elim cache.type_group [
        | none ↦ (if group_ok then some [] else none)
        | some g ↦ some g
      ] in
      elim d [
        | none ↦ (ret_failed, cache)
        | some d' ↦ elim g [
          | none ↦ (ret_failed, record cache { dictionary = some d' })
          | some g' ↦ (ret_ok, record { dictionary = some d'; type_group = some g' })
        ]
      ]

  -- `m_type_group->insert(...)`, behind the dictionary.
  unfoldable pub group_added :
      Option Content → Text → ConnIndex → Option ServerGroup → Option (ℤ × ConnectionCache)
  group_added d name conn none = none
  group_added d name conn (some g) =
      some (
        ret_ok,
        record { dictionary = d; type_group = some (group_insert conn.server_type name g) },
      )

  unfoldable pub add_connection :
      ConnectionCache → Option Text → ℤ → Option ConnIndex → ℤ → Bool → Option (ℤ × ConnectionCache)
  add_connection cache name name_len conn conn_len alloc_ok =
      let (ret, d) =
        char_dict_add_element dict name name_len conn conn_len cache.dictionary alloc_ok in
      if ltb_ℤ ret (pos 0)
      then some (ret_failed, record cache { dictionary = d })
      else (do n ← name; c ← conn; group_added d n c cache.type_group)

  abbrev pub return_as_index : ConnectionCache → Option Text → ℤ → Option ConnIndex
  return_as_index cache name name_len = char_dict_find_value dict name name_len cache.dictionary

  -- What `del` does to m_type_group.
  unfoldable pub erase_name : ConnectionCache → Text → ℤ → Option ConnectionCache
  erase_name cache name name_len = elim (return_as_index cache (some name) name_len) [
    | none ↦ some cache
    | some c ↦ elim cache.type_group [
      | none ↦ none
      | some g ↦ some (record cache { type_group = some (group_erase c.server_type name g) })
    ]
  ]

  unfoldable pub del_connection : ConnectionCache → Option Text → ℤ → Option (ℤ × ConnectionCache)
  del_connection cache none name_len = some (ret_failed, cache)
  del_connection cache (some name) (negsuc k) = some (ret_failed, cache)
  del_connection cache (some name) (pos len) = do
    cache' ← erase_name cache name (pos len)
    let (ret, d) = char_dict_delete_element dict (some name) (pos len) cache'.dictionary
    some (ret, record cache' { dictionary = d })

  -- `return_as_index(serv_name, strlen(serv_name))`, if it can be picked.
  abbrev pub candidate : ConnectionCache → Bool → Text → Option ConnIndex
  candidate cache alive_only name =
      usable alive_only (return_as_index cache (some name) (pos (length name)))

  -- The cycle without an offset: the first that can be picked.
  unfoldable pub search_all : ConnectionCache → Bool → List Text → Option ConnIndex
  search_all cache alive_only [] = none
  search_all cache alive_only (name ∷ names) =
      let rest = search_all cache alive_only names in
      elim (candidate cache alive_only name) [ none ↦ rest | some c ↦ some c ]

  -- The cycle with an offset: if the one there cannot be picked, the other cycle begins, unless it
  -- is the only one. `all` are the names of the type.
  unfoldable pub search_from :
      ConnectionCache → Bool → List Text → ℕ → ℕ → List Text → Option ConnIndex
  search_from cache alive_only all offset current [] = none
  search_from cache alive_only all offset current (name ∷ names) =
      let rest = search_from cache alive_only all offset (current + 1) names in
      if ltb current offset then rest else elim (candidate cache alive_only name) [
        | none ↦ (if ltb 1 (length all) then search_all cache alive_only all else none)
        | some c ↦ some c
      ]

  unfoldable pub pick_one_connection :
      ConnectionCache → Option Text → ℕ → ℤ → Bool → ℕ → Option (Option ConnIndex)
  pick_one_connection cache none policy id alive_only rand = some none
  pick_one_connection cache (some type) policy id alive_only rand = do
    g ← cache.type_group
    let names = names_of type g
    some (
        if length names == 0
        then none
        else search_from cache alive_only names (node_offset policy id rand (length names)) 0 names)
