-- ===== src/ConnectionCache/Examples.antt =====
-- Two servers of one type.
use cpp_assistant.Prelude.{
  ℕ, ◌≡◌, ◌≤◌, refl, true, false, Option, none, some, List, [], ◌∷◌, ℤ, pos, negsuc, length, max,
  get_elem?, ◌↔◌, text_eq,
}
use cpp_assistant.Prelude.TextMap.{text_lt, find}
use cpp_assistant.Strings.{Text}
use cpp_assistant.TimedTasks.{ret_ok}
use cpp_assistant.Network.{NetConnection, status_connected}
use cpp_assistant.Network.Fragments.{SendCall, sent, Sending, send_loop, send_fragment}
use cpp_assistant.Dictionary.{Dict, char_dict_add_element, char_dict_find_value, add_key}
use cpp_assistant.Dictionary.Listed.{Entries, listed, add_entry}
use cpp_assistant.ConnectionCache.{
  ConnIndex, ServerGroup, group_insert, names_of, ConnectionCache, create_cache, group_added,
  add_connection, pick_one_connection, send_policy_by_id,
}
use cpp_assistant.ConnectionCache.Sends.{send_to_all}
use cpp_assistant.ConnectionCache.Picking.{PickedFrom, pick_one_connection_finds}
use cpp_assistant.ConnectionCache.Broadcast.{send_to_all_bound}
use cpp_assistant.ConnectionCache.Runs.{
  blank, Reachable, constructed, after_create, after_add, names_of_type,
}

abbrev dict : Dict ConnIndex
dict = listed

-- "gw", the type, and the names "a" and "b".
abbrev gw : Text
gw = 103 ∷ 119 ∷ []

abbrev name_a : Text
name_a = 97 ∷ []

abbrev name_b : Text
name_b = 98 ∷ []

abbrev link : NetConnection
link = record {
  fd = pos 5;
  self_ip = [];
  self_port = 0;
  self_name = [];
  peer_ip = [];
  peer_port = 0;
  peer_name = name_b;
  conn_status = status_connected;
  is_blocking = false;
  is_validated = true;
  send_buf = none;
  recv_buf = none;
  last_op_time = pos 0;
}

abbrev server : Option NetConnection → ConnIndex
server conn = record {
  server_type = gw;
  is_server = true;
  conn_alias = [];
  peer_ip = [];
  peer_port = 7000;
  conn_detail = conn;
  fd = pos 5;
  is_master = true;
}

a_fresh : find {V = ConnIndex} name_a [] ≡ none
unfolding find
a_fresh = refl

b_fresh : find name_b ((name_a, server none) ∷ []) ≡ none
unfolding find text_eq
b_fresh = refl

abbrev one_entry : Entries ConnIndex
one_entry = ((name_a, server none) ∷ [], (a_fresh, tt))

-- "a" is not connected, "b" is.
abbrev two_entries : Entries ConnIndex
two_entries = ((name_b, server (some link)) ∷ (name_a, server none) ∷ [], (b_fresh, (a_fresh, tt)))

abbrev pair_of_names : ServerGroup
pair_of_names = (gw, name_a) ∷ (gw, name_b) ∷ []

abbrev two_servers : ConnectionCache dict
two_servers = record { dictionary = some two_entries; type_group = some pair_of_names }

two_servers-Reachable : Reachable dict two_servers
unfolding create_cache add_connection group_added char_dict_add_element add_key add_entry
    group_insert text_lt find text_eq a_fresh b_fresh
two_servers-Reachable =
    after_add
      {cache = record { dictionary = some one_entry; type_group = some ((gw, name_a) ∷ []) }}
      {ret = ret_ok}
      (after_add {cache = record { dictionary = some ([], tt); type_group = some [] }}
        {ret = ret_ok} (after_create {cache = blank dict} constructed true true) name_a
        (server none) (pos 1) true refl)
      name_b (server (some link)) (pos 1) true refl

names_of_type_example :
    ((i : ℕ) × (get_elem? (names_of gw pair_of_names) i ≡ some name_b))
    ↔ ((c : ConnIndex) × (find name_b two_entries.0 ≡ some c) × (c.server_type ≡ gw))
names_of_type_example =
    names_of_type dict two_servers two_entries pair_of_names gw name_b two_servers-Reachable refl
      refl

-- Of the two names the search begins with the first, which has no connection.
pick_one_connection_finds_example :
    (picked : Option ConnIndex) × (pick_one_connection dict two_servers
        (some gw)
        send_policy_by_id
        (pos 4)
        true
        0
      ≡ some picked)
    × PickedFrom dict two_servers true (names_of gw pair_of_names) picked
unfolding names_of char_dict_find_value find text_eq
pick_one_connection_finds_example =
    pick_one_connection_finds dict two_servers true gw send_policy_by_id (pos 4) 0 pair_of_names 1
      name_b (server (some link)) refl refl refl

-- Each call of `send` takes all three bytes.
abbrev takes_all : ℤ → List SendCall
takes_all fd = sent 3 ∷ []

abbrev three_sent : Sending
three_sent = record { ret = pos 3; wire = 1 ∷ 2 ∷ 3 ∷ []; calls = [] }

three_go :
    (fd : ℤ)
    → (s : Sending) × (send_fragment fd (some (1 ∷ 2 ∷ 3 ∷ [])) (pos 3) (sent 3 ∷ []) ≡ some s)
unfolding send_fragment send_loop
three_go (pos n) = (three_sent, refl)
three_go (negsuc n) = (_, refl)

send_to_all_bound_example :
    (ret : ℤ) × (receivers : List Text) × (send_to_all dict takes_all two_servers gw
        (pos 1)
        (1 ∷ 2 ∷ 3 ∷ [])
        (pos 3)
      ≡ some (ret, receivers))
    × (length receivers ≤ max 1 1)
send_to_all_bound_example =
    send_to_all_bound dict takes_all two_servers gw 1 (1 ∷ 2 ∷ 3 ∷ []) (pos 3) pair_of_names
      three_go refl

abbrev link_up : ConnectionCache dict
link_up = record { dictionary = some two_entries; type_group = some ((gw, name_b) ∷ []) }
