-- ===== src/MessageCache.antt =====
-- Pending messages: code/frameworks/framework_templates/tcp_app/message_cache.cpp and message_cache.h, built with the
-- dictionary of Redis. `is_slow` is message_is_time_consuming, which the application writes; the timeouts
-- come from the configuration. The entries that `dict_next` gives to `clean_expired_messages`, one by one, are
-- an argument, since dict.h does not say what an iterator gives once an entry was deleted. The memory of an
-- entry is taken to be still readable when the entry was deleted, as the code relies on.
pub mod Cleaning
mod Examples
use cpp_assistant.Prelude.{
  ℕ, suc, ◌+◌, Bool, true, false, ◌&&◌, Option, none, some, List, [], ◌∷◌, ℤ, pos, ◌-ℤ◌, leb_ℤ,
  if◌then◌else◌, text_eq,
}
use cpp_assistant.Strings.{Text}
use cpp_assistant.TimedTasks.{ret_ok, ret_failed}
use cpp_assistant.Dictionary.{
  Dict, char_dict_create, char_dict_add_element, char_dict_delete_element, char_dict_find_value,
}

-- `msg_cache_value`. The contents are known by a number.
pub record Message : Type 0 where
  pub cmd : ℤ
  pub from_fd : ℤ
  pub from_name : Option Text
  pub to_fd : ℤ
  pub to_name : Option Text
  pub last_op_time : ℤ
  pub contents : ℕ

module _ (dict : Dict Message) where
  open dict use {Content, dict_delete, items}

  -- m_message_dictionary. `create` gives the size DEFAULT_DICT_SIZE whatever it is asked for.
  unfoldable pub create_messages : Option Content → Bool → ℤ × Option Content
  create_messages (some d) alloc_ok = (ret_ok, some d)
  create_messages none alloc_ok = elim (char_dict_create dict alloc_ok) [
    | none ↦ (ret_failed, none)
    | some d ↦ (ret_ok, some d)
  ]

  abbrev pub add_message :
      Option Content → Option Text → ℤ → Option Message → ℤ → Bool → ℤ × Option Content
  add_message d key keylen val vallen alloc_ok =
      char_dict_add_element dict key keylen val vallen d alloc_ok

  abbrev pub del_message : Option Content → Option Text → ℤ → ℤ × Option Content
  del_message d key keylen = char_dict_delete_element dict key keylen d

  abbrev pub find_message : Option Content → Option Text → ℤ → Option Message
  find_message d key keylen = char_dict_find_value dict key keylen d

  -- What `dict_delete_no_free` returns is not looked at.
  abbrev pub deleted : Content → Text → Content
  deleted d k = elim (dict_delete d k) [ none ↦ d | some d' ↦ d' ]

  module _ (is_slow : ℤ → Bool) where
    module _ (default_timeout max_timeout now : ℤ) where
      abbrev pub is_expired : Message → Bool
      is_expired m =
          leb_ℤ (if is_slow m.cmd then max_timeout else default_timeout) (now -ℤ m.last_op_time)

      -- The loop over the entries that `dict_next` gives, with the number of those deleted.
      unfoldable pub clean_from : List (Text × Message) → Content → ℕ → Content × ℕ
      clean_from [] d count = (d, count)
      clean_from ((k, m) ∷ entries) d count =
          let cleaned = clean_from entries (deleted d k) (suc count) in
          let kept = clean_from entries d count in if is_expired m then cleaned else kept

      unfoldable pub clean_expired_messages : List (Text × Message) → Content → Content × ℕ
      clean_expired_messages given d = clean_from given d 0

    unfoldable pub count_slow : List (Text × Message) → Text → ℕ
    count_slow [] name = 0
    count_slow ((k, m) ∷ entries) name =
        let rest = count_slow entries name in
        elim m.to_name [
          | none ↦ rest
          | some to ↦ (if is_slow m.cmd && text_eq name to then suc rest else rest)
        ]

    unfoldable pub time_consuming_message_count : Content → Option Text → ℕ
    time_consuming_message_count d none = 0
    time_consuming_message_count d (some name) = count_slow (items d) name
