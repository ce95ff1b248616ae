-- ===== src/MessageCache/Cleaning.antt =====
-- What `clean_expired_messages` leaves.
use cpp_assistant.Prelude.{
  ℕ, suc, ◌≡◌, Bool, true, false, Option, none, some, List, [], ◌∷◌, ℤ, if◌then◌else◌, text_eq,
}
use cpp_assistant.Strings.{Text}
use cpp_assistant.Dictionary.{Dict}
use cpp_assistant.MessageCache.{Message, deleted, is_expired}

module _ (dict : Dict Message) (is_slow : ℤ → Bool) (default_timeout max_timeout now : ℤ) where
  open dict use {
    Content, dict_find, dict_delete, items, find-delete, delete_error, items_find, items_distinct,
  }

  abbrev expired : Message → Bool
  expired = is_expired dict is_slow default_timeout max_timeout now

  -- What is left of an entry.
  abbrev pub unexpired : Option Message → Option Message
  unexpired none = none
  unexpired (some m) =
      if is_expired dict is_slow default_timeout max_timeout now m then none else some m

  abbrev pub count_expired : List (Text × Message) → ℕ
  count_expired [] = 0
  count_expired ((k, m) ∷ entries) =
      if is_expired dict is_slow default_timeout max_timeout now m
      then suc (count_expired entries)
      else count_expired entries

  -- `dict_next` gives entries that the dictionary has at that time.
  abbrev pub Given : Content → List (Text × Message) → Type 0
  Given d [] = Unit {0}
  Given d ((k, m) ∷ entries) =
      (dict_find d k ≡ some m)
      × Given
          (if is_expired dict is_slow default_timeout max_timeout now m
            then deleted dict d k
            else d)
          entries

  abbrev pub is_given : List (Text × Message) → Text → Bool
  is_given [] j = false
  is_given ((k, m) ∷ entries) j = if text_eq k j then true else is_given entries j

  -- What is left of a message, if its entry was given or not.
  abbrev treated : Bool → Option Message → Option Message
  treated is_one_given o = if is_one_given then unexpired o else o
