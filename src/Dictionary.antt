-- ===== src/Dictionary.antt =====
-- Dictionaries with text keys: code/frameworks/framework_public/char_dictionary.cpp, built with the dictionary
-- of Redis (HASH_OPTION_3RD_PARTY_DICT). That dictionary is a parameter, with what its functions document.
pub mod Listed
use cpp_assistant.Prelude.{
  ℕ, zero, suc, ◌≡◌, refl, Bool, true, false, ◌||◌, Option, none, some, List, [], ◌∷◌, take, ℤ, pos,
  negsuc, leb_ℤ, ltb_ℤ, pos_part, if◌then◌else◌, text_eq, Option-cases, inl, inr, sym, ◌∙◌,
}
use cpp_assistant.Prelude.TextMap.{find}
use cpp_assistant.Strings.{Text}
use cpp_assistant.TimedTasks.{ret_ok, ret_failed}

-- No key stands in the list twice.
abbrev pub KeysDistinct : {V : Type 0} → List (Text × V) → Type 0
KeysDistinct [] = Unit {0}
KeysDistinct ((k, v) ∷ m) = (find k m ≡ none) × KeysDistinct m

-- `dict` with what is used of it. An operation that gives `none` has returned DICT_ERR and changed
-- nothing. `items` are the entries that an iterator goes over.
pub record Dict (V : Type 0) : Type 1 where
  pub Content : Type 0
  pub created : Content
  pub dict_find : Content → Text → Option V
  pub dict_add : Content → Text → V → Option Content
  pub dict_delete : Content → Text → Option Content
  pub items : Content → List (Text × V)
  pub find-created : (k : Text) → dict_find created k ≡ none
  pub find-add :
      (d d' : Content) (k j : Text) (v : V)
      → dict_add d k v ≡ some d'
      → dict_find d' j ≡ (if text_eq k j then some v else dict_find d j)
  pub add_fresh :
      (d d' : Content) (k : Text) (v : V) → dict_add d k v ≡ some d' → dict_find d k ≡ none
  pub find-delete :
      (d d' : Content) (k j : Text)
      → dict_delete d k ≡ some d'
      → dict_find d' j ≡ (if text_eq k j then none else dict_find d j)
  pub delete_error : (d : Content) (k : Text) → dict_delete d k ≡ none → dict_find d k ≡ none
  pub items_find : (d : Content) (k : Text) → dict_find d k ≡ find k (items d)
  pub items_distinct : (d : Content) → KeysDistinct (items d)

module _ {V : Type 0} (dict : Dict V) where
  open dict use {Content, created, dict_find, dict_add, dict_delete, delete_error}

  -- The `keylen` bytes at `key`.
  abbrev pub key_of : Text → ℤ → Text
  key_of key keylen = take (pos_part keylen) key

  -- What `dict_create` gives; the size only lowers the number of collisions.
  abbrev pub char_dict_create : Bool → Option Content
  char_dict_create alloc_ok = if alloc_ok then some created else none

  -- `dict_add` for a key that has been copied: `alloc_ok` says whether its memory was there.
  unfoldable pub add_key : Content → Text → V → Bool → ℤ × Content
  add_key d key val alloc_ok = elim alloc_ok [
    | false ↦ (ret_failed, d)
    | true ↦ elim (dict_add d key val) [ none ↦ (ret_failed, d) | some d' ↦ (ret_ok, d') ]
  ]

  unfoldable pub char_dict_add_element :
      Option Text → ℤ → Option V → ℤ → Option Content → Bool → ℤ × Option Content
  char_dict_add_element (some key) keylen (some val) vallen (some d) alloc_ok =
      if leb_ℤ keylen (pos 0) || leb_ℤ vallen (pos 0)
      then (ret_failed, some d)
      else let (ret, d') = add_key d (key_of key keylen) val alloc_ok in (ret, some d')
  char_dict_add_element key keylen val vallen d alloc_ok = (ret_failed, d)

  -- The memory of the key and of the value is given back; that is not modelled.
  unfoldable pub char_dict_delete_element : Option Text → ℤ → Option Content → ℤ × Option Content
  char_dict_delete_element (some key) keylen (some d) = elim (dict_find d (key_of key keylen)) [
    | none ↦ (ret_failed, some d)
    | some v ↦ elim (dict_delete d (key_of key keylen)) [
      | none ↦ (ret_failed, some d)
      | some d' ↦ (ret_ok, some d')
    ]
  ]
  char_dict_delete_element key keylen d = (ret_failed, d)

  unfoldable pub char_dict_find_value : Option Text → ℤ → Option Content → Option V
  char_dict_find_value (some key) keylen (some d) = dict_find d (key_of key keylen)
  char_dict_find_value key keylen d = none

  -- A key that is there can be deleted.
  pub delete_found :
      (d : Content) (k : Text) (v : V)
      → dict_find d k ≡ some v
      → (d' : Content) × (dict_delete d k ≡ some d')
  delete_found d k v e = elim (Option-cases (dict_delete d k)) [
    | inl failed ↦ let clash = sym e ∙ delete_error d k failed in absurd (cc clash)
    | inr (d', done) ↦ (d', done)
  ]
