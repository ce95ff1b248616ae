-- ===== src/CommandLine/Names.antt =====
-- Whether the short names that long names lead to have entries.
use cpp_assistant.Prelude.{
  ◌≡◌, refl, Bool, true, false, some, List, [], ◌∷◌, if◌then◌else◌, Bool-cases, inl, inr, text_eq,
  text_eq_refl, arith,
}
use cpp_assistant.Prelude.TextMap.{find, insert, modify}
use cpp_assistant.Strings.{Text}
use cpp_assistant.CommandLine.{CommandLine, OptionValue, forget_all}

unfoldable pub is_key : Text → List (Text × OptionValue) → Bool
is_key k [] = false
is_key k ((j, v) ∷ m) = if text_eq j k then true else is_key k m

-- Every short name that a long name leads to has an entry.
unfoldable pub all_keys : List (Text × Text) → List (Text × OptionValue) → Bool
all_keys [] m = true
all_keys ((long, short) ∷ names) m = if is_key short m then all_keys names m else false

abbrev pub Named : CommandLine → Type 0
Named cl = all_keys cl.option_name_relations cl.option_entries ≡ true

pub is_key-find :
    (k : Text) (m : List (Text × OptionValue))
    → is_key k m ≡ true
    → (v : OptionValue) × (find k m ≡ some v)
unfolding is_key find
is_key-find k [] h = absurd (cc h)
is_key-find k ((j, v) ∷ m) h = elim (Bool-cases (text_eq j k)) [
  | inl e ↦ (v, rw e refl)
  | inr e ↦ rw e (is_key-find k m (rw e at h))
]

is_key-modify :
    (k j : Text) (f : OptionValue → OptionValue) (m : List (Text × OptionValue))
    → is_key k (modify j f m) ≡ is_key k m
unfolding is_key modify
is_key-modify k j f [] = refl
is_key-modify k j f ((i, v) ∷ m) = ground (arith, is_key-modify k j f m)

is_key-forget_all :
    (k : Text) (m : List (Text × OptionValue)) → is_key k (forget_all m) ≡ is_key k m
unfolding is_key forget_all
is_key-forget_all k [] = refl
is_key-forget_all k ((i, v) ∷ m) = ground (arith, is_key-forget_all k m)

is_key-insert :
    (k j : Text) (v : OptionValue) (m : List (Text × OptionValue))
    → is_key k m ≡ true
    → is_key k (insert j v m) ≡ true
unfolding is_key insert
is_key-insert k j v [] h = cc h
is_key-insert k j v ((i, w) ∷ m) h = ground (arith, is_key-insert k j v m)

pub is_key-insert_same :
    (k : Text) (v : OptionValue) (m : List (Text × OptionValue)) → is_key k (insert k v m) ≡ true
unfolding is_key insert
is_key-insert_same k v [] = ground (arith, text_eq_refl k)
is_key-insert_same k v ((i, w) ∷ m) = ground (arith, text_eq_refl k, is_key-insert_same k v m)

pub all_keys-modify :
    (names : List (Text × Text)) (j : Text) (f : OptionValue → OptionValue)
    (m : List (Text × OptionValue))
    → all_keys names (modify j f m) ≡ all_keys names m
unfolding all_keys
all_keys-modify [] j f m = refl
all_keys-modify ((long, short) ∷ names) j f m =
    rw (is_key-modify short j f m, all_keys-modify names j f m) refl

pub all_keys-forget_all :
    (names : List (Text × Text)) (m : List (Text × OptionValue))
    → all_keys names (forget_all m) ≡ all_keys names m
unfolding all_keys
all_keys-forget_all [] m = refl
all_keys-forget_all ((long, short) ∷ names) m =
    rw (is_key-forget_all short m, all_keys-forget_all names m) refl

pub all_keys-insert :
    (names : List (Text × Text)) (j : Text) (v : OptionValue) (m : List (Text × OptionValue))
    → all_keys names m ≡ true
    → all_keys names (insert j v m) ≡ true
unfolding all_keys
all_keys-insert [] j v m h = refl
all_keys-insert ((long, short) ∷ names) j v m h =
    ground (arith, is_key-insert short j v m, all_keys-insert names j v m)

pub all_keys-insert_name :
    (names : List (Text × Text)) (long short : Text) (m : List (Text × OptionValue))
    → all_keys names m ≡ true
    → is_key short m ≡ true
    → all_keys (insert long short names) m ≡ true
unfolding all_keys insert
all_keys-insert_name [] long short m h k = rw k refl
all_keys-insert_name ((l, s) ∷ names) long short m h k =
    ground (arith, all_keys-insert_name names long short m)
