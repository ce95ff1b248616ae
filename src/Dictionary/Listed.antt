-- ===== src/Dictionary/Listed.antt =====
-- A list of entries is such a dictionary.
use cpp_assistant.Prelude.{
  ◌≡◌, refl, Option, none, some, List, [], ◌∷◌, if◌then◌else◌, text_eq, Option-cases, Bool-cases,
  inl, inr, ◌⊎◌, sym, ap, ◌∙◌, some_inj,
}
use cpp_assistant.Prelude.TextMap.{find, erase, find-erase}
use cpp_assistant.Strings.{Text}
use cpp_assistant.Dictionary.{Dict, KeysDistinct}

abbrev pub Entries : Type 0 → Type 0
Entries V = (m : List (Text × V)) × KeysDistinct m

module _ {V : Type 0} where
  pub erase-KeysDistinct :
      (k : Text) (m : List (Text × V)) → KeysDistinct m → KeysDistinct (erase k m)
  unfolding erase
  erase-KeysDistinct k [] h = h
  erase-KeysDistinct k ((j, v) ∷ m) (fresh, h) = elim (Bool-cases (text_eq j k)) [
    | inl same ↦ rw same (erase-KeysDistinct k m h)
    | inr differ ↦ rw differ (
      find-erase k j m
          ∙ (elim (Bool-cases (text_eq k j)) [ inl e ↦ rw e refl | inr e ↦ rw e fresh ]),
      erase-KeysDistinct k m h,
    )
  ]

  -- `Option-cases` that computes.
  abbrev pub looked_up : (o : Option V) → (o ≡ none) ⊎ ((v : V) × (o ≡ some v))
  looked_up none = inl refl
  looked_up (some v) = inr (v, refl)

  unfoldable pub add_entry : Entries V → Text → V → Option (Entries V)
  add_entry (m, h) k v = elim (looked_up (find k m)) [
    | inl fresh ↦ some ((k, v) ∷ m, (fresh, h))
    | inr known ↦ none
  ]

  unfoldable pub delete_entry : Entries V → Text → Option (Entries V)
  delete_entry (m, h) k = elim (find k m) [
    | none ↦ none
    | some v ↦ some (erase k m, erase-KeysDistinct k m h)
  ]

  pub find-add_entry :
      (d d' : Entries V) (k j : Text) (v : V)
      → add_entry d k v ≡ some d'
      → find j d'.0 ≡ (if text_eq k j then some v else find j d.0)
  unfolding add_entry find
  find-add_entry (m, h) d' k j v e =
      elim (looked_up (find k m))
          as (λ c.
            elim c as (λ x. Option (Entries V)) [
              | inl fresh ↦ some ((k, v) ∷ m, (fresh, h))
              | inr known ↦ none
            ]
              ≡ some d'
            → find j d'.0 ≡ (if text_eq k j then some v else find j m)) [
              | inl fresh ↦ λ q. ap (λ (x : Entries V). find j x.0) (sym (some_inj q))
              | inr known ↦ λ q. absurd (cc q)
            ]
        e

  pub add_entry-fresh :
      (d d' : Entries V) (k : Text) (v : V) → add_entry d k v ≡ some d' → find k d.0 ≡ none
  unfolding add_entry
  add_entry-fresh (m, h) d' k v e =
      elim (looked_up (find k m))
          as (λ c.
            elim c as (λ x. Option (Entries V)) [
              | inl fresh ↦ some ((k, v) ∷ m, (fresh, h))
              | inr known ↦ none
            ]
              ≡ some d'
            → find k m ≡ none) [ inl fresh ↦ λ q. fresh | inr known ↦ λ q. absurd (cc q) ]
        e

  pub find-delete_entry :
      (d d' : Entries V) (k j : Text)
      → delete_entry d k ≡ some d'
      → find j d'.0 ≡ (if text_eq k j then none else find j d.0)
  unfolding delete_entry
  find-delete_entry (m, h) d' k j e = elim (Option-cases (find k m)) [
    | inl missing ↦ absurd (cc (missing, e))
    | inr (v, there) ↦
        ap (λ (x : Entries V). find j x.0) (sym (some_inj (rw (there, delete_entry) at e)))
        ∙ find-erase k j m
  ]

  pub delete_entry-error : (d : Entries V) (k : Text) → delete_entry d k ≡ none → find k d.0 ≡ none
  unfolding delete_entry
  delete_entry-error (m, h) k e = elim (Option-cases (find k m)) [
    | inl missing ↦ missing
    | inr (v, there) ↦ let q = rw (there, delete_entry) at e in absurd (cc q)
  ]

  pub find-no_entries : (k : Text) → find {V = V} k [] ≡ none
  unfolding find
  find-no_entries k = refl

  abbrev pub listed : Dict V
  listed = record {
    Content = Entries V;
    created = ([], tt);
    dict_find = λ d k. find k d.0;
    dict_add = add_entry;
    dict_delete = delete_entry;
    items = λ d. d.0;
    find-created = find-no_entries;
    find-add = find-add_entry;
    add_fresh = add_entry-fresh;
    find-delete = find-delete_entry;
    delete_error = delete_entry-error;
    items_find = λ d k. refl;
    items_distinct = λ d. d.1;
  }
