-- ===== src/ConnectionCache/Grouping.antt =====
-- The two containers of the cache: the names by type, and the dictionary by name.
use cpp_assistant.Prelude.{
  ◌≡◌, refl, Bool, true, false, ◌&&◌, ◌||◌, none, some, [], ◌∷◌, arith, Bool-cases, inl, inr,
  some_inj, ap, ◌∙◌, sym, subst, text_eq, text_eq_iff,
}
use cpp_assistant.Prelude.TextMap.{text_lt}
use cpp_assistant.Strings.{Text}
use cpp_assistant.Dictionary.{Dict}
use cpp_assistant.ConnectionCache.{ConnIndex, ServerGroup, group_insert, group_erase}

unfoldable pub has_name : ServerGroup → Text → Bool
has_name [] name = false
has_name ((t, n) ∷ g) name = text_eq n name || has_name g name

-- No name stands in the group twice.
abbrev pub Distinct : ServerGroup → Type 0
Distinct [] = Unit {0}
Distinct ((t, n) ∷ g) = (has_name g n ≡ false) × Distinct g

has_name-insert :
    (type name m : Text) (g : ServerGroup)
    → has_name (group_insert type name g) m ≡ (text_eq name m || has_name g m)
unfolding has_name group_insert
has_name-insert type name m [] = refl
has_name-insert type name m ((t, n) ∷ g) = ground (arith, has_name-insert type name m g)

pub insert-Distinct :
    (type name : Text) (g : ServerGroup)
    → has_name g name ≡ false
    → Distinct g
    → Distinct (group_insert type name g)
unfolding has_name group_insert
insert-Distinct type name [] h d = (refl, tt)
insert-Distinct type name ((t, n) ∷ g) h d = ground (
  arith,
  insert-Distinct type name g,
  has_name-insert type name n g,
  text_eq_iff name n,
  text_eq_iff n name,
)

has_name-erase :
    (type name m : Text) (g : ServerGroup)
    → has_name g m ≡ false
    → has_name (group_erase type name g) m ≡ false
unfolding has_name group_erase
has_name-erase type name m [] h = refl
has_name-erase type name m ((t, n) ∷ g) h = ground (arith, has_name-erase type name m g)

pub erase-Distinct :
    (type name : Text) (g : ServerGroup) → Distinct g → Distinct (group_erase type name g)
unfolding group_erase
erase-Distinct type name [] d = tt
erase-Distinct type name ((t, n) ∷ g) d =
    ground (arith, erase-Distinct type name g, has_name-erase type name n g)

module _ (dict : Dict ConnIndex) where
  open dict use {Content, dict_find, dict_add, dict_delete, find-add, add_fresh, find-delete}

  -- Every name of the group is in the dictionary, with the type under which it stands.
  abbrev pub Known : Content → ServerGroup → Type 0
  Known d [] = Unit {0}
  Known d ((t, n) ∷ g) =
      ((c : ConnIndex) × (dict_find d n ≡ some c) × (c.server_type ≡ t)) × Known d g

  pub Known-absent :
      (d : Content) (g : ServerGroup) (k : Text)
      → Known d g
      → dict_find d k ≡ none
      → has_name g k ≡ false
  unfolding has_name
  Known-absent d [] k h e = refl
  Known-absent d ((t, n) ∷ g) k ((c, f, et), hs) e = elim (Bool-cases (text_eq n k)) [
    | inl same ↦
        let eq : n ≡ k = (text_eq_iff n k).0 same in
        let clash = sym e ∙ ap (dict_find d) (sym eq) ∙ f in absurd (cc clash)
    | inr differ ↦ rw differ (Known-absent d g k hs e)
  ]

  -- A change of the dictionary at a name that the group does not have.
  pub Known-other :
      (d d' : Content) (g : ServerGroup) (k : Text)
      → ((j : Text) → text_eq k j ≡ false → dict_find d' j ≡ dict_find d j)
      → has_name g k ≡ false
      → Known d g
      → Known d' g
  unfolding has_name
  Known-other d d' [] k same h p = tt
  Known-other d d' ((t, n) ∷ g) k same h ((c, f, et), hs) =
      let differ : text_eq k n ≡ false = ground (arith, text_eq_iff n k, text_eq_iff k n) in
      let rest : has_name g k ≡ false = ground arith in
      ((c, same n differ ∙ f, et), Known-other d d' g k same rest hs)

  pub Known-insert :
      (d : Content) (g : ServerGroup) (t n : Text) (c : ConnIndex)
      → dict_find d n ≡ some c
      → c.server_type ≡ t
      → Known d g
      → Known d (group_insert t n g)
  unfolding group_insert
  Known-insert d [] t n c f et h = ((c, f, et), tt)
  Known-insert d ((u, m) ∷ g) t n c f et (p, hs) = elim (Bool-cases (text_lt t u)) [
    | inl before ↦ rw before ((c, f, et), (p, hs))
    | inr behind ↦ rw behind (p, Known-insert d g t n c f et hs)
  ]

  pub Known-erase :
      (d : Content) (g : ServerGroup) (t n : Text) → Known d g → Known d (group_erase t n g)
  unfolding group_erase
  Known-erase d [] t n h = tt
  Known-erase d ((u, m) ∷ g) t n (p, hs) = elim (Bool-cases (text_eq u t && text_eq m n)) [
    | inl hit ↦ rw hit hs
    | inr miss ↦ rw miss (p, Known-erase d g t n hs)
  ]

  -- The pair that is erased is the only one with its name.
  pub erase_removes :
      (d : Content) (g : ServerGroup) (k : Text) (c : ConnIndex)
      → dict_find d k ≡ some c
      → Known d g
      → Distinct g
      → has_name (group_erase c.server_type k g) k ≡ false
  unfolding has_name group_erase
  erase_removes d [] k c f h u = refl
  erase_removes d ((t, n) ∷ g) k c f ((b, fb, et), hs) (fresh, u) =
      elim (Bool-cases (text_eq n k)) [
        | inl same ↦
            let eq : n ≡ k = (text_eq_iff n k).0 same in
            let types : b ≡ c = some_inj (sym fb ∙ ap (dict_find d) eq ∙ f) in
            let typed : text_eq t c.server_type ≡ true =
              (text_eq_iff t c.server_type).1
                (sym et ∙ ap (λ (x : ConnIndex). x.server_type) types) in
            rw (typed, same) (subst (λ m. has_name g m ≡ false) eq fresh)
        | inr differ ↦ ground (arith, differ, erase_removes d g k c f hs u)
      ]

-- The name stands in the group under the type.
unfoldable pub has_pair : ServerGroup → Text → Text → Bool
has_pair [] type name = false
has_pair ((t, n) ∷ g) type name = text_eq t type && text_eq n name || has_pair g type name

pub has_pair-insert :
    (t n type name : Text) (g : ServerGroup)
    → has_pair (group_insert t n g) type name
      ≡ (text_eq t type && text_eq n name || has_pair g type name)
unfolding has_pair group_insert
has_pair-insert t n type name [] = refl
has_pair-insert t n type name ((u, m) ∷ g) = ground (arith, has_pair-insert t n type name g)

pub has_pair-erase :
    (t n type name : Text) (g : ServerGroup)
    → text_eq n name ≡ false
    → has_pair g type name ≡ true
    → has_pair (group_erase t n g) type name ≡ true
unfolding has_pair group_erase
has_pair-erase t n type name [] h p = cc p
has_pair-erase t n type name ((u, m) ∷ g) h p =
    ground (
      arith,
      has_pair-erase t n type name g,
      text_eq_iff m n,
      text_eq_iff m name,
      text_eq_iff n name,
    )
