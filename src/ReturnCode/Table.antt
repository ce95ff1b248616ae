-- ===== src/ReturnCode/Table.antt =====
-- Which codes have a message, and that the messages tell the error names apart.
use cpp_assistant.Prelude.{
  both_true, some_inj, some_ne_none, ℕ, zero, suc, ◌+◌, ◌-◌, ◌≤◌, ◌<◌, ◌≡◌, ◌↔◌, refl, Bool, true,
  false, not, ◌&&◌, none, some, List, [], ◌∷◌, ◌++◌, length, get_elem?, ℤ, pos, negsuc, arith,
  tests, dec_lt, ltb, sym, ap, ◌∙◌, subst, Bool-cases, inl, inr, get_elem?-some, codes, text_eq,
  text_eq_refl,
}
use cpp_assistant.ReturnCode.{ErrorName, offset_of, ca_ret, user_ret_code_begin}
use cpp_assistant.ReturnCode.Messages.{
  Message, descriptions, user_ret_code_end, decimal, message_of,
}

offset_of-lt : (e : ErrorName) → offset_of e < 37
offset_of-lt e = ground arith

system_code :
    (strerror : ℕ → Message) (n : ℕ)
    → ltb (n + 2) user_ret_code_begin ≡ true
    → message_of strerror (negsuc (suc n)) ≡ some (strerror (n + 2))
unfolding message_of
system_code strerror n h = rw (h, message_of) refl

unknown_code :
    (strerror : ℕ → Message) (n : ℕ)
    → ltb (n + 2) user_ret_code_begin ≡ false
    → ltb user_ret_code_end (n + 2) ≡ true
    → message_of strerror (negsuc (suc n))
      ≡ some (codes "Unknown return code " ++ b'-' ∷ decimal (n + 2))
unfolding message_of
unknown_code strerror n h g = rw (h, message_of) (rw g refl)

table_code :
    (strerror : ℕ → Message) (n : ℕ)
    → ltb (n + 2) user_ret_code_begin ≡ false
    → ltb user_ret_code_end (n + 2) ≡ false
    → message_of strerror (negsuc (suc n)) ≡ get_elem? descriptions (n + 2 - user_ret_code_begin)
unfolding message_of
table_code strerror n h g = rw (h, message_of) (rw g refl)

message_of-lt :
    (strerror : ℕ → Message) (a : ℕ)
    → a < 38
    → message_of strerror (negsuc (user_ret_code_begin + a - 1)) ≡ get_elem? descriptions a
message_of-lt strerror a h =
    ap (λ k. message_of strerror (negsuc k))
      (let e : user_ret_code_begin + a - 1 ≡ suc (999 + a) = omega arith in e)
    ∙ table_code strerror (999 + a) (ground arith) (ground arith)
    ∙ ap (get_elem? descriptions) (let e : 999 + a + 2 - user_ret_code_begin ≡ a = omega arith in e)

code_end : (n : ℕ) → negsuc (suc n) ≡ negsuc 1037 → n ≡ 1036
code_end n e = ground arith

outside :
    (n : ℕ)
    → get_elem? descriptions (n + 2 - user_ret_code_begin) ≡ none
    → 37 ≤ n + 2 - user_ret_code_begin
outside n e = elim (dec_lt (n + 2 - user_ret_code_begin) 37) [
  | yes h ↦
      let (t, et) = get_elem?-some descriptions (n + 2 - user_ret_code_begin) h in
      absurd (some_ne_none (sym et ∙ e))
  | no h ↦ omega (arith, h)
]

only_end :
    (n : ℕ)
    → ltb (n + 2) user_ret_code_begin ≡ false
    → ltb user_ret_code_end (n + 2) ≡ false
    → 37 ≤ n + 2 - user_ret_code_begin
    → negsuc (suc n) ≡ negsuc 1037
only_end n h g k = ground arith

at_end : (strerror : ℕ → Message) → message_of strerror (negsuc 1037) ≡ none
at_end strerror = message_of-lt strerror 37 (omega arith)

success_text : (strerror : ℕ → Message) (n : ℕ) → message_of strerror (pos n) ≡ none → ⊥
unfolding message_of
success_text strerror zero e = cc e
success_text strerror (suc n) e = cc e

failure_text : (strerror : ℕ → Message) → message_of strerror (negsuc 0) ≡ none → ⊥
unfolding message_of
failure_text strerror e = cc e

-- Every return code has a message but one: __USER_RET_CODE_END, for which `parse_return_code` reads
-- behind the last description.
pub message_of_lem :
    (strerror : ℕ → Message) (retcode : ℤ)
    → (message_of strerror retcode ≡ none) ↔ (retcode ≡ negsuc 1037)
message_of_lem strerror (pos n) = (λ e. absurd (success_text strerror n e), λ e. cc e)
message_of_lem strerror (negsuc zero) = (λ e. absurd (failure_text strerror e), λ e. cc e)
message_of_lem strerror (negsuc (suc n)) = elim (Bool-cases (ltb (n + 2) user_ret_code_begin)) [
  | inl h ↦ (
    λ e. absurd (some_ne_none (sym (system_code strerror n h) ∙ e)),
    λ e. absurd (omega (tests, code_end n e, h)),
  )
  | inr h ↦ elim (Bool-cases (ltb user_ret_code_end (n + 2))) [
    | inl g ↦ (
      λ e. absurd (some_ne_none (sym (unknown_code strerror n h g) ∙ e)),
      λ e. absurd (omega (tests, code_end n e, g)),
    )
    | inr g ↦ (
      λ e. only_end n h g (outside n (sym (table_code strerror n h g) ∙ e)),
      λ e. ap (message_of strerror) e ∙ at_end strerror,
    )
  ]
]

abbrev differs : Message → List Message → Bool
differs m [] = true
differs m (x ∷ xs) = not (text_eq m x) && differs m xs

abbrev all_differ : List Message → Bool
all_differ [] = true
all_differ (x ∷ xs) = differs x xs && all_differ xs

abbrev all_filled : List Message → Bool
all_filled [] = true
all_filled (x ∷ xs) = ltb 0 (length x) && all_filled xs

descriptions_differ : all_differ descriptions ≡ true
unfolding text_eq
descriptions_differ = refl

differs-get :
    (m : Message) (xs : List Message) (j : ℕ) → differs m xs ≡ true → get_elem? xs j ≡ some m → ⊥
differs-get m [] j d e = cc e
differs-get m (x ∷ xs) zero d e =
    let differ : not (text_eq m m) ≡ true =
      subst (λ y. not (text_eq m y) ≡ true) (some_inj e)
        (both_true (not (text_eq m x)) (differs m xs) d).0 in
    let clash = sym (ap not (text_eq_refl m)) ∙ differ in cc clash
differs-get m (x ∷ xs) (suc j) d e =
    differs-get m xs j (both_true (not (text_eq m x)) (differs m xs) d).1 e

same_place :
    (m : Message) (xs : List Message) (i j : ℕ)
    → all_differ xs ≡ true
    → get_elem? xs i ≡ some m
    → get_elem? xs j ≡ some m
    → i ≡ j
same_place m [] i j d e f = cc e
same_place m (x ∷ xs) zero zero d e f = refl
same_place m (x ∷ xs) zero (suc j) d e f = absurd (
    differs-get m xs j
      (subst (λ y. differs y xs ≡ true) (some_inj e) (both_true (differs x xs) (all_differ xs) d).0)
      f)
same_place m (x ∷ xs) (suc i) zero d e f = absurd (
    differs-get m xs i
      (subst (λ y. differs y xs ≡ true) (some_inj f) (both_true (differs x xs) (all_differ xs) d).0)
      e)
same_place m (x ∷ xs) (suc i) (suc j) d e f =
    ap suc (same_place m xs i j (both_true (differs x xs) (all_differ xs) d).1 e f)

-- Error names with the same message have the same return code.
pub message_of-injective :
    (strerror : ℕ → Message) (e f : ErrorName)
    → message_of strerror (ca_ret e) ≡ message_of strerror (ca_ret f)
    → ca_ret e ≡ ca_ret f
message_of-injective strerror e f h =
    let (text, et) = get_elem?-some descriptions (offset_of e) (offset_of-lt e) in
    let of =
      λ (x : ErrorName). message_of-lt strerror (offset_of x) (omega (arith, offset_of-lt x)) in
    ap (λ k. negsuc (user_ret_code_begin + k - 1))
      (same_place text descriptions (offset_of e) (offset_of f) descriptions_differ et
        (sym (of f) ∙ sym h ∙ of e ∙ et))
