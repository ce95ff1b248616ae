-- ===== src/SignalCapturer/Forbidden.antt =====
-- Signals that may not be captured: registration, unregistration and the handling of one signal.
use cpp_assistant.Prelude.{
  ◌≡◌, ◌≢◌, refl, Bool, true, false, ◌&&◌, Option, none, some, List, ℤ, sym, ap, ◌∙◌, subst,
  Bool-cases, Option-cases, inl, inr,
}
use cpp_assistant.SignalCapturer.{
  Settings, Capturer, Handler, is_valid, index_of, capture_is_forbidden, setting_at, put_setting,
  init_once, registered_in, is_registered, is_registered_status, register_one, unregister,
  handle_one,
}
use cpp_assistant.SignalCapturer.Table.{
  Sized, setting_at-put_ne, length-put_setting, init_once-Sized,
}
use cpp_assistant.SignalCapturer.Arrival.{init_once_same, init_once-initialized}

init_once-init_once : (cap : Capturer) → init_once (init_once cap) ≡ init_once cap
unfolding init_once
init_once-init_once cap = elim (Bool-cases cap.initialized) [
  | inl e ↦ rw e refl
  | inr e ↦ rw e refl
]

put_setting-invalid :
    (settings : List Settings) (sig : ℤ) (s : Settings)
    → is_valid sig ≡ false
    → put_setting settings (index_of sig) s ≡ settings
unfolding index_of
put_setting-invalid settings sig s h = rw h refl

-- Settings of another signal do not matter.
setting_at-put_other :
    (settings : List Settings) (sig other : ℤ) (s : Settings)
    → other ≢ sig
    → is_valid sig ≡ true
    → setting_at (put_setting settings (index_of other) s) (index_of sig)
      ≡ setting_at settings (index_of sig)
setting_at-put_other settings sig other s ne h = elim (Bool-cases (is_valid other)) [
  | inl f ↦ setting_at-put_ne settings other sig s f h ne
  | inr f ↦ ap (λ l. setting_at l (index_of sig)) (put_setting-invalid settings other s f)
]

registered_in-put :
    (cap : Capturer) (sig other : ℤ) (s : Settings)
    → other ≢ sig
    → registered_in (record cap { settings = put_setting cap.settings (index_of other) s }) sig
      ≡ registered_in cap sig
unfolding registered_in
registered_in-put cap sig other s ne = elim (Bool-cases (is_valid sig)) [
  | inr e ↦ rw e refl
  | inl e ↦
      ap
        (λ o. is_valid sig && elim o as (λ (x : Option Settings). Bool) [
          | none ↦ false
          | some t ↦ is_registered_status t.status
        ])
        (setting_at-put_other cap.settings sig other s ne e)
]

-- A forbidden signal stays unregistered where another one changes.
abbrev pub Kept : ℤ → Capturer → Type 0
Kept sig cap = Sized cap × (registered_in (init_once cap) sig ≡ false)

pub put-Kept :
    (cap : Capturer) (sig other : ℤ) (s : Settings) (flag : Bool)
    → cap.initialized ≡ true
    → other ≢ sig
    → Kept sig cap
    → Kept sig
        (record cap { settings = put_setting cap.settings (index_of other) s; should_exit = flag })
unfolding registered_in
put-Kept cap sig other s flag hi ne (sized, un) = (
  length-put_setting cap.settings (index_of other) s ∙ sized,
  ap (λ c. registered_in c sig) (init_once_same _ hi)
      ∙ registered_in-put cap sig other s ne
      ∙ ap (λ c. registered_in c sig) (sym (init_once_same cap hi))
      ∙ un,
)

init_once-Kept : (cap : Capturer) (sig : ℤ) → Kept sig cap → Kept sig (init_once cap)
init_once-Kept cap sig (sized, un) =
    (init_once-Sized cap sized, ap (λ c. registered_in c sig) (init_once-init_once cap) ∙ un)

-- Two signals of which one is registered, or may be, and the other one not.
pub differ : (f : ℤ → Bool) (a b : ℤ) → f a ≡ true → f b ≡ false → a ≢ b
differ f a b ha hb e = let h : f b ≡ true = subst (λ x. f x ≡ true) e ha in cc (h, hb)

differ_forbidden :
    (a b : ℤ) → capture_is_forbidden a ≡ false → capture_is_forbidden b ≡ true → a ≢ b
differ_forbidden a b ha hb e = differ capture_is_forbidden b a hb ha (sym e)

pub register_one-Kept :
    (cap : Capturer) (sig other : ℤ) (h : Option Handler) (exit_hint auto ok : Bool)
    → capture_is_forbidden sig ≡ true
    → Kept sig cap
    → Kept sig (register_one cap other h exit_hint auto ok).1
unfolding register_one
register_one-Kept cap sig other h exit_hint auto ok hf k = elim (Bool-cases (is_valid other)) [
  | inr e ↦ rw e (init_once-Kept cap sig k)
  | inl e ↦ elim (Bool-cases (capture_is_forbidden other)) [
    | inl f ↦ rw (e, f) (init_once-Kept cap sig k)
    | inr f ↦ elim (Bool-cases ok) [
      | inr g ↦ rw (e, f, g) (init_once-Kept cap sig k)
      | inl g ↦
          rw (e, f, g)
            (put-Kept (init_once cap) sig other _ _ (init_once-initialized cap)
              (differ_forbidden other sig f hf) (init_once-Kept cap sig k))
    ]
  ]
]

abbrev pub OnSome : {A : Type 0} → (A → Type 0) → Option A → Type 0
OnSome P none = Unit {0}
OnSome P (some a) = P a

pub unregister-Kept :
    (cap : Capturer) (sig other : ℤ) (ok : Bool)
    → Kept sig cap
    → OnSome (λ (x : ℤ × Capturer). Kept sig x.1) (unregister cap other ok)
unfolding unregister is_registered
unregister-Kept cap sig other ok k = elim (Bool-cases (registered_in (init_once cap) other)) [
  | inr e ↦ rw e (init_once-Kept cap sig k)
  | inl e ↦ elim (Bool-cases ok) [
    | inr g ↦ rw (e, g) (init_once-Kept cap sig k)
    | inl g ↦ elim (Option-cases (setting_at (init_once cap).settings (index_of other))) [
      | inl n ↦ rw (e, g, n) tt
      | inr (s, n) ↦
          rw (e, g, n)
            (put-Kept (init_once cap) sig other _ _ (init_once-initialized cap)
              (differ (registered_in (init_once cap)) other sig e k.1) (init_once-Kept cap sig k))
    ]
  ]
]

pub handle_one-Kept :
    (cap : Capturer) (sig other : ℤ)
    → Kept sig cap
    → OnSome (λ (x : ℤ × List ℤ × Capturer). Kept sig x.2) (handle_one cap other)
unfolding handle_one is_registered
handle_one-Kept cap sig other k = elim (Bool-cases (is_valid other)) [
  | inr v ↦ rw v k
  | inl v ↦ elim (Bool-cases (registered_in (init_once cap) other)) [
    | inr e ↦ rw (v, e) (init_once-Kept cap sig k)
    | inl e ↦ elim (Option-cases (setting_at (init_once cap).settings (index_of other))) [
      | inl n ↦ rw (v, e, n) tt
      | inr (s, n) ↦
          rw (v, e, n)
            (put-Kept (init_once cap) sig other _ _ (init_once-initialized cap)
              (differ (registered_in (init_once cap)) other sig e k.1) (init_once-Kept cap sig k))
    ]
  ]
]
