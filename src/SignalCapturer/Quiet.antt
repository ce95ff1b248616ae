-- ===== src/SignalCapturer/Quiet.antt =====
-- Signals that may not be captured: the handling of all signals, and the arrival of a signal.
use cpp_assistant.Prelude.{
  zero, suc, ◌≡◌, refl, Bool, true, false, ◌&&◌, ◌||◌, Option, none, some, List, [], ◌∷◌, map, ℤ,
  pos, negsuc, arith, if◌then◌else◌, sym, ap, ◌∙◌, Bool-cases, Option-cases, inl, inr,
}
use cpp_assistant.SignalCapturer.{
  sig_triggered, Settings, Capturer, Handler, is_valid, index_of, capture_is_forbidden, setting_at,
  init_once, fresh_settings, registered_in, is_registered_status, handle_all, update_settings,
}
use cpp_assistant.SignalCapturer.Arrival.{init_once_same, init_once-initialized, registered_in_of}
use cpp_assistant.SignalCapturer.Handling.{handle_all_lem, settled}
use cpp_assistant.SignalCapturer.Forbidden.{Kept, put-Kept, differ, OnSome}

forbidden-valid : (sig : ℤ) → capture_is_forbidden sig ≡ true → is_valid sig ≡ true
unfolding capture_is_forbidden is_valid
forbidden-valid (pos n) h = ground arith
forbidden-valid (negsuc n) h = cc h

settled-registered :
    (s : Settings) → is_registered_status (settled s).status ≡ is_registered_status s.status
settled-registered s = ground arith

handle_all-initialized : (cap : Capturer) → (handle_all cap).2.initialized ≡ true
unfolding handle_all
handle_all-initialized cap = init_once-initialized cap

pub handle_all-Kept :
    (cap : Capturer) (sig : ℤ)
    → capture_is_forbidden sig ≡ true
    → Kept sig cap
    → Kept sig (handle_all cap).2
handle_all-Kept cap sig hf (sized, un) =
    let hv = forbidden-valid sig hf in
    let (s, es, _, _, after, sized') = handle_all_lem cap sig sized hv in
    (
      sized',
      ap (λ c. registered_in c sig) (init_once_same (handle_all cap).2 (handle_all-initialized cap))
          ∙ registered_in_of (handle_all cap).2 sig (some (settled s)) hv after
          ∙ settled-registered s
          ∙ sym (registered_in_of (init_once cap) sig (some s) hv es)
          ∙ un,
    )

init_once_fresh :
    (cap : Capturer)
    → cap.initialized ≡ false
    → init_once cap ≡ record {
      initialized = true;
      settings = map (λ s. fresh_settings) cap.settings;
      should_exit = cap.should_exit;
    }
unfolding init_once
init_once_fresh cap h = rw h refl

fresh_at :
    (settings : List Settings) (i : ℤ)
    → elim (setting_at (map (λ s. fresh_settings) settings) i) [
      | none ↦ false
      | some s ↦ is_registered_status s.status
    ]
      ≡ false
fresh_at settings (negsuc i) = refl
fresh_at [] (pos i) = refl
fresh_at (s ∷ ss) (pos zero) = refl
fresh_at (s ∷ ss) (pos (suc i)) = fresh_at ss (pos i)

and_false : (b : Bool) {c : Bool} → c ≡ false → (b && c) ≡ false
and_false true h = h
and_false false h = refl

pub none_registered :
    (cap : Capturer) (sig : ℤ) → cap.initialized ≡ false → registered_in (init_once cap) sig ≡ false
unfolding registered_in
none_registered cap sig h =
    ap (λ c. registered_in c sig) (init_once_fresh cap h)
    ∙ and_false (is_valid sig) (fresh_at cap.settings (index_of sig))

-- Where the arrival of a signal is no fault, its handler is called or not, and the state is the same.
pub deliver :
    (P : Capturer → Type 0) (auto : Bool) (h : Option Handler) (sig : ℤ) (cap : Capturer)
    → P cap
    → OnSome
        (λ (x : List ℤ × Capturer). P x.1)
        (if auto then elim h [ none ↦ none | some f ↦ some (sig ∷ [], cap) ] else some ([], cap))
deliver P true none sig cap p = tt
deliver P true (some f) sig cap p = p
deliver P false h sig cap p = p

pub update_settings-Kept :
    (cap : Capturer) (sig other : ℤ)
    → registered_in (init_once cap) other ≡ true
    → Kept sig cap
    → OnSome (λ (x : List ℤ × Capturer). Kept sig x.1) (update_settings cap other)
unfolding update_settings
update_settings-Kept cap sig other hr k = elim (Bool-cases cap.initialized) [
  | inr e ↦ let h = none_registered cap other e in absurd (cc (h, hr))
  | inl e ↦ elim (Option-cases (setting_at cap.settings (index_of other))) [
    | inl n ↦ rw n tt
    | inr (s, n) ↦
        let next =
          put-Kept cap sig other (record s { status = sig_triggered })
            (s.exit_hint || cap.should_exit) e
            (differ (registered_in (init_once cap)) other sig hr k.1) k in
        rw n (deliver (Kept sig) s.handled_automatically s.handler other _ next)
  ]
]
