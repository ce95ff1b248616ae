-- ===== src/SignalCapturer/Arrival.antt =====
-- Registration, and what happens to a signal between its arrival and its handling.
use cpp_assistant.Prelude.{
  ℕ, zero, suc, ◌≡◌, refl, Bool, true, false, ◌||◌, Option, none, some, List, [], ◌∷◌, set, ℤ, pos,
  negsuc, if◌then◌else◌, ap, ◌∙◌, Bool-cases, inl, inr,
}
use cpp_assistant.ReturnCode.{ca_ret, ca_ret_ok, signal_not_arising}
use cpp_assistant.SignalCapturer.{
  sig_not_triggered, sig_triggered, Settings, Capturer, Handler, is_valid, index_of,
  capture_is_forbidden, setting_at, put_setting, init_once, registered_in, is_registered,
  is_registered_status, register_one, run_handler, handle_setting, handle_one, update_settings,
}
use cpp_assistant.SignalCapturer.Table.{
  Sized, setting_at-put_self, length-put_setting, init_once-Sized,
}

pub init_once_same : (cap : Capturer) → cap.initialized ≡ true → init_once cap ≡ cap
unfolding init_once
init_once_same cap h = rw h refl

pub init_once-initialized : (cap : Capturer) → (init_once cap).initialized ≡ true
unfolding init_once
init_once-initialized cap = elim (Bool-cases cap.initialized) [
  | inl e ↦ rw e refl
  | inr e ↦ rw e refl
]

pub registered_in_of :
    (cap : Capturer) (sig : ℤ) (o : Option Settings)
    → is_valid sig ≡ true
    → setting_at cap.settings (index_of sig) ≡ o
    → registered_in cap sig ≡ elim o [ none ↦ false | some s ↦ is_registered_status s.status ]
unfolding registered_in
registered_in_of cap sig o h e = rw (h, e) refl

set-set {ℓ} : {A : Type ℓ} (xs : List A) (i : ℕ) (v : A) → set (set xs i v) i v ≡ set xs i v
set-set [] i v = refl
set-set (x ∷ xs) zero v = refl
set-set (x ∷ xs) (suc i) v = ap (λ l. x ∷ l) (set-set xs i v)

put-put :
    (settings : List Settings) (i : ℤ) (s : Settings)
    → put_setting (put_setting settings i s) i s ≡ put_setting settings i s
put-put settings (pos i) s = set-set settings i s
put-put settings (negsuc i) s = refl

or_idem : (a b : Bool) → (a || (a || b)) ≡ (a || b)
or_idem true b = refl
or_idem false b = refl

abbrev pub arrived : Capturer → ℤ → Settings → Capturer
arrived cap sig s = record cap {
  settings = put_setting cap.settings (index_of sig) (record s { status = sig_triggered });
  should_exit = s.exit_hint || cap.should_exit;
}

update_settings_eq :
    (cap : Capturer) (sig : ℤ) (s : Settings)
    → setting_at cap.settings (index_of sig) ≡ some s
    → s.handled_automatically ≡ false
    → update_settings cap sig ≡ some ([], arrived cap sig s)
unfolding update_settings
update_settings_eq cap sig s es ea = simp (es, ea)

abbrev handled : Capturer → ℤ → Settings → Capturer
handled cap sig s = record cap {
  settings = put_setting cap.settings (index_of sig) (handle_setting s sig).2;
}

handle_one_eq :
    (cap : Capturer) (sig : ℤ) (s : Settings)
    → cap.initialized ≡ true
    → is_valid sig ≡ true
    → setting_at cap.settings (index_of sig) ≡ some s
    → is_registered_status s.status ≡ true
    → handle_one cap sig
      ≡ some ((handle_setting s sig).0, (handle_setting s sig).1, handled cap sig s)
unfolding handle_one is_registered
handle_one_eq cap sig s hi hv es hr =
    simp (init_once_same cap hi, hv, registered_in_of cap sig (some s) hv es, hr, es)

run_handler_eq :
    (s : Settings) (sig : ℤ) (h : Handler)
    → s.handler ≡ some h
    → s.handled_automatically ≡ false
    → run_handler s sig ≡ (h sig, sig ∷ [])
run_handler_eq s sig h eh ea = rw (ea, eh) refl

not_arising :
    {auto : Bool}
    → auto ≡ false
    → (if auto then ca_ret_ok else ca_ret signal_not_arising) ≡ ca_ret signal_not_arising
not_arising e = rw e refl

-- A registered signal that its user handles, with the handler `h`, arrives: nothing is called, and a
-- second arrival before it is handled changes nothing more. `handle_one` then calls the handler, once,
-- and returns what it returns; the next `handle_one` calls nothing and returns SIGNAL_NOT_ARISING.
pub arrivals_handled_once :
    (cap : Capturer) (sig : ℤ) (s : Settings) (h : Handler)
    → Sized cap
    → cap.initialized ≡ true
    → is_valid sig ≡ true
    → setting_at cap.settings (index_of sig) ≡ some s
    → s.handler ≡ some h
    → s.handled_automatically ≡ false
    → (cap1 : Capturer) × (cap2 : Capturer) × (update_settings cap sig ≡ some ([], cap1))
      × (update_settings cap1 sig ≡ some ([], cap1))
      × (handle_one cap1 sig ≡ some (h sig, sig ∷ [], cap2))
      × (handle_one cap2 sig ≡ some (ca_ret signal_not_arising, [], cap2))
arrivals_handled_once cap sig s h sized hi hv es eh ea =
    let up : Settings = record s { status = sig_triggered } in
    let down : Settings = record s { status = sig_not_triggered } in
    let cap1 = arrived cap sig s in
    let cap2 = handled cap1 sig up in
    let at1 : setting_at cap1.settings (index_of sig) ≡ some up =
      setting_at-put_self cap.settings sig up sized hv in
    let sized1 : Sized cap1 = length-put_setting cap.settings (index_of sig) up ∙ sized in
    let at2 : setting_at cap2.settings (index_of sig) ≡ some down =
      setting_at-put_self cap1.settings sig down sized1 hv in
    (
      cap1,
      cap2,
      update_settings_eq cap sig s es ea,
      update_settings_eq cap1 sig up at1 ea
          ∙ ap
              (λ l. some (
                [],
                record cap1 {
                  settings = l;
                  should_exit = s.exit_hint || (s.exit_hint || cap.should_exit);
                },
              ))
              (put-put cap.settings (index_of sig) up)
          ∙ ap (λ b. some ([], record cap1 { should_exit = b }))
              (or_idem s.exit_hint cap.should_exit),
      handle_one_eq cap1 sig up hi hv at1 refl
          ∙ ap (λ (p : ℤ × List ℤ). some (p.0, p.1, cap2)) (run_handler_eq up sig h eh ea),
      handle_one_eq cap2 sig down hi hv at2 refl
          ∙ ap
              (λ l. some (
                (handle_setting down sig).0,
                (handle_setting down sig).1,
                record cap2 { settings = l },
              ))
              (put-put cap1.settings (index_of sig) down)
          ∙ ap (λ (r : ℤ). some (r, [], cap2)) (not_arising ea),
    )

-- A null handler may be registered as one that is called automatically. The arrival of such a signal is
-- a call of the null pointer.
pub null_automatic_faults :
    (cap : Capturer) (sig : ℤ) (exit_hint : Bool)
    → Sized cap
    → is_valid sig ≡ true
    → capture_is_forbidden sig ≡ false
    → (cap' : Capturer) × (register_one cap sig none exit_hint true true ≡ (ca_ret_ok, cap'))
      × (update_settings cap' sig ≡ none)
unfolding register_one update_settings
null_automatic_faults cap sig exit_hint sized hv hf =
    let s : Settings = record {
      status = sig_not_triggered;
      handler = none;
      exit_hint = exit_hint;
      handled_automatically = true;
    } in
    let before = init_once cap in
    (
      record before { settings = put_setting before.settings (index_of sig) s },
      rw (hv, hf) refl,
      rw (setting_at-put_self before.settings sig s (init_once-Sized cap sized) hv) refl,
    )
