-- ===== src/SignalCapturer/Registration.antt =====
-- What `register_one` and `unregister` do to the settings.
use cpp_assistant.Prelude.{◌≡◌, ◌≢◌, refl, Bool, true, false, Option, none, some, ℤ, ◌∙◌}
use cpp_assistant.ReturnCode.{ca_ret_ok}
use cpp_assistant.SignalCapturer.{
  sig_not_registered, sig_not_triggered, Settings, Capturer, Handler, is_valid, index_of,
  capture_is_forbidden, setting_at, put_setting, init_once, registered_in, is_registered,
  register_one, unregister,
}
use cpp_assistant.SignalCapturer.Table.{
  Sized, setting_at-put_self, setting_at-put_ne, length-put_setting, init_once-Sized,
}
use cpp_assistant.SignalCapturer.Arrival.{init_once_same, init_once-initialized, registered_in_of}

-- Registering a signal that may be captured, where the system allows it, makes it a registered signal
-- that has not arrived. For every other signal nothing changes, and unregistering it afterwards makes it
-- unregistered, with the settings of every other signal kept.
pub register_one_lem :
    (cap : Capturer) (sig other : ℤ) (h : Option Handler) (exit_hint auto : Bool)
    → Sized cap
    → is_valid sig ≡ true
    → capture_is_forbidden sig ≡ false
    → is_valid other ≡ true
    → sig ≢ other
    → let before = init_once cap in
      let s : Settings = record {
        status = sig_not_triggered;
        handler = h;
        exit_hint = exit_hint;
        handled_automatically = auto;
      } in
      (cap' : Capturer) × (cap'' : Capturer) × (register_one cap sig h exit_hint auto true
        ≡ (ca_ret_ok, cap'))
      × (setting_at cap'.settings (index_of sig) ≡ some s)
      × (setting_at cap'.settings (index_of other) ≡ setting_at before.settings (index_of other))
      × (unregister cap' sig true ≡ some (ca_ret_ok, cap''))
      × (registered_in cap'' sig ≡ false)
      × (setting_at cap''.settings (index_of other) ≡ setting_at before.settings (index_of other))
unfolding register_one unregister is_registered
register_one_lem cap sig other h exit_hint auto sized hv hf ho ne =
    let before = init_once cap in
    let s : Settings = record {
      status = sig_not_triggered;
      handler = h;
      exit_hint = exit_hint;
      handled_automatically = auto;
    } in
    let s' : Settings = record s { status = sig_not_registered; handler = none } in
    let cap' : Capturer = record before {
      settings = put_setting before.settings (index_of sig) s;
    } in
    let cap'' : Capturer = record cap' { settings = put_setting cap'.settings (index_of sig) s' } in
    let sized' : Sized cap' =
      length-put_setting before.settings (index_of sig) s ∙ init_once-Sized cap sized in
    let at : setting_at cap'.settings (index_of sig) ≡ some s =
      setting_at-put_self before.settings sig s (init_once-Sized cap sized) hv in
    let at' : setting_at cap''.settings (index_of sig) ≡ some s' =
      setting_at-put_self cap'.settings sig s' sized' hv in
    let same : init_once cap' ≡ cap' = init_once_same cap' (init_once-initialized cap) in
    let keep = setting_at-put_ne before.settings sig other s hv ho ne in
    (
      cap',
      cap'',
      rw (hv, hf) refl,
      at,
      keep,
      rw (same, registered_in_of cap' sig (some s) hv at, at) refl,
      registered_in_of cap'' sig (some s') hv at',
      setting_at-put_ne cap'.settings sig other s' hv ho ne ∙ keep,
    )
