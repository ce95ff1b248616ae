-- ===== src/SignalCapturer/Runs.antt =====
-- The capturer over time: calls of its operations and arrivals of signals, in any order.
use cpp_assistant.Prelude.{
  ◌≡◌, refl, Bool, true, false, ◌||◌, Option, none, some, List, replicate, ℤ, arith, sym, ap, subst,
  Bool-cases, Option-cases, inl, inr,
}
use cpp_assistant.SignalCapturer.{
  sig_not_triggered, sig_triggered, Settings, Capturer, Handler, signal_count, index_of,
  capture_is_forbidden, setting_at, put_setting, init_once, registered_in, is_registered,
  register_one, unregister, handle_one, handle_all, update_settings,
}
use cpp_assistant.SignalCapturer.Table.{Sized}
use cpp_assistant.SignalCapturer.Forbidden.{
  Kept, OnSome, register_one-Kept, unregister-Kept, handle_one-Kept,
}
use cpp_assistant.SignalCapturer.Quiet.{
  deliver, handle_all-Kept, update_settings-Kept, none_registered,
}

-- Static storage starts as zeros, and 0 is SIG_NOT_TRIGGERED.
abbrev pub at_start : Capturer
at_start = record {
  initialized = false;
  settings = replicate signal_count (record {
    status = sig_not_triggered;
    handler = none;
    exit_hint = false;
    handled_automatically = false;
  });
  should_exit = false;
}

pub data Event : Type 0 where
  registering : ℤ → Option Handler → Bool → Bool → Bool → Event
  unregistering : ℤ → Bool → Event
  handling : ℤ → Event
  handling_all : Event
  arriving : ℤ → Event

-- A signal reaches the capturer while it is registered there.
pub data Step : Capturer → Event → Capturer → Type 0 where
  registers :
      {cap : Capturer} {sig : ℤ} {h : Option Handler} {exit_hint auto ok : Bool}
      → Step cap (registering sig h exit_hint auto ok) (register_one cap sig h exit_hint auto ok).1
  unregisters :
      {cap cap' : Capturer} {sig ret : ℤ} {ok : Bool}
      → unregister cap sig ok ≡ some (ret, cap')
      → Step cap (unregistering sig ok) cap'
  handles :
      {cap cap' : Capturer} {sig ret : ℤ} {calls : List ℤ}
      → handle_one cap sig ≡ some (ret, calls, cap')
      → Step cap (handling sig) cap'
  handles_all : {cap : Capturer} → Step cap handling_all (handle_all cap).2
  arrives :
      {cap cap' : Capturer} {sig : ℤ} {calls : List ℤ}
      → registered_in (init_once cap) sig ≡ true
      → update_settings cap sig ≡ some (calls, cap')
      → Step cap (arriving sig) cap'

pub data Reachable : Capturer → Type 0 where
  start : Reachable at_start
  then_step : {cap cap' : Capturer} {e : Event} → Reachable cap → Step cap e cap' → Reachable cap'

step-Kept :
    {cap cap' : Capturer} {e : Event} (sig : ℤ)
    → Step cap e cap'
    → capture_is_forbidden sig ≡ true
    → Kept sig cap
    → Kept sig cap'
step-Kept {cap = cap} sig (registers {sig = other} {h = h} {exit_hint = x} {auto = a} {ok = ok}) hf
      k =
    register_one-Kept cap sig other h x a ok hf k
step-Kept {cap = cap} sig (unregisters {sig = other} {ok = ok} eq) hf k =
    subst (OnSome (λ (x : ℤ × Capturer). Kept sig x.1)) eq (unregister-Kept cap sig other ok k)
step-Kept {cap = cap} sig (handles {sig = other} eq) hf k =
    subst (OnSome (λ (x : ℤ × List ℤ × Capturer). Kept sig x.2)) eq
      (handle_one-Kept cap sig other k)
step-Kept {cap = cap} sig handles_all hf k = handle_all-Kept cap sig hf k
step-Kept {cap = cap} sig (arrives {sig = other} hr eq) hf k =
    subst (OnSome (λ (x : List ℤ × Capturer). Kept sig x.1)) eq
      (update_settings-Kept cap sig other hr k)

-- A forbidden signal is never registered, and the array has a place for each signal, whatever calls
-- were made and whatever signals arrived since the program started.
pub forbidden_never_registered :
    (cap : Capturer) (sig : ℤ)
    → Reachable cap
    → capture_is_forbidden sig ≡ true
    → Sized cap × ((is_registered cap sig).0 ≡ false)
unfolding is_registered
forbidden_never_registered cap sig start hf = (refl, none_registered at_start sig refl)
forbidden_never_registered cap sig (then_step r s) hf =
    step-Kept sig s hf (forbidden_never_registered _ sig r hf)

init_once-should_exit : (cap : Capturer) → (init_once cap).should_exit ≡ cap.should_exit
unfolding init_once
init_once-should_exit cap = elim (Bool-cases cap.initialized) [
  | inl e ↦ rw e refl
  | inr e ↦ rw e refl
]

-- Whether an event is the arrival of a signal that was registered with the exit hint.
unfoldable pub asks_exit : Capturer → Event → Bool
asks_exit cap (arriving sig) = elim (setting_at cap.settings (index_of sig)) [
  | none ↦ false
  | some s ↦ s.exit_hint
]
asks_exit cap _ = false

register_one-should_exit :
    (cap : Capturer) (sig : ℤ) (h : Option Handler) (exit_hint auto ok : Bool)
    → (register_one cap sig h exit_hint auto ok).1.should_exit ≡ cap.should_exit
unfolding register_one
register_one-should_exit cap sig h exit_hint auto ok = ground (arith, init_once-should_exit cap)

unregister-should_exit :
    (cap : Capturer) (sig : ℤ) (ok : Bool)
    → OnSome (λ (x : ℤ × Capturer). x.1.should_exit ≡ cap.should_exit) (unregister cap sig ok)
unfolding unregister is_registered
unregister-should_exit cap sig ok = ground (arith, init_once-should_exit cap)

handle_one-should_exit :
    (cap : Capturer) (sig : ℤ)
    → OnSome (λ (x : ℤ × List ℤ × Capturer). x.2.should_exit ≡ cap.should_exit) (handle_one cap sig)
unfolding handle_one is_registered
handle_one-should_exit cap sig = ground (arith, init_once-should_exit cap)

asks_exit_eq :
    (cap : Capturer) (sig : ℤ) (s : Settings)
    → setting_at cap.settings (index_of sig) ≡ some s
    → asks_exit cap (arriving sig) ≡ s.exit_hint
unfolding asks_exit
asks_exit_eq cap sig s h = rw (h, asks_exit) refl

update_settings-should_exit :
    (cap : Capturer) (sig : ℤ)
    → OnSome
        (λ (x : List ℤ × Capturer).
          x.1.should_exit ≡ (asks_exit cap (arriving sig) || cap.should_exit))
        (update_settings cap sig)
unfolding update_settings
update_settings-should_exit cap sig = elim (Option-cases (setting_at cap.settings (index_of sig))) [
  | inl n ↦ rw n tt
  | inr (s, n) ↦ rw n (
      deliver (λ c. c.should_exit ≡ (asks_exit cap (arriving sig) || cap.should_exit))
        s.handled_automatically s.handler sig
        (record cap {
          settings = put_setting cap.settings (index_of sig) (record s { status = sig_triggered });
          should_exit = s.exit_hint || cap.should_exit;
        })
        (ap (λ b. b || cap.should_exit) (sym (asks_exit_eq cap sig s n))))
]

-- The exit flag is set by the arrival of a signal that was registered with the exit hint, and by
-- nothing else, and no operation takes it back.
pub should_exit_lem :
    (cap cap' : Capturer) (e : Event)
    → Step cap e cap'
    → cap'.should_exit ≡ (asks_exit cap e || cap.should_exit)
unfolding asks_exit handle_all
should_exit_lem cap _ _ (registers {sig = sig} {h = h} {exit_hint = x} {auto = a} {ok = ok}) =
    register_one-should_exit cap sig h x a ok
should_exit_lem cap cap' _ (unregisters {sig = sig} {ok = ok} eq) =
    subst (OnSome (λ (x : ℤ × Capturer). x.1.should_exit ≡ cap.should_exit)) eq
      (unregister-should_exit cap sig ok)
should_exit_lem cap cap' _ (handles {sig = sig} eq) =
    subst (OnSome (λ (x : ℤ × List ℤ × Capturer). x.2.should_exit ≡ cap.should_exit)) eq
      (handle_one-should_exit cap sig)
should_exit_lem cap _ _ handles_all = init_once-should_exit cap
should_exit_lem cap cap' _ (arrives {sig = sig} hr eq) =
    subst
      (OnSome (λ (x : List ℤ × Capturer).
        x.1.should_exit ≡ (asks_exit cap (arriving sig) || cap.should_exit)))
      eq (update_settings-should_exit cap sig)
