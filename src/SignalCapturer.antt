-- ===== src/SignalCapturer.antt =====
-- Signals: code/libcpp_assistant/src/native/signal_capturer.cpp and
-- include/cpp_assistant/native/signal_capturer.h, with the signal numbers of Linux. The calls of the
-- users' handlers are listed in their order.
pub mod Table
pub mod Forbidden
pub mod Quiet
pub mod Runs
mod Examples
pub mod Arrival
pub mod Registration
pub mod Handling
use cpp_assistant.Prelude.{
  ℕ, zero, suc, ◌+◌, ◌-◌, Bool, true, false, not, ◌&&◌, ◌||◌, Option, none, some, List, [], ◌∷◌,
  ◌++◌, get_elem?, set, map, ℤ, pos, negsuc, ◌-ℤ◌, if◌then◌else◌, leb, ltb, ◌==◌, ◌==ℤ◌, ◌>>=◌,
}
use cpp_assistant.ReturnCode.{
  ca_ret, ca_ret_ok, invalid_signal_number, signal_capture_not_allowed, signal_registration_failed,
  signal_not_registered, signal_not_arising, value_out_of_range,
}

-- SIGHUP and __SIGRTMAX.
abbrev pub min_signal_num : ℕ
min_signal_num = 1

abbrev pub max_signal_num : ℕ
max_signal_num = 64

abbrev pub signal_count : ℕ
signal_count = 64

pub data SignalStatus : Type 0 where
  sig_not_registered : SignalStatus
  sig_not_triggered : SignalStatus
  sig_triggered : SignalStatus

-- `singal_handler`: from the signal number to a return code.
abbrev pub Handler : Type 0
Handler = ℤ → ℤ

-- `settings_t`; a null handler is `none`.
pub record Settings : Type 0 where
  pub status : SignalStatus
  pub handler : Option Handler
  pub exit_hint : Bool
  pub handled_automatically : Bool

-- The static members.
pub record Capturer : Type 0 where
  pub initialized : Bool
  pub settings : List Settings
  pub should_exit : Bool

unfoldable pub capture_is_forbidden : ℤ → Bool
capture_is_forbidden (pos n) = n == 9 || n == 19 || n == 32 || n == 33
capture_is_forbidden (negsuc n) = false

unfoldable pub is_valid : ℤ → Bool
is_valid (pos n) = leb min_signal_num n && leb n max_signal_num
is_valid (negsuc n) = false

unfoldable pub index_of : ℤ → ℤ
index_of sig_num = if is_valid sig_num then sig_num -ℤ pos min_signal_num else negsuc 0

unfoldable pub signum_at : ℕ → ℤ
signum_at index =
    if ltb index signal_count then pos (index + min_signal_num) else ca_ret value_out_of_range

abbrev pub fresh_settings : Settings
fresh_settings = record {
  status = sig_not_registered;
  handler = none;
  exit_hint = false;
  handled_automatically = false;
}

unfoldable pub init_once : Capturer → Capturer
init_once cap =
    if cap.initialized
    then cap
    else record cap { initialized = true; settings = map (λ s. fresh_settings) cap.settings }

-- `m_settings[i]`; `none` is an access outside of the array.
abbrev pub setting_at : List Settings → ℤ → Option Settings
setting_at settings (pos i) = get_elem? settings i
setting_at settings (negsuc i) = none

abbrev pub put_setting : List Settings → ℤ → Settings → List Settings
put_setting settings (pos i) s = set settings i s
put_setting settings (negsuc i) s = settings

abbrev pub is_registered_status : SignalStatus → Bool
is_registered_status sig_not_registered = false
is_registered_status _ = true

-- `is_registered` after its `init_once`.
unfoldable pub registered_in : Capturer → ℤ → Bool
registered_in cap sig_num = is_valid sig_num && elim (setting_at cap.settings (index_of sig_num)) [
  | none ↦ false
  | some s ↦ is_registered_status s.status
]

unfoldable pub is_registered : Capturer → ℤ → Bool × Capturer
is_registered cap sig_num = let cap' = init_once cap in (registered_in cap' sig_num, cap')

-- `register_one`; `sigaction` succeeds or not.
unfoldable pub register_one : Capturer → ℤ → Option Handler → Bool → Bool → Bool → ℤ × Capturer
register_one cap sig_num sig_handler exit_hint handled_automatically sigaction_ok =
    let cap' = init_once cap in
    if not (is_valid sig_num)
    then (ca_ret invalid_signal_number, cap')
    else if capture_is_forbidden sig_num
    then (ca_ret signal_capture_not_allowed, cap')
    else if not sigaction_ok
    then (ca_ret signal_registration_failed, cap')
    else (
      ca_ret_ok,
      record cap' {
        settings = put_setting cap'.settings (index_of sig_num) (record {
          status = sig_not_triggered;
          handler = sig_handler;
          exit_hint = exit_hint;
          handled_automatically = handled_automatically;
        });
      },
    )

unfoldable pub unregister : Capturer → ℤ → Bool → Option (ℤ × Capturer)
unregister cap sig_num sigaction_ok =
    let (registered, cap') = is_registered cap sig_num in
    if not registered
    then some (ca_ret_ok, cap')
    else if not sigaction_ok
    then some (ca_ret signal_registration_failed, cap')
    else do
      s ← setting_at cap'.settings (index_of sig_num)
      some (
        ca_ret_ok,
        record cap' {
          settings =
              put_setting cap'.settings (index_of sig_num)
                (record s { status = sig_not_registered; handler = none });
        },
      )

-- What handling a pending signal gives: the return code, and the call of a handler.
abbrev pub run_handler : Settings → ℤ → ℤ × List ℤ
run_handler s sig_num =
    if s.handled_automatically
    then (ca_ret_ok, [])
    else elim s.handler [ none ↦ (ca_ret_ok, []) | some h ↦ (h sig_num, sig_num ∷ []) ]

abbrev pub handle_setting : Settings → ℤ → ℤ × List ℤ × Settings
handle_setting s sig_num = elim s.status [
  | sig_triggered ↦
      let (ret, calls) = run_handler s sig_num in
      (ret, calls, record s { status = sig_not_triggered })
  | _ ↦ (if s.handled_automatically then ca_ret_ok else ca_ret signal_not_arising, [], s)
]

unfoldable pub handle_one : Capturer → ℤ → Option (ℤ × List ℤ × Capturer)
handle_one cap sig_num =
    if not (is_valid sig_num)
    then some (ca_ret invalid_signal_number, [], cap)
    else let (registered, cap') = is_registered cap sig_num in
      if not registered then some (ca_ret signal_not_registered, [], cap') else do
        s ← setting_at cap'.settings (index_of sig_num)
        let (ret, calls, s') = handle_setting s sig_num
        some
            (ret, calls, record cap' { settings = put_setting cap'.settings (index_of sig_num) s' })

-- The loop of `handle_all` from index `i` on: the number of signals handled, the calls, the settings.
unfoldable pub handle_from : ℕ → List Settings → ℕ × List ℤ × List Settings
handle_from i [] = (0, [], [])
handle_from i (s ∷ ss) =
    let (n, calls, ss') = handle_from (suc i) ss in
    elim s.status [
      | sig_triggered ↦ (
        suc n,
        (run_handler s (signum_at i)).1 ++ calls,
        record s { status = sig_not_triggered } ∷ ss',
      )
      | _ ↦ (n, calls, s ∷ ss')
    ]

unfoldable pub handle_all : Capturer → ℤ × List ℤ × Capturer
handle_all cap =
    let cap' = init_once cap in
    let (n, calls, settings) = handle_from 0 cap'.settings in
    (pos n, calls, record cap' { settings = settings })

-- `update_settings`, which the system calls when a signal arrives; a call of a null handler is `none`.
unfoldable pub update_settings : Capturer → ℤ → Option (List ℤ × Capturer)
update_settings cap sig_num = do
  s ← setting_at cap.settings (index_of sig_num)
  let cap' : Capturer = record cap {
    settings = put_setting cap.settings (index_of sig_num) (record s { status = sig_triggered });
    should_exit = s.exit_hint || cap.should_exit;
  }
  if s.handled_automatically
      then elim s.handler [ none ↦ none | some h ↦ some (sig_num ∷ [], cap') ]
      else some ([], cap')
