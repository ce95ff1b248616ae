-- ===== src/SignalCapturer/Examples.antt =====
-- SIGINT and SIGTERM with a capturer.
use cpp_assistant.Prelude.{
  ◌≡◌, refl, true, false, some, [], ◌∷◌, replicate, ◌-ℤ◌, if◌then◌else◌, pos,
}
use cpp_assistant.ReturnCode.{ca_ret, signal_not_arising}
use cpp_assistant.SignalCapturer.{
  sig_not_triggered, sig_triggered, Settings, Capturer, Handler, is_valid, index_of,
  capture_is_forbidden, setting_at, put_setting, init_once, registered_in, is_registered,
  handle_one, handle_all, update_settings, fresh_settings,
}
use cpp_assistant.SignalCapturer.Table.{Sized}
use cpp_assistant.SignalCapturer.Handling.{
  count_triggered, is_due, occurrences, settled, handle_all_lem,
}
use cpp_assistant.SignalCapturer.Arrival.{arrivals_handled_once}
use cpp_assistant.SignalCapturer.Runs.{
  at_start, arriving, Step, handles_all, arrives, start, then_step, forbidden_never_registered,
}

-- A handler that returns 7.
abbrev seven : Handler
seven = λ sig. pos 7

abbrev waiting : Settings
waiting = record {
  status = sig_triggered;
  handler = some seven;
  exit_hint = true;
  handled_automatically = false;
}

-- Signal 2 has arrived.
abbrev interrupted : Capturer
interrupted = record {
  initialized = true;
  settings = fresh_settings ∷ waiting ∷ replicate 62 fresh_settings;
  should_exit = false;
}

handle_all_lem_example :
    let before = (init_once interrupted).settings in
    let (ret, calls, cap') = handle_all interrupted in
    (s : Settings) × (setting_at before (index_of (pos 2)) ≡ some s)
    × (ret ≡ pos (count_triggered before))
    × (occurrences (pos 2) calls ≡ (if is_due s then 1 else 0))
    × (setting_at cap'.settings (index_of (pos 2)) ≡ some (settled s))
    × Sized cap'
unfolding is_valid
handle_all_lem_example = handle_all_lem interrupted (pos 2) refl refl

abbrev on_terminate : Settings
on_terminate = record {
  status = sig_not_triggered;
  handler = some seven;
  exit_hint = true;
  handled_automatically = false;
}

waiting_at : setting_at interrupted.settings (index_of (pos 2)) ≡ some waiting
unfolding index_of is_valid ◌-ℤ◌
waiting_at = refl

arrivals_handled_once_example :
    (cap1 : Capturer) × (cap2 : Capturer) × (update_settings interrupted (pos 2) ≡ some ([], cap1))
    × (update_settings cap1 (pos 2) ≡ some ([], cap1))
    × (handle_one cap1 (pos 2) ≡ some (pos 7, pos 2 ∷ [], cap2))
    × (handle_one cap2 (pos 2) ≡ some (ca_ret signal_not_arising, [], cap2))
unfolding is_valid
arrivals_handled_once_example =
    arrivals_handled_once interrupted (pos 2) waiting seven refl refl refl waiting_at refl refl

forbidden_never_registered_example :
    Sized (handle_all at_start).2 × ((is_registered (handle_all at_start).2 (pos 9)).0 ≡ false)
unfolding capture_is_forbidden
forbidden_never_registered_example =
    forbidden_never_registered (handle_all at_start).2 (pos 9) (then_step start handles_all) refl

abbrev interrupted_again : Capturer
interrupted_again = record interrupted {
  settings = put_setting interrupted.settings (index_of (pos 2)) waiting;
  should_exit = true;
}

arrives_again : Step interrupted (arriving (pos 2)) interrupted_again
unfolding update_settings registered_in init_once is_valid index_of ◌-ℤ◌
arrives_again = arrives refl refl
