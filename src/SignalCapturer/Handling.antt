-- ===== src/SignalCapturer/Handling.antt =====
-- `handle_all` and `handle_one`: which handlers are called, and which signals stay pending.
use cpp_assistant.Prelude.{
  ℕ, zero, suc, ◌+◌, ◌≤◌, ◌<◌, ◌≡◌, refl, Bool, true, false, Option, none, some, List, [], ◌∷◌,
  ◌++◌, length, get_elem?, ℤ, pos, ◌==ℤ◌, arith, if◌then◌else◌, ◌==◌, sym, ap, ◌∙◌,
}
use cpp_assistant.SignalCapturer.{
  sig_not_triggered, sig_triggered, Settings, Capturer, signal_count, is_valid, index_of, signum_at,
  setting_at, init_once, run_handler, handle_from, handle_all,
}
use cpp_assistant.SignalCapturer.Table.{
  Sized, valid_index, signum_at-suc, setting_at-some, init_once-Sized,
}

-- How often a signal number occurs.
abbrev pub occurrences : ℤ → List ℤ → ℕ
occurrences sig [] = 0
occurrences sig (c ∷ cs) = (if c ==ℤ sig then 1 else 0) + occurrences sig cs

-- Whether a handler waits to be called.
abbrev pub is_due : Settings → Bool
is_due s = elim s.status [
  | sig_triggered ↦
      if s.handled_automatically then false else elim s.handler [ none ↦ false | some h ↦ true ]
  | _ ↦ false
]

abbrev pub is_triggered : Settings → Bool
is_triggered s = elim s.status [ sig_triggered ↦ true | _ ↦ false ]

abbrev pub settled : Settings → Settings
settled s = elim s.status [ sig_triggered ↦ record s { status = sig_not_triggered } | _ ↦ s ]

abbrev pub count_triggered : List Settings → ℕ
count_triggered [] = 0
count_triggered (s ∷ ss) = (if is_triggered s then 1 else 0) + count_triggered ss

abbrev settled_at : Option Settings → Option Settings
settled_at none = none
settled_at (some s) = some (settled s)

abbrev due_at : Option Settings → ℕ
due_at none = 0
due_at (some s) = if is_due s then 1 else 0

occurrences-append :
    (sig : ℤ) (xs ys : List ℤ)
    → occurrences sig (xs ++ ys) ≡ occurrences sig xs + occurrences sig ys
occurrences-append sig [] ys = omega arith
occurrences-append sig (x ∷ xs) ys = omega (arith, occurrences-append sig xs ys)

-- One round of the loop.
handle_from-step :
    (i : ℕ) (s : Settings) (ss : List Settings)
    → let (n, calls, ss') = handle_from (suc i) ss in
      handle_from i (s ∷ ss) ≡ (
        (if is_triggered s then 1 else 0) + n,
        (if is_triggered s then (run_handler s (signum_at i)).1 else []) ++ calls,
        settled s ∷ ss',
      )
unfolding handle_from
handle_from-step i s ss = ground arith

abbrev round : ℕ → Settings → List ℤ
round i s = if is_triggered s then (run_handler s (signum_at i)).1 else []

round_calls :
    (i m : ℕ) (s : Settings)
    → i < signal_count
    → occurrences (pos (suc m)) (round i s) ≡ (if i == m then due_at (some s) else 0)
round_calls i m s h = ground (arith, signum_at-suc i h)

-- No call is of a signal before the first of the loop.
no_calls_before :
    (i m : ℕ) (ss : List Settings)
    → i + length ss ≤ signal_count
    → m < i
    → occurrences (pos (suc m)) (handle_from i ss).1 ≡ 0
unfolding handle_from
no_calls_before i m [] h hm = refl
no_calls_before i m (s ∷ ss) h hm = rw (handle_from-step i s ss) (
    occurrences-append (pos (suc m)) (round i s) (handle_from (suc i) ss).1
    ∙ omega (arith, no_calls_before (suc i) m ss (omega arith) (omega arith), round_none))
  where
    round_none : occurrences (pos (suc m)) (round i s) ≡ 0
    round_none = round_calls i m s (omega arith) ∙ ground arith

-- What the loop does to the place `k` behind its first, and for it.
handle_from_lem :
    (i k : ℕ) (ss : List Settings)
    → i + length ss ≤ signal_count
    → let (n, calls, ss') = handle_from i ss in
      (n ≡ count_triggered ss)
      × (length ss' ≡ length ss)
      × (get_elem? ss' k ≡ settled_at (get_elem? ss k))
      × (occurrences (pos (suc (i + k))) calls ≡ due_at (get_elem? ss k))
unfolding handle_from
handle_from_lem i k [] h = (refl, refl, refl, refl)
handle_from_lem i zero (s ∷ ss) h =
    let (en, el, eg, eo) = handle_from_lem (suc i) zero ss (omega arith) in
    rw (handle_from-step i s ss) (
      omega (arith, en),
      omega (arith, el),
      refl,
      occurrences-append _ (round i s) _
          ∙ ground (
            arith,
            round_calls i (i + 0) s (omega arith),
            no_calls_before (suc i) (i + 0) ss (omega arith) (omega arith),
          ),
    )
handle_from_lem i (suc k) (s ∷ ss) h =
    let (en, el, eg, eo) = handle_from_lem (suc i) k ss (omega arith) in
    rw (handle_from-step i s ss) (
      omega (arith, en),
      omega (arith, el),
      eg,
      occurrences-append _ (round i s) _
          ∙ later i (i + suc k) (round_calls i (i + suc k) s (omega arith) ∙ ground arith)
          ∙ ap (λ m. occurrences (pos (suc m)) (handle_from (suc i) ss).1)
              (let e : i + suc k ≡ suc i + k = omega arith in e)
          ∙ eo,
    )
  where
    later :
        (i m : ℕ)
        → occurrences (pos (suc m)) (round i s) ≡ 0
        → occurrences (pos (suc m)) (round i s)
            + occurrences (pos (suc m)) (handle_from (suc i) ss).1
          ≡ occurrences (pos (suc m)) (handle_from (suc i) ss).1
    later i m e = omega (arith, e)

-- `handle_all` returns the number of the signals that are triggered. It calls the handler of a signal
-- once if the signal is triggered, is not handled automatically and has a handler, and not at all
-- otherwise; after that the signal is registered as before, and no longer triggered.
pub handle_all_lem :
    (cap : Capturer) (sig : ℤ)
    → Sized cap
    → is_valid sig ≡ true
    → let before = (init_once cap).settings in
      let (ret, calls, cap') = handle_all cap in
      (s : Settings) × (setting_at before (index_of sig) ≡ some s)
      × (ret ≡ pos (count_triggered before))
      × (occurrences sig calls ≡ (if is_due s then 1 else 0))
      × (setting_at cap'.settings (index_of sig) ≡ some (settled s))
      × Sized cap'
unfolding handle_all
handle_all_lem cap sig hs hv =
    let (i, e, ei, hi) = valid_index sig hv in
    let sized = init_once-Sized cap hs in
    let (s, es) = setting_at-some (init_once cap).settings sig sized hv in
    let at : get_elem? (init_once cap).settings i ≡ some s =
      ap (setting_at (init_once cap).settings) (sym ei) ∙ es in
    let (en, el, eg, eo) = handle_from_lem 0 i (init_once cap).settings (omega (arith, sized)) in
    (
      s,
      es,
      ap pos en,
      ap (λ g. occurrences g (handle_from 0 (init_once cap).settings).1)
            (e ∙ ap (λ j. pos (suc j)) (let z : i ≡ 0 + i = omega arith in z))
          ∙ eo
          ∙ ap due_at at,
      ap (setting_at (handle_from 0 (init_once cap).settings).2) ei ∙ eg ∙ ap settled_at at,
      el ∙ sized,
    )
