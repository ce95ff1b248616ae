-- ===== src/SignalCapturer/Table.antt =====
-- Signal numbers and the places of their settings.
use cpp_assistant.Prelude.{
  get_elem?-some, ℕ, zero, suc, ◌<◌, ◌≡◌, ◌≢◌, refl, true, some, List, length, ℤ, pos, negsuc, ◌-ℤ◌,
  arith, sym, ap, ◌∙◌, get_elem?-set_self, get_elem?-set_ne, length-set, length-map, Bool-cases,
  inl, inr,
}
use cpp_assistant.SignalCapturer.{
  Settings, Capturer, signal_count, is_valid, index_of, signum_at, setting_at, put_setting,
  init_once, fresh_settings,
}

-- The array has a place for each signal.
abbrev pub Sized : Capturer → Type 0
Sized cap = length cap.settings ≡ signal_count

-- A valid signal number is that of the place `i`.
pub valid_index :
    (sig : ℤ)
    → is_valid sig ≡ true
    → (i : ℕ) × (sig ≡ pos (suc i)) × (index_of sig ≡ pos i) × (i < signal_count)
unfolding is_valid index_of ◌-ℤ◌
valid_index (pos zero) h = cc h
valid_index (pos (suc n)) h = (n, refl, rw h (ground arith), ground arith)
valid_index (negsuc n) h = cc h

pub signum_at-suc : (i : ℕ) → i < signal_count → signum_at i ≡ pos (suc i)
unfolding signum_at
signum_at-suc i h = ground arith

-- Every valid signal number has a place in the array, of which it is the number, and every place has a
-- valid number, of which it is the place.
pub signum_at-index_of :
    (sig : ℤ) (i : ℕ)
    → is_valid sig ≡ true
    → i < signal_count
    → ((j : ℕ) × (index_of sig ≡ pos j) × (j < signal_count) × (signum_at j ≡ sig))
      × (is_valid (signum_at i) ≡ true)
      × (index_of (signum_at i) ≡ pos i)
unfolding is_valid index_of ◌-ℤ◌
signum_at-index_of sig i h hi =
    let (j, e, ej, hj) = valid_index sig h in
    (
      (j, ej, hj, signum_at-suc j hj ∙ sym e),
      rw (signum_at-suc i hi) (ground arith),
      rw (signum_at-suc i hi) (ground arith),
    )

-- The settings of a valid signal.
pub setting_at-some :
    (settings : List Settings) (sig : ℤ)
    → length settings ≡ signal_count
    → is_valid sig ≡ true
    → (s : Settings) × (setting_at settings (index_of sig) ≡ some s)
setting_at-some settings sig el h =
    let (i, e, ei, hi) = valid_index sig h in
    let (s, es) = get_elem?-some settings i (omega arith) in (s, rw ei es)

pub setting_at-put_self :
    (settings : List Settings) (sig : ℤ) (s : Settings)
    → length settings ≡ signal_count
    → is_valid sig ≡ true
    → setting_at (put_setting settings (index_of sig) s) (index_of sig) ≡ some s
setting_at-put_self settings sig s el h =
    let (i, e, ei, hi) = valid_index sig h in rw ei (get_elem?-set_self settings i s (omega arith))

pub setting_at-put_ne :
    (settings : List Settings) (sig other : ℤ) (s : Settings)
    → is_valid sig ≡ true
    → is_valid other ≡ true
    → sig ≢ other
    → setting_at (put_setting settings (index_of sig) s) (index_of other)
      ≡ setting_at settings (index_of other)
setting_at-put_ne settings sig other s h ho ne =
    let (i, e, ei, hi) = valid_index sig h in
    let (j, f, fj, hj) = valid_index other ho in
    rw (ei, fj) (get_elem?-set_ne settings s (λ g. ne (e ∙ ap (λ k. pos (suc k)) g ∙ sym f)))

pub length-put_setting :
    (settings : List Settings) (i : ℤ) (s : Settings)
    → length (put_setting settings i s) ≡ length settings
length-put_setting settings (pos i) s = length-set settings i s
length-put_setting settings (negsuc i) s = refl

pub init_once-Sized : (cap : Capturer) → Sized cap → Sized (init_once cap)
unfolding init_once
init_once-Sized cap h = elim (Bool-cases cap.initialized) [
  | inl e ↦ rw e h
  | inr e ↦ rw e (length-map cap.settings (λ s. fresh_settings) ∙ h)
]
