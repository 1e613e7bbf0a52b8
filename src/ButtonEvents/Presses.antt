-- ===== src/ButtonEvents/Presses.antt =====
-- A button that is pressed alone: `ProcessButtons` of embedded/kl_lib/buttons.cpp.
use native.Mathlib.Omega.{arith}
use locket_api.Prelude.{
  ℕ, zero, suc, ◌≡◌, ◌<◌, refl, Bool, true, false, ◌||◌, inl, inr, Bool-cases, List, [], ◌∷◌, ◌++◌,
  if◌then◌else◌,
}
use locket_api.ButtonEvents.{
  PinSnsState, pss_lo, pss_hi, pss_rising, BtnEvt, short_press, long_press, Buttons,
  process_buttons, buttons_from, on_press, on_release, on_hold, on_long_press, on_long_combo,
  down_from, any_held, another,
}

-- The states of the pins where one button has a state and the others are up.
abbrev pub alone : ℕ → PinSnsState → List PinSnsState
alone zero state = state ∷ pss_lo ∷ pss_lo ∷ []
alone (suc zero) state = pss_lo ∷ state ∷ pss_lo ∷ []
alone (suc (suc i)) state = pss_lo ∷ pss_lo ∷ state ∷ []

module _ {Time : Type 0} (late : Time → Time → Bool) where
  -- The button is held in rounds at these times.
  pub holding : ℕ → List Time → Buttons Time → List BtnEvt
  holding i [] b = []
  holding i (t ∷ ts) b =
      let r = process_buttons late t (alone i pss_hi) b in r.0 ++ holding i ts r.1

  unfoldable pub ever_late : List Time → Time → Bool
  ever_late [] start = false
  ever_late (t ∷ ts) start = late t start || ever_late ts start

  abbrev pub with_flags : List Bool → Time → Time → Bool → Buttons Time
  with_flags flags start combo l = record {
    is_long_press = flags;
    long_press_timer = start;
    is_combo = false;
    long_combo_timer = combo;
    is_long_combo = l;
  }

  -- The flags where that of a button is `v` and those of the others are `y` and `z`.
  abbrev pub flags : ℕ → Bool → Bool → Bool → List Bool
  flags zero v y z = v ∷ y ∷ z ∷ []
  flags (suc zero) v y z = y ∷ v ∷ z ∷ []
  flags (suc (suc i)) v y z = y ∷ z ∷ v ∷ []

  hold :
      (i : ℕ) (t start c : Time) (l v y z : Bool)
      → i < 3
      → process_buttons late t (alone i pss_hi) (with_flags (flags i v y z) start c l) ≡ (
          if v
          then ([], with_flags (flags i v y z) start c l)
          else if late t start
          then (long_press i ∷ [], with_flags (flags i true y z) start c l)
          else ([], with_flags (flags i v y z) start c l))
  unfolding process_buttons buttons_from on_press on_release on_hold on_long_press on_long_combo
      down_from any_held another
  hold zero t start c l v y z h = ground arith
  hold (suc zero) t start c l v y z h = ground arith
  hold (suc (suc zero)) t start c l v y z h = ground arith
  hold (suc (suc (suc i))) t start c l v y z h = absurd (omega arith)

  press :
      (i : ℕ) (t start c : Time) (combo l v y z : Bool)
      → i < 3
      → process_buttons late t
          (alone i pss_rising)
          (record (with_flags (flags i v y z) start c l) { is_combo = combo })
        ≡ (short_press i ∷ [], with_flags (flags i false y z) t c l)
  unfolding process_buttons buttons_from on_press on_release on_hold on_long_press on_long_combo
      down_from any_held another
  press zero t start c combo l v y z h = ground arith
  press (suc zero) t start c combo l v y z h = ground arith
  press (suc (suc zero)) t start c combo l v y z h = ground arith
  press (suc (suc (suc i))) t start c combo l v y z h = absurd (omega arith)

  once_long :
      (i : ℕ) (ts : List Time) (start c : Time) (l y z : Bool)
      → i < 3
      → holding i ts (with_flags (flags i true y z) start c l) ≡ []
  unfolding holding
  once_long i [] start c l y z h = refl
  once_long i (t ∷ ts) start c l y z h =
      rw (hold i t start c l true y z h) (once_long i ts start c l y z h)

  not_yet_long :
      (i : ℕ) (ts : List Time) (start c : Time) (l y z : Bool)
      → i < 3
      → holding i ts (with_flags (flags i false y z) start c l)
        ≡ (if ever_late ts start then long_press i ∷ [] else [])
  unfolding holding ever_late
  not_yet_long i [] start c l y z h = refl
  not_yet_long i (t ∷ ts) start c l y z h = elim (Bool-cases (late t start)) [
    | inl e ↦ rw (hold i t start c l false y z h) (rw e (rw (once_long i ts start c l y z h) refl))
    | inr e ↦ rw (hold i t start c l false y z h) (rw e (not_yet_long i ts start c l y z h))
  ]

  -- What the rounds give in which a button is pressed and then held, the others being up.
  pub press_and_hold : ℕ → Time → List Time → Buttons Time → List BtnEvt
  press_and_hold i t ts b =
      let r = process_buttons late t (alone i pss_rising) b in r.0 ++ holding i ts r.1

  -- One of the three buttons, pressed and held while the others are up, gives one short press, and
  -- one long press, in the rounds after it, if any of these is late enough after the press, whatever
  -- was pressed before.
  pub press_and_hold-presses :
      (i : ℕ) (t start c : Time) (ts : List Time) (combo l v y z : Bool)
      → i < 3
      → press_and_hold i t ts (record (with_flags (flags i v y z) start c l) { is_combo = combo })
        ≡ short_press i ∷ (if ever_late ts t then long_press i ∷ [] else [])
  unfolding press_and_hold
  press_and_hold-presses i t start c ts combo l v y z h =
      rw (press i t start c combo l v y z h) (rw (not_yet_long i ts t c l y z h) refl)
