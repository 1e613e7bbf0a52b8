-- ===== src/Tests/ButtonEvents.antt =====
-- The theorem on the buttons, applied to the middle button held for three rounds.
use native.Mathlib.Omega.{arith}
use locket_api.Prelude.{ℕ, ◌-◌, ◌≡◌, Bool, true, false, [], ◌∷◌, leb}
use locket_api.ButtonEvents.{short_press, long_press}
use locket_api.ButtonEvents.Presses.{with_flags, press_and_hold, ever_late, press_and_hold-presses}

abbrev late_ms : ℕ → ℕ → Bool
late_ms now timer = leb 999 (now - timer)

press_and_hold-presses_example :
    press_and_hold late_ms 1 100
      (500 ∷ 1099 ∷ 2500 ∷ [])
      (record (with_flags late_ms (true ∷ true ∷ false ∷ []) 3 4 false) { is_combo = true })
    ≡ short_press 1 ∷ long_press 1 ∷ []
unfolding ever_late
press_and_hold-presses_example =
    press_and_hold-presses late_ms 1 100 3 4 (500 ∷ 1099 ∷ 2500 ∷ []) true false true true false
      (omega arith)
