-- ===== src/Tests/Led.antt =====
-- The theorem on the LED, applied to a sequence that fades from black to red.
use native.Mathlib.Omega.{arith}
use locket_api.Prelude.{ℕ, refl, none, List, [], ◌∷◌, ap}
use locket_api.Api.Color.{black, red}
use locket_api.Api.Sequences.{LedRgbChunk, led, end}
use locket_api.Sequencer.{minus_one}
use locket_api.Sequencer.Firmware.{BaseSequencer}
use locket_api.Sequencer.Led.Fading.{setup_chunk, Fades, fades}

abbrev fading : ℕ → List LedRgbChunk
fading address = setup_chunk 500 red ∷ led end 0 ∷ []

abbrev idle_player : BaseSequencer
idle_player = record {
  ip_start_chunk = none;
  ip_current_chunk = none;
  repeat_counter = minus_one;
  i_evt_msg = 0;
}

fades_example :
    Fades fading 5 idle_player 7 0 500 red refl (λ e. absurd (omega (arith, e))) 254 black
fades_example =
    fades fading 5 idle_player 7 0 500 red refl (λ e. absurd (omega (arith, e))) black
      (record { r_byte = omega arith; g_byte = omega arith; b_byte = omega arith })
      (record { r_byte = omega arith; g_byte = omega arith; b_byte = omega arith }) (omega arith)
      (λ e. absurd (ground (arith, ap (λ c. c.r) e)))
