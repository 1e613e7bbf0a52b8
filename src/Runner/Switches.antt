-- ===== src/Runner/Switches.antt =====
-- The bounds of `ReadDipSwitch` of embedded/behavior_runner.h.
use native.Mathlib.Omega.{arith}
use locket_api.Prelude.{ℕ, suc, ◌+◌, ◌*◌, ◌^◌, ◌≡◌, ◌<◌, ◌≤◌, refl, Bool}
use locket_api.Runner.{dip_bits, read_dip_switch}

dip_bits_none : (i : ℕ) (pins : ℕ → Bool) → dip_bits 0 i pins ≡ 0
unfolding dip_bits
dip_bits_none i pins = refl

dip_bits_step :
    (left i : ℕ) (pins : ℕ → Bool) → dip_bits (suc left) i pins ≤ 1 + 2 * dip_bits left (suc i) pins
unfolding dip_bits
dip_bits_step left i pins = ground arith

pub read_dip_switch_bounded : (pins : ℕ → Bool) → read_dip_switch pins < 2 ^ 8
unfolding read_dip_switch
read_dip_switch_bounded pins =
    let last : dip_bits 0 8 pins ≡ 0 = dip_bits_none 8 pins in
    omega (
      arith,
      last,
      dip_bits_step 7 0 pins,
      dip_bits_step 6 1 pins,
      dip_bits_step 5 2 pins,
      dip_bits_step 4 3 pins,
      dip_bits_step 3 4 pins,
      dip_bits_step 2 5 pins,
      dip_bits_step 1 6 pins,
      dip_bits_step 0 7 pins,
    )
