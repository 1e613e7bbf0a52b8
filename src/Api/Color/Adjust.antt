-- ===== src/Api/Color/Adjust.antt =====
-- What fading does: `Adjust` and `DelayToNextAdjustment` of api/color.h.
use native.Mathlib.Omega.{arith}
use native.Mathlib.Nat.{div-add-mod}
use locket_api.Prelude.{ℕ, zero, suc, ◌+◌, ◌-◌, ◌/◌, ◌^◌, ◌≤◌, ◌<◌, ◌≡◌, ◌↔◌, true}
use locket_api.Api.Color.{
  Color, rgb, adjust_component, adjust_component_by, component_delay_to_next_adjustment, adjust,
  same_color, adjust_by, delay_to_next_adjustment,
}

-- Every component is a `uint8_t`.
pub record IsColor (c : Color) : Type 0 where
  pub r_byte : c.r < 256
  pub g_byte : c.g < 256
  pub b_byte : c.b < 256

-- The distance of two components.
abbrev pub gap : ℕ → ℕ → ℕ
gap a b = (a - b) + (b - a)

pub gap-adjust_component :
    (a t : ℕ) → a < 256 → t < 256 → gap (adjust_component a t) t ≡ gap a t - 1
unfolding adjust_component
gap-adjust_component a t h k = ground arith

pub adjust_component-lt : (a t : ℕ) → a < 256 → t < 256 → adjust_component a t < 256
unfolding adjust_component
adjust_component-lt a t h k = ground arith

closer : (a t n : ℕ) → a < 256 → t < 256 → gap a t ≤ suc n → gap (adjust_component a t) t ≤ n
closer a t n h k g = omega (arith, gap-adjust_component a t h k)

pub same_color_iff : (c d : Color) → (same_color c d ≡ true) ↔ (c ≡ d)
unfolding same_color
same_color_iff c d = ground arith

-- Every component is at most `n` away.
pub record Near (n : ℕ) (c t : Color) : Type 0 where
  pub r_near : gap c.r t.r ≤ n
  pub g_near : gap c.g t.g ≤ n
  pub b_near : gap c.b t.b ≤ n

pub adjust-Near :
    (n : ℕ) (c t : Color) → IsColor c → IsColor t → Near (suc n) c t → Near n (adjust c t) t
unfolding adjust
adjust-Near n c t h k g = record {
  r_near = closer c.r t.r n h.r_byte k.r_byte g.r_near;
  g_near = closer c.g t.g n h.g_byte k.g_byte g.g_near;
  b_near = closer c.b t.b n h.b_byte k.b_byte g.b_near;
}

-- Repeated fading towards one colour.
pub fade : ℕ → Color → Color → Color
fade zero c target = c
fade (suc n) c target = fade n (adjust c target) target

pub adjust-IsColor : (c t : Color) → IsColor c → IsColor t → IsColor (adjust c t)
unfolding adjust
adjust-IsColor c t h k =
    omega
      (arith, adjust_component-lt c.r t.r, adjust_component-lt c.g t.g, adjust_component-lt c.b t.b)

close : (a b : ℕ) → gap a b ≤ 0 → a ≡ b
close a b h = omega arith

pub Near-zero : (c t : Color) → Near zero c t → c ≡ t
Near-zero c t g =
    λ i. rgb (close c.r t.r g.r_near i) (close c.g t.g g.g_near i) (close c.b t.b g.b_near i)

-- Fading `n` times reaches every colour whose components are at most `n` away.
pub fade_reaches :
    (n : ℕ) (c t : Color)
    → IsColor c
    → IsColor t
    → gap c.r t.r ≤ n
    → gap c.g t.g ≤ n
    → gap c.b t.b ≤ n
    → fade n c t ≡ t
unfolding fade adjust
fade_reaches zero c t h k r g b =
    λ i. rgb (close c.r t.r r i) (close c.g t.g g i) (close c.b t.b b i)
fade_reaches (suc n) c t h k r g b =
    fade_reaches n (adjust c t) t (adjust-IsColor c t h k) k (closer c.r t.r n h.r_byte k.r_byte r)
      (closer c.g t.g n h.g_byte k.g_byte g) (closer c.b t.b n h.b_byte k.b_byte b)

-- The result of `AdjustBy` is a colour again, whatever the step.
pub adjust_by-IsColor :
    (c t : Color) (step : ℕ) → IsColor c → IsColor t → IsColor (adjust_by c t step)
unfolding adjust_by adjust_component_by
adjust_by-IsColor c t step h k = ground arith

-- The quotient leaves room for the 1 that is added.
quotient_small : (a s : ℕ) → s < 2 ^ 32 → s / (a + 4) < 2 ^ 30
quotient_small a s h = grind (arith, div-add-mod)

component_delay-eq-zero :
    (a t s : ℕ) → s < 2 ^ 32 → (component_delay_to_next_adjustment a t s ≡ 0) ↔ (a ≡ t)
unfolding component_delay_to_next_adjustment
component_delay-eq-zero a t s h = ground (arith, quotient_small a s)

-- There is a delay to wait for exactly when the colours differ.
pub delay_to_next_adjustment-eq-zero :
    (c t : Color) (smooth_value : ℕ)
    → smooth_value < 2 ^ 32
    → (delay_to_next_adjustment c t smooth_value ≡ 0) ↔ (c ≡ t)
unfolding delay_to_next_adjustment
delay_to_next_adjustment-eq-zero c t s h = ground (
  arith,
  component_delay-eq-zero c.r t.r s h,
  component_delay-eq-zero c.g t.g s h,
  component_delay-eq-zero c.b t.b s h,
)
