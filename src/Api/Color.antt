-- ===== src/Api/Color.antt =====
-- RGB colours: api/color.h. A component is a `uint8_t`, kept below 256.
pub mod Adjust
use locket_api.Prelude.{ℕ, ◌+◌, ◌-◌, ◌/◌, ◌%◌, ◌^◌, Bool, ◌&&◌, ltb, leb, ◌==◌, if◌then◌else◌}
use Prim.Native.Nat.{max}

pub record Color : Type 0 where
  pub r : ℕ
  pub g : ℕ
  pub b : ℕ

abbrev pub rgb : ℕ → ℕ → ℕ → Color
rgb r g b = record { r = r; g = g; b = b }

pub same_color : Color → Color → Bool
same_color c d = c.r == d.r && (c.g == d.g && c.b == d.b)

-- The second test reads the component that the first may have moved.
pub adjust_component : ℕ → ℕ → ℕ
adjust_component component adjust_towards =
    let up = if ltb component adjust_towards then (component + 1) % 256 else component in
    if ltb adjust_towards up then up - 1 else up

-- `255 - step` is a `uint32_t`, and the sum is stored in a `uint8_t`.
pub adjust_component_by : ℕ → ℕ → ℕ → ℕ
adjust_component_by component adjust_towards step =
    let threshold = (255 + 2 ^ 32 - step) % 2 ^ 32 in
    if ltb component adjust_towards
    then (if leb component threshold then (component + step) % 256 else 255)
    else if ltb adjust_towards component
    then (if leb step component then component - step else 0)
    else component

pub component_delay_to_next_adjustment : ℕ → ℕ → ℕ → ℕ
component_delay_to_next_adjustment component adjust_toward smooth_value =
    if component == adjust_toward then 0 else (smooth_value / (component + 4) + 1) % 2 ^ 32

pub adjust : Color → Color → Color
adjust c color =
    rgb (adjust_component c.r color.r) (adjust_component c.g color.g) (adjust_component c.b color.b)

pub adjust_by : Color → Color → ℕ → Color
adjust_by c color step =
    rgb (adjust_component_by c.r color.r step) (adjust_component_by c.g color.g step)
      (adjust_component_by c.b color.b step)

pub delay_to_next_adjustment : Color → Color → ℕ → ℕ
delay_to_next_adjustment c another smooth_value =
    max (component_delay_to_next_adjustment c.r another.r smooth_value) (
      max (component_delay_to_next_adjustment c.g another.g smooth_value)
        (component_delay_to_next_adjustment c.b another.b smooth_value))

abbrev pub black : Color
black = rgb 0 0 0

abbrev pub red : Color
red = rgb 255 0 0

abbrev pub light_red : Color
light_red = rgb 127 0 0

abbrev pub green : Color
green = rgb 0 255 0

abbrev pub light_green : Color
light_green = rgb 0 127 0

abbrev pub extra_light_green : Color
extra_light_green = rgb 0 1 0

abbrev pub blue : Color
blue = rgb 0 0 255

abbrev pub light_blue : Color
light_blue = rgb 0 0 255

abbrev pub white : Color
white = rgb 255 255 255
