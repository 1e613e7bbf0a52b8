-- ===== src/Sequencer/Led/Fading.antt =====
-- How the LED fades: the runs of its timer handler at a chunk with a smoothing value.
use locket_api.Prelude.{
  ℕ, zero, suc, ◌^◌, ◌≡◌, ◌≢◌, ◌≤◌, ◌<◌, refl, sym, ◌∙◌, true, false, inl, inr, Bool-cases, Option,
  some, List, [], ◌∷◌, get_elem?, ◌==◌, ◌>>=◌, arith,
}
use locket_api.Api.Color.{Color, same_color, adjust, delay_to_next_adjustment}
use locket_api.Api.Color.Adjust.{
  IsColor, Near, adjust-Near, adjust-IsColor, same_color_iff, Near-zero,
  delay_to_next_adjustment-eq-zero,
}
use locket_api.Api.Sequences.{ChunkType, LedRgbChunk}
use locket_api.Sequencer.Firmware.{BaseSequencer}
use locket_api.Sequencer.Led.{
  Led, LedEffect, set_color, setup_delay, led_proceeds, led_breaks, i_setup, led_loop, led_round,
  led_switch,
}

-- A run of the handler that shows a colour and waits.
pub Waits : List LedEffect → Type 0
Waits (set_color c ∷ setup_delay ms ∷ []) = ms ≢ 0
Waits _ = ⊥

pub AllWait : List (List LedEffect) → Type 0
AllWait [] = Unit
AllWait (out ∷ outs) = Waits out × AllWait outs

-- The player at the `i`-th chunk of a sequence, with a colour.
abbrev pub standing : BaseSequencer → ℕ → ℕ → Color → Led
standing q sequence i color = record {
  seq = record q { ip_start_chunk = some sequence; ip_current_chunk = some i };
  curr_color = color;
}

abbrev pub setup_chunk : ℕ → Color → LedRgbChunk
setup_chunk value color = record { type = ChunkType.setup; value = value; color = color }

module _ (flash : ℕ → List LedRgbChunk) (rounds : ℕ) where
  -- The handler's runs, one at the end of each delay, from `led` on.
  pub runs : ℕ → Led → Option (List (List LedEffect) × Led)
  runs zero led = some ([], led)
  runs (suc n) led = do
    r ← led_loop flash (suc rounds) led
    rest ← runs n r.1
    some (r.0 ∷ rest.0, rest.1)

  module _ (q : BaseSequencer) (sequence i smooth : ℕ) (target : Color)
      (there : get_elem? (flash sequence) i ≡ some (setup_chunk smooth target))
      (smooths : smooth ≢ 0) where
    at_setup :
        (color : Color)
        → led_round flash (standing q sequence i color)
          ≡ i_setup i (setup_chunk smooth target) (standing q sequence i color)
    unfolding led_round led_switch
    at_setup color = rw (there, led_round) refl

    -- What `ISetup` does on the way, and at the last step.
    not_yet :
        (color : Color)
        → same_color color target ≡ false
        → same_color (adjust color target) target ≡ false
        → i_setup i (setup_chunk smooth target) (standing q sequence i color)
          ≡ led_breaks
              (set_color (adjust color target)
                ∷ setup_delay (delay_to_next_adjustment (adjust color target) target smooth)
                ∷ [])
              (standing q sequence i (adjust color target))
    unfolding i_setup
    not_yet color e f = let s : (smooth == 0) ≡ false = ground (arith, smooths) in rw (e, s, f) refl

    completed :
        (color : Color)
        → same_color color target ≡ false
        → same_color (adjust color target) target ≡ true
        → i_setup i (setup_chunk smooth target) (standing q sequence i color)
          ≡ led_proceeds
              (set_color (adjust color target) ∷ [])
              (standing q sequence (suc i) (adjust color target))
    unfolding i_setup
    completed color e f =
        let s : (smooth == 0) ≡ false = ground (arith, smooths) in rw (e, s, f) refl

    breaking :
        (color : Color)
        → same_color color target ≡ false
        → same_color (adjust color target) target ≡ false
        → led_loop flash (suc rounds) (standing q sequence i color)
          ≡ some (
            set_color (adjust color target)
                ∷ setup_delay (delay_to_next_adjustment (adjust color target) target smooth)
                ∷ [],
            standing q sequence i (adjust color target),
          )
    unfolding led_loop
    breaking color e f = rw (at_setup color ∙ not_yet color e f, led_loop) refl

    passing :
        (color : Color)
        → same_color color target ≡ false
        → same_color (adjust color target) target ≡ true
        → led_loop flash (suc rounds) (standing q sequence i color) ≡ (do
          r ← led_loop flash rounds (standing q sequence (suc i) (adjust color target))
          some (set_color (adjust color target) ∷ r.0, r.1))
    unfolding led_loop
    passing color e f = rw (at_setup color ∙ completed color e f, led_loop) refl

    -- From a colour on, `waits` runs of the handler each show a colour and wait for some time; the
    -- next shows the target and goes on at the next chunk.
    pub record Fades (n : ℕ) (color : Color) : Type 0 where
      pub waits : ℕ
      pub few : waits ≤ n
      pub outs : List (List LedEffect)
      pub last : Color
      pub reached :
          runs waits (standing q sequence i color) ≡ some (outs, standing q sequence i last)
      pub each : AllWait outs
      pub passes : led_loop flash (suc rounds) (standing q sequence i last) ≡ (do
        r ← led_loop flash rounds (standing q sequence (suc i) target)
        some (set_color target ∷ r.0, r.1))

    differ : (color : Color) → same_color color target ≡ false → color ≢ target
    differ color f e = ground (arith, (same_color_iff color target).1 e)

    at_last :
        (n : ℕ) (color : Color)
        → same_color color target ≡ false
        → same_color (adjust color target) target ≡ true
        → Fades n color
    unfolding runs AllWait Waits
    at_last n color e f =
        let there' = (same_color_iff (adjust color target) target).0 f in
        record {
          waits = 0;
          few = omega arith;
          outs = [];
          last = color;
          reached = refl;
          each = tt;
          passes = rw (sym there') (passing color e f);
        }

    one_more :
        (n : ℕ) (color : Color)
        → same_color color target ≡ false
        → same_color (adjust color target) target ≡ false
        → smooth < 2 ^ 32
        → Fades n (adjust color target)
        → Fades (suc n) color
    unfolding runs AllWait Waits
    one_more n color e f s later = record {
      waits = suc later.waits;
      few = omega (arith, later.few);
      outs =
          (set_color (adjust color target)
            ∷ setup_delay (delay_to_next_adjustment (adjust color target) target smooth)
            ∷ [])
          ∷ later.outs;
      last = later.last;
      reached = rw (breaking color e f) (rw later.reached refl);
      each = (
        (λ z.
            differ _ f
              ((delay_to_next_adjustment-eq-zero (adjust color target) target smooth s).0 z)),
        later.each,
      );
      passes = later.passes;
    }

    on_the_way :
        (n : ℕ) (color : Color)
        → IsColor color
        → IsColor target
        → smooth < 2 ^ 32
        → same_color color target ≡ false
        → Near (suc n) color target
        → Fades n color
    on_the_way zero color c t s e near =
        elim (Bool-cases (same_color (adjust color target) target)) [
          | inl f ↦ at_last zero color e f
          | inr f ↦
              absurd (differ _ f (Near-zero _ target (adjust-Near zero color target c t near)))
        ]
    on_the_way (suc n) color c t s e near =
        elim (Bool-cases (same_color (adjust color target) target)) [
          | inl f ↦ at_last (suc n) color e f
          | inr f ↦ one_more n color e f s (
              on_the_way n (adjust color target) (adjust-IsColor color target c t) t s f
                (adjust-Near (suc n) color target c t near))
        ]

    -- At a chunk with a 32-bit smoothing value other than 0, the LED with another colour than the
    -- chunk's runs its handler at most 254 times in which it shows a colour and waits for some time,
    -- and in the next run shows the chunk's colour and goes on at the next chunk.
    pub fades :
        (color : Color)
        → IsColor color
        → IsColor target
        → smooth < 2 ^ 32
        → color ≢ target
        → Fades 254 color
    fades color c t s d =
        on_the_way 254 color c t s (ground (arith, d, same_color_iff color target)) (record {
          r_near = omega (arith, c.r_byte, t.r_byte);
          g_near = omega (arith, c.g_byte, t.g_byte);
          b_near = omega (arith, c.b_byte, t.b_byte);
        })
