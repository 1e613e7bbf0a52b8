-- ===== src/Sequencer/Led.antt =====
-- The LED's player: `LedRGBParent_t` of embedded/kl_lib/led.h over the player of
-- embedded/kl_lib/ChunkTypes.h. Its `ISetup` fades in steps, each at a run of the timer handler.
pub mod Fading
use locket_api.Prelude.{
  ℕ, zero, suc, Bool, true, false, ◌&&◌, Option, none, some, List, [], ◌∷◌, ◌++◌, get_elem?, ◌==◌,
  if◌then◌else◌, ◌>>=◌,
}
use locket_api.Api.Color.{Color, black, same_color, adjust, delay_to_next_adjustment}
use locket_api.Api.Sequences.{ChunkType, LedRgbChunk}
use locket_api.Sequencer.{Chunks, Effect, reset_timer}
use locket_api.Sequencer.Firmware.{
  BaseSequencer, Round, proceeds, breaks, strays, switch, stop, is_idle,
}

-- The player, and `ICurrColor`.
pub record Led : Type 0 where
  pub seq : BaseSequencer
  pub curr_color : Color

-- What the LED does: show a colour, or what the player does.
pub data LedEffect : Type 0 where
  set_color : Color → LedEffect
  setup_delay : ℕ → LedEffect
  player : Effect LedRgbChunk → LedEffect

pub data LedRound : Type 0 where
  led_proceeds : List LedEffect → Led → LedRound
  led_breaks : List LedEffect → Led → LedRound
  led_strays : LedRound

abbrev pub players : List (Effect LedRgbChunk) → List LedEffect
players [] = []
players (e ∷ es) = player e ∷ players es

-- The arrays of chunks by their addresses, read by their types and values.
abbrev pub led_chunks : (ℕ → List LedRgbChunk) → Chunks LedRgbChunk
led_chunks flash = record {
  type_of = λ chunk. chunk.type;
  value_of = λ chunk. chunk.value;
  flash = flash;
}

abbrev pub next_chunk : ℕ → Led → Led
next_chunk i led = record led { seq = record led.seq { ip_current_chunk = some (suc i) } }

abbrev pub with_color : Color → Led → Led
with_color color led = record led { curr_color = color }

-- The `ISetup` of the LED at the chunk with the index `i`.
unfoldable pub i_setup : ℕ → LedRgbChunk → Led → LedRound
i_setup i chunk led =
    if same_color led.curr_color chunk.color
    then led_proceeds [] (next_chunk i led)
    else if chunk.value == 0
    then led_proceeds (set_color chunk.color ∷ []) (next_chunk i (with_color chunk.color led))
    else (let color = adjust led.curr_color chunk.color in
        if same_color color chunk.color
        then led_proceeds (set_color color ∷ []) (next_chunk i (with_color color led))
        else led_breaks
            (set_color color
              ∷ setup_delay (delay_to_next_adjustment color chunk.color chunk.value)
              ∷ [])
            (with_color color led))

-- A round of the player, for the LED.
unfoldable pub of_round : Led → Round LedRgbChunk → LedRound
of_round led (proceeds out seq) = led_proceeds (players out) (record led { seq = seq })
of_round led (breaks out seq) = led_breaks (players out) (record led { seq = seq })
of_round led strays = led_strays

-- The colour black, shown and kept.
unfoldable pub i_switch_off : Led → List LedEffect × Led
i_switch_off led = (set_color black ∷ [], with_color black led)

unfoldable pub is_off : Led → Bool
unfolding is_idle
is_off led = same_color led.curr_color black && is_idle led.seq

module _ (flash : ℕ → List LedRgbChunk) where
  unfoldable pub led_switch : ℕ → LedRgbChunk → Led → LedRound
  unfolding i_setup of_round
  led_switch i chunk led = elim chunk.type [
    | ChunkType.setup ↦ i_setup i chunk led
    | _ ↦ of_round led (switch (led_chunks flash) i chunk led.seq)
  ]

  unfoldable pub led_round : Led → LedRound
  unfolding led_switch
  led_round led = elim led.seq.ip_start_chunk [
    | none ↦ led_strays
    | some sequence ↦ elim led.seq.ip_current_chunk [
      | none ↦ led_strays
      | some i ↦ elim (get_elem? (flash sequence) i) [
        | none ↦ led_strays
        | some chunk ↦ led_switch i chunk led
      ]
    ]
  ]

  -- The handler's loop. `none` is a read outside the array, or no return in that many rounds.
  unfoldable pub led_loop : ℕ → Led → Option (List LedEffect × Led)
  unfolding led_round
  led_loop zero led = none
  led_loop (suc rounds) led = elim (led_round led) [
    | led_proceeds out led' ↦ do r ← led_loop rounds led'; some (out ++ r.0, r.1)
    | led_breaks out led' ↦ some (out, led')
    | led_strays ↦ none
  ]

  unfoldable pub led_irq_handler : ℕ → Bool → Led → Option (List LedEffect × Led)
  unfolding led_loop
  led_irq_handler rounds armed led = do
    r ← led_loop rounds led
    some ((if armed then player reset_timer ∷ [] else []) ++ r.0, r.1)

  -- `Stop`, with the `ISwitchOff` of the LED.
  unfoldable pub led_stop : Bool → Led → List LedEffect × Led
  unfolding i_switch_off
  led_stop armed led = elim led.seq.ip_start_chunk [
    | none ↦ i_switch_off led
    | some sequence ↦ (
      (if armed then player reset_timer ∷ [] else []) ++ (i_switch_off led).0,
      (i_switch_off (record led {
        seq = record led.seq { ip_start_chunk = none; ip_current_chunk = none };
      })).1,
    )
  ]
