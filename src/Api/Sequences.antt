-- ===== src/Api/Sequences.antt =====
-- Sequences of commands for the LED, the vibration motor and the beeper: api/sequences.h.
-- The five names of the union member are one field, `value`.
use locket_api.Prelude.{ℕ, List, [], ◌∷◌}
use locket_api.Api.Color.{Color, black, red, green, blue}

pub data ChunkType : Type 0 where
  setup wait goto end repeat : ChunkType

pub record LedRgbChunk : Type 0 where
  pub type : ChunkType
  pub value : ℕ
  pub color : Color

pub record BeepChunk : Type 0 where
  pub type : ChunkType
  pub value : ℕ
  pub freq_hz : ℕ

pub record VibroChunk : Type 0 where
  pub type : ChunkType
  pub value : ℕ

-- A chunk as an initialiser list writes it, the members that it leaves out set to their defaults.
abbrev pub led : ChunkType → ℕ → LedRgbChunk
led type value = record { type = type; value = value; color = black }

abbrev pub led_setup : Color → LedRgbChunk
led_setup color = record { type = setup; value = 0; color = color }

abbrev pub beep : ChunkType → ℕ → ℕ → BeepChunk
beep type value freq_hz = record { type = type; value = value; freq_hz = freq_hz }

abbrev pub vibro : ChunkType → ℕ → VibroChunk
vibro type value = record { type = type; value = value }

abbrev pub start_sequence : List LedRgbChunk
start_sequence =
    led_setup red
    ∷ led wait 207
    ∷ led_setup green
    ∷ led wait 207
    ∷ led_setup blue
    ∷ led wait 207
    ∷ led_setup black
    ∷ led end 0
    ∷ []

abbrev pub failure_sequence : List LedRgbChunk
failure_sequence =
    led_setup red
    ∷ led wait 99
    ∷ led_setup black
    ∷ led wait 99
    ∷ led_setup red
    ∷ led wait 99
    ∷ led_setup black
    ∷ led wait 99
    ∷ led_setup red
    ∷ led wait 99
    ∷ led_setup black
    ∷ led end 0
    ∷ []

abbrev pub short_beep : List BeepChunk
short_beep = beep setup 1 1975 ∷ beep wait 54 0 ∷ beep setup 0 0 ∷ beep end 0 0 ∷ []

abbrev pub vibro_volume : ℕ
vibro_volume = 100

abbrev pub vibro_short_delay_ms : ℕ
vibro_short_delay_ms = 99

abbrev pub vibro_repeat_period : ℕ
vibro_repeat_period = 1008

abbrev pub brr : List VibroChunk
brr =
    vibro setup vibro_volume
    ∷ vibro wait vibro_short_delay_ms
    ∷ vibro setup 0
    ∷ vibro wait vibro_repeat_period
    ∷ vibro end 0
    ∷ []

abbrev pub brr_brr : List VibroChunk
brr_brr =
    vibro setup vibro_volume
    ∷ vibro wait vibro_short_delay_ms
    ∷ vibro setup 0
    ∷ vibro wait 99
    ∷ vibro setup vibro_volume
    ∷ vibro wait vibro_short_delay_ms
    ∷ vibro setup 0
    ∷ vibro wait vibro_repeat_period
    ∷ vibro end 0
    ∷ []

abbrev pub brr_brr_brr : List VibroChunk
brr_brr_brr =
    vibro setup vibro_volume
    ∷ vibro wait vibro_short_delay_ms
    ∷ vibro setup 0
    ∷ vibro wait 99
    ∷ vibro setup vibro_volume
    ∷ vibro wait vibro_short_delay_ms
    ∷ vibro setup 0
    ∷ vibro wait 99
    ∷ vibro setup vibro_volume
    ∷ vibro wait vibro_short_delay_ms
    ∷ vibro setup 0
    ∷ vibro wait vibro_repeat_period
    ∷ vibro end 0
    ∷ []
