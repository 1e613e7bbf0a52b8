-- ===== src/MariyEl/Show.antt =====
-- What the health machine asks of the player's device: the methods "for logic" of `RadBehavior` in
-- projects/Mariy_El_sm/player_device.cpp, each as the commands that it adds, the newest first.
-- The two LED sequences are global arrays; their colours are set before every start.
use locket_api.Prelude.{ℕ, List, [], ◌∷◌}
use locket_api.Api.Color.{Color}
use locket_api.Api.Sequences.{
  LedRgbChunk, VibroChunk, led, led_setup, vibro, setup, wait, goto, end, brr_brr, brr_brr_brr,
  short_beep, vibro_volume, vibro_repeat_period,
}
use locket_api.Api.Device.{
  Command, led_stop, led_start, vibro_start, beeper_start, set_beacon, clear_beacon, write_pill,
}

abbrev pub path_id : ℕ
path_id = 1

abbrev pub monster_id : ℕ
monster_id = 2

abbrev pub rad_id : ℕ
rad_id = 3

abbrev pub used_pill_id : ℕ
used_pill_id = 10

abbrev pub rad_sequence : Color → List LedRgbChunk
rad_sequence color = led_setup color ∷ led wait 100 ∷ led goto 0 ∷ []

abbrev pub rad_flash_sequence : Color → Color → List LedRgbChunk
rad_flash_sequence color_new color_old =
    led_setup color_new ∷ led wait 500 ∷ led_setup color_old ∷ led wait 100 ∷ led goto 2 ∷ []

abbrev pub long_brr : List VibroChunk
long_brr =
    vibro setup vibro_volume
    ∷ vibro wait 3000
    ∷ vibro setup 0
    ∷ vibro wait vibro_repeat_period
    ∷ vibro end 0
    ∷ []

abbrev pub long_brr_for_god : List VibroChunk
long_brr_for_god =
    vibro setup vibro_volume
    ∷ vibro wait 1000
    ∷ vibro setup 0
    ∷ vibro wait vibro_repeat_period
    ∷ vibro end 0
    ∷ []

abbrev pub start_transmit_for_path : List Command → List Command
start_transmit_for_path out = set_beacon path_id ∷ out

abbrev pub stop_transmit_for_path : List Command → List Command
stop_transmit_for_path out = clear_beacon ∷ out

abbrev pub set_color : Color → List Command → List Command
set_color color out = led_start (rad_sequence color) ∷ led_stop ∷ out

abbrev pub monster_vibro : List Command → List Command
monster_vibro out = vibro_start brr_brr_brr ∷ out

-- `pill_manager` is set when the event that leads here is sent (`on_pill_connected`).
abbrev pub make_pill_used : List Command → List Command
make_pill_used out = write_pill used_pill_id ∷ out

abbrev pub radiation_vibro : List Command → List Command
radiation_vibro out = beeper_start short_beep ∷ vibro_start brr_brr ∷ out

abbrev pub flash : Color → Color → List Command → List Command
flash color_new color_old out = led_start (rad_flash_sequence color_new color_old) ∷ led_stop ∷ out

abbrev pub death_vibro : List Command → List Command
death_vibro out = vibro_start long_brr ∷ out

abbrev pub god_vibro : List Command → List Command
god_vibro out = vibro_start long_brr_for_god ∷ out
