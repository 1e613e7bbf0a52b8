-- ===== src/Games/Winds.antt =====
-- The locket of the spring winds: `WindsBehavior` of
-- projects/springwind_behavior/springwind_behavior.h and springwind_behavior.cpp. The commands come
-- newest first; `none` is a division by zero. What `OnUartCommand` answers is text only.
pub mod Timer
pub mod Running
use locket_api.Prelude.{
  ℕ, ◌+◌, ◌-◌, ◌*◌, ◌/◌, ◌%◌, ◌^◌, Bool, true, false, ◌&&◌, not, Option, none, some, List, [], ◌∷◌,
  ◌++◌, ltb, leb, ◌==◌, if◌then◌else◌, ◌>>=◌,
}
use locket_api.Api.Color.{Color, rgb}
use locket_api.Api.Sequences.{LedRgbChunk, setup, led, wait, end, brr_brr_brr}
use locket_api.Api.Device.{
  Command, led_start, led_stop, vibro_start, set_beacon, clear_beacon, set_power,
}
use locket_api.Api.RxTable.{add_packet, has_packet_with_id, clear}
use locket_api.Api.Utility.{RadioPowerLevel, minus_15_dbm, get_switch_state, id_to_radio_enum, bit}
use locket_api.MariyEl.PlayerDevice.{IdOnlyState, packet_id, table_size, range_of}

pub data Mode : Type 0 where
  player lady_lu master_sos : Mode

pub data State : Type 0 where
  idle five fifteen half_an_hour activated : State

abbrev five_min_threshold : ℕ
five_min_threshold = 300

abbrev fifteen_threshold : ℕ
fifteen_threshold = 900

abbrev half_an_hour_threshold : ℕ
half_an_hour_threshold = 1800

abbrev lady_lu_threshold : ℕ
lady_lu_threshold = 300

abbrev path_id : ℕ
path_id = 1

abbrev sos_id : ℕ
sos_id = 2

-- A colour that is taken on with a smoothing value, for a time.
abbrev shine : ℕ → Color → ℕ → List LedRgbChunk
shine smooth color ms =
    record { type = setup; value = smooth; color = color } ∷ led wait ms ∷ led end 0 ∷ []

abbrev pub player_start : List LedRgbChunk
player_start = shine 300 (rgb 0 1 0) 300

abbrev master_start : List LedRgbChunk
master_start = shine 300 (rgb 1 0 1) 300

abbrev lady_lu_start : List LedRgbChunk
lady_lu_start = shine 300 (rgb 0 0 1) 300

abbrev pub player_current : Color → List LedRgbChunk
player_current color = shine 0 color 1000

pub record Winds : Type 0 where
  pub seconds_counter : ℕ
  pub current_threshold : ℕ
  pub mode : Mode
  pub state : State
  pub rx_table : List IdOnlyState
  pub range_level : RadioPowerLevel
  pub out : List Command

abbrev pub is_idle : State → Bool
is_idle idle = true
is_idle _ = false

abbrev is_activated : State → Bool
is_activated activated = true
is_activated _ = false

abbrev bump : ℕ → ℕ
bump n = (n + 1) % 2 ^ 32

unfoldable pub on_started : Winds → Winds
on_started w = record w { out = set_power minus_15_dbm ∷ w.out }

-- The colour of a running timer.
unfoldable pub current_color : ℕ → ℕ → Color
current_color threshold seconds =
    let red_part = 255 * ((threshold + 2 ^ 32 - seconds) % 2 ^ 32) % 2 ^ 32 / threshold % 256 in
    rgb red_part (255 - red_part) 0

-- The branches of `EverySecond`, each for its mode.
unfoldable pub sos_second : Winds → Winds
sos_second w =
    let heard =
      if has_packet_with_id packet_id sos_id w.rx_table
      then record w { rx_table = clear w.rx_table; out = vibro_start brr_brr_brr ∷ w.out }
      else w in
    let s = bump heard.seconds_counter in
    if not (is_activated heard.state)
    then heard
    else if s % 3 == 0
    then record heard { seconds_counter = 0; state = idle; out = clear_beacon ∷ heard.out }
    else record heard { seconds_counter = s }

unfoldable pub timer_second : Winds → Option Winds
unfolding current_color
timer_second w =
    let s = bump w.seconds_counter in
    if is_idle w.state
    then some w
    else if leb w.current_threshold s
    then some (record w {
      current_threshold = 0;
      state = idle;
      seconds_counter = 0;
      out = led_start player_start ∷ vibro_start brr_brr_brr ∷ w.out;
    })
    else if w.current_threshold == 0
    then none
    else some (record w {
      seconds_counter = s;
      out = led_start (player_current (current_color w.current_threshold s)) ∷ led_stop ∷ w.out;
    })

unfoldable pub lady_lu_second : Winds → Winds
lady_lu_second w =
    let s = bump w.seconds_counter in
    if not (is_activated w.state)
    then w
    else if leb lady_lu_threshold s
    then record w { seconds_counter = 0; state = idle; out = clear_beacon ∷ w.out }
    else record w { seconds_counter = s }

unfoldable pub every_second : Winds → Option Winds
unfolding sos_second timer_second lady_lu_second
every_second w = elim w.mode [
  | player ↦ timer_second w
  | lady_lu ↦ some (lady_lu_second w)
  | master_sos ↦ some (sos_second w)
]

unfoldable pub on_dip_switch_changed : ℕ → Winds → Winds
on_dip_switch_changed dip_value_mask w =
    let type =
      2 * bit (get_switch_state dip_value_mask 1) + bit (get_switch_state dip_value_mask 2) in
    let level = id_to_radio_enum (range_of dip_value_mask) in
    let typed =
      if type == 1
      then record w { mode = master_sos; out = led_start master_start ∷ w.out }
      else if type == 2
      then record w { mode = lady_lu; out = led_start lady_lu_start ∷ w.out }
      else record w { mode = player; state = idle; out = led_start player_start ∷ w.out } in
    record typed { range_level = level; out = set_power level ∷ typed.out }

-- A timer of the player.
abbrev set_timer : State → ℕ → Winds → Winds
set_timer state threshold w = record w {
  state = state;
  seconds_counter = 0;
  current_threshold = threshold;
}

abbrev pub start_timer : ℕ → Winds → Winds
start_timer button_index w =
    if button_index == 0
    then set_timer five five_min_threshold w
    else if button_index == 1
    then set_timer fifteen fifteen_threshold w
    else if button_index == 2
    then set_timer half_an_hour half_an_hour_threshold w
    else w

unfoldable pub on_button_pressed : ℕ → Bool → Winds → Winds
on_button_pressed button_index long_press w = elim w.mode [
  | master_sos ↦ record w {
    seconds_counter = 0;
    state = activated;
    out = set_beacon sos_id ∷ w.out;
  }
  | lady_lu ↦
      if long_press then record w { state = activated; out = set_beacon path_id ∷ w.out } else w
  | player ↦ if long_press then start_timer button_index w else w
]

unfoldable pub on_radio_packet_received : IdOnlyState → Winds → Winds
on_radio_packet_received packet w = elim w.mode [
  | master_sos ↦ record w { rx_table = (add_packet packet_id table_size packet w.rx_table).0 }
  | _ ↦ w
]
