-- ===== src/MariyEl/PlayerDevice.antt =====
-- The player's device: `RadBehavior` of projects/Mariy_El_sm/player_device.h and player_device.cpp.
-- A handler of the behavior returns the behavior behind it; `none` as in `Qhsm`. The counters are
-- `unsigned int`. The LED, vibro and radio commands go to the list that the machine's own commands
-- go to.
pub mod Refine
pub mod Events
use locket_api.Prelude.{
  ℕ, ◌+◌, ◌*◌, ◌-◌, ◌%◌, ◌^◌, Bool, true, false, Option, none, some, List, [], ◌∷◌, ltb, leb, ◌==◌,
  if◌then◌else◌, ◌>>=◌,
}
use locket_api.Api.Sequences.{start_sequence, brr, brr_brr_brr}
use locket_api.Api.Device.{Command, led_start, vibro_start, set_power}
use locket_api.Api.RxTable.{add_packet, has_packet_with_id, clear}
use locket_api.Api.Utility.{RadioPowerLevel, get_switch_state, id_to_radio_enum, bit}
use locket_api.Api.Eeprom.{Eeprom}
use locket_api.MariyEl.Show.{monster_id, rad_id}
use locket_api.MariyEl.Health.{
  Machine, time_tick_1s_sig, time_tick_1m_sig, monster_signal_sig, rad_received_sig,
  dead_button_longpress, god_button_longpress, pill_reset_sig, pill_heal_sig, pill_god_sig,
}
use locket_api.MariyEl.Health.Boot.{boot}
use locket_api.MariyEl.Health.Life.{send}

-- `IdOnlyState` of api/common_states.h.
pub record IdOnlyState : Type 0 where
  pub id : ℕ

abbrev pub packet_id : IdOnlyState → ℕ
packet_id p = p.id

pub record RadBehavior : Type 0 where
  pub the_health : Machine
  pub pill_connected : Bool
  pub rx_table : List IdOnlyState
  pub range_level : RadioPowerLevel
  pub s_counter : ℕ
  pub monster_s_counter : ℕ
  pub rad_s_counter : ℕ

abbrev pub table_size : ℕ
table_size = 16

-- `++counter`.
abbrev pub bump : ℕ → ℕ
bump n = (n + 1) % 2 ^ 32

-- `QMsm_dispatch(the_health, …)`.
abbrev pub dispatch_to : ℕ → RadBehavior → Option RadBehavior
dispatch_to sig b = do me ← send sig b.the_health; some (record b { the_health = me })

abbrev pub command : Command → RadBehavior → RadBehavior
command c b = record b {
  the_health = record b.the_health {
    members = record b.the_health.members { out = c ∷ b.the_health.members.out };
  };
}

-- The members of a behavior whose health has just started as a machine.
abbrev pub fresh : RadioPowerLevel → Machine → RadBehavior
fresh level me = record {
  the_health = me;
  pill_connected = false;
  rx_table = [];
  range_level = level;
  s_counter = 0;
  monster_s_counter = 0;
  rad_s_counter = 0;
}

-- For a behavior with a power level, which has given some commands.
unfoldable pub on_started : RadioPowerLevel → List Command → Eeprom → Option RadBehavior
on_started level out eeprom = do
  me ← boot eeprom (vibro_start brr_brr_brr ∷ led_start start_sequence ∷ out)
  some (fresh level me)

-- The time events of `EverySecond`.
unfoldable pub tick : RadBehavior → Option RadBehavior
tick b = do
  let s = bump b.s_counter
  b1 ← dispatch_to time_tick_1s_sig (record b { s_counter = s })
  if s % 60 == 0 then dispatch_to time_tick_1m_sig (record b1 { s_counter = 0 }) else some b1

-- Its radio events: a packet of a monster, and one of radiation.
unfoldable pub hear_monster : RadBehavior → Option RadBehavior
hear_monster b =
    let n = bump b.monster_s_counter in
    if has_packet_with_id packet_id monster_id b.rx_table
    then (if n % 5 == 0
        then dispatch_to monster_signal_sig (record b { monster_s_counter = 0 })
        else some (record b { monster_s_counter = n }))
    else some b

unfoldable pub hear_radiation : RadBehavior → Option RadBehavior
hear_radiation b =
    let n = bump b.rad_s_counter in
    if has_packet_with_id packet_id rad_id b.rx_table
    then (if n % 5 == 0
        then dispatch_to rad_received_sig (record b { rad_s_counter = 0 })
        else some (record b { rad_s_counter = n }))
    else some b

unfoldable pub every_second : RadBehavior → Option RadBehavior
every_second b = do
  b1 ← tick b
  b2 ← hear_monster b1
  b3 ← hear_radiation b2
  some (record b3 { rx_table = clear b3.rx_table })

unfoldable pub on_button_pressed : ℕ → Bool → RadBehavior → Option RadBehavior
on_button_pressed button_index long_press b =
    if long_press
    then dispatch_to (if button_index == 1 then dead_button_longpress else god_button_longpress) b
    else some b

-- The pill's content is the same at both reads.
unfoldable pub on_pill_connected : ℕ → RadBehavior → Option RadBehavior
on_pill_connected pill_id b =
    let b1 = command (vibro_start brr) (record b { pill_connected = true }) in
    if pill_id == 0
    then dispatch_to pill_reset_sig b1
    else if pill_id == 1
    then dispatch_to pill_heal_sig b1
    else if pill_id == 2
    then dispatch_to pill_god_sig b1
    else some b1

unfoldable pub on_pill_disconnected : RadBehavior → Option RadBehavior
on_pill_disconnected b = some (record b { pill_connected = false })

-- The power level that the switches 5 to 8 choose.
unfoldable pub range_of : ℕ → ℕ
range_of dip_value_mask =
    let range =
      8 * bit (get_switch_state dip_value_mask 5)
      + 4 * bit (get_switch_state dip_value_mask 6)
      + 2 * bit (get_switch_state dip_value_mask 7)
      + bit (get_switch_state dip_value_mask 8) in
    if ltb 11 range then 11 else range

unfoldable pub on_dip_switch_changed : ℕ → RadBehavior → Option RadBehavior
on_dip_switch_changed dip_value_mask b =
    let level = id_to_radio_enum (range_of dip_value_mask) in
    some (command (set_power level) (record b { range_level = level }))

unfoldable pub on_radio_packet_received : IdOnlyState → RadBehavior → Option RadBehavior
on_radio_packet_received packet b =
    some (record b { rx_table = (add_packet packet_id table_size packet b.rx_table).0 })
