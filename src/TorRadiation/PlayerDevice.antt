-- ===== src/TorRadiation/PlayerDevice.antt =====
-- The player's device: projects/Tor_radiation/player_device.h and player_device.cpp. A handler
-- gives none if the machine does not survive, or a packet's id is outside `LustraNear`.
pub mod Radiation
use locket_api.Prelude.{
  ℕ, ◌+◌, ◌*◌, ◌%◌, ◌^◌, Bool, true, false, Option, none, some, List, [], ◌∷◌, get_elem?, set, ltb,
  ◌==◌, if◌then◌else◌, ◌>>=◌,
}
use locket_api.Api.Eeprom.{Eeprom}
use locket_api.Api.Color.{extra_light_green}
use locket_api.Api.Sequences.{brr_brr_brr}
use locket_api.Api.Device.{Command, led_start, vibro_start, set_power}
use locket_api.Api.Utility.{RadioPowerLevel, minus_15_dbm, id_to_radio_enum}
use locket_api.Api.RxTable.{add_packet, clear}
use locket_api.MariyEl.PlayerDevice.{IdOnlyState, packet_id, table_size, range_of}
use locket_api.TorRadiation.Health.{
  health_state_eq, Health, Machine, health_sequence, time_tick_1m_sig, time_tick_1s_sig,
  btn_reset_sig, rad_received_sig,
}
use locket_api.TorRadiation.Health.Life.{boot, send}

pub record RadBehavior : Type 0 where
  pub the_health : Machine
  pub rx_table : List IdOnlyState
  pub range_level : RadioPowerLevel
  pub s_counter : ℕ

-- `int LustraNear[16] = {}`.
abbrev pub none_near : List ℕ
none_near = 0 ∷ 0 ∷ 0 ∷ 0 ∷ 0 ∷ 0 ∷ 0 ∷ 0 ∷ 0 ∷ 0 ∷ 0 ∷ 0 ∷ 0 ∷ 0 ∷ 0 ∷ 0 ∷ []

-- The loop over the table.
unfoldable pub lustra_near : List IdOnlyState → List ℕ → Option (List ℕ)
lustra_near [] near = some near
lustra_near (packet ∷ table) near = elim (get_elem? near packet.id) [
  | none ↦ none
  | some n ↦ lustra_near table (set near packet.id (n + 1))
]

module _ (rand : ℕ → ℕ) where
  -- `QMsm_dispatch(the_health, …)`.
  abbrev pub dispatch_to : ℕ → RadBehavior → Option RadBehavior
  dispatch_to sig b = do me ← send rand sig b.the_health; some (record b { the_health = me })

  unfoldable pub on_started : Eeprom → Option RadBehavior
  on_started eeprom = do
    me ←
        boot rand eeprom
          (vibro_start brr_brr_brr ∷ led_start (health_sequence extra_light_green) ∷ [])
    some (record { the_health = me; rx_table = []; range_level = minus_15_dbm; s_counter = 0 })

  unfoldable pub tick : RadBehavior → Option RadBehavior
  tick b = do
    let s = (b.s_counter + 1) % 2 ^ 32
    b1 ← dispatch_to time_tick_1s_sig (record b { s_counter = s })
    if s % 60 == 0 then dispatch_to time_tick_1m_sig (record b1 { s_counter = 0 }) else some b1

  -- The loop over the lustras.
  unfoldable pub radiate : List ℕ → RadBehavior → Option RadBehavior
  radiate [] b = some b
  radiate (n ∷ near) b = elim (ltb 0 n) [
    | true ↦ do b' ← dispatch_to rad_received_sig b; radiate near b'
    | false ↦ radiate near b
  ]

  unfoldable pub every_second : RadBehavior → Option RadBehavior
  every_second b = do
    b1 ← tick b
    near ← lustra_near b1.rx_table none_near
    b2 ← radiate near b1
    some (record b2 { rx_table = clear b2.rx_table })

  -- A long press of another button dispatches the signal that its event happens to hold, `junk`.
  unfoldable pub on_button_pressed : ℕ → ℕ → Bool → RadBehavior → Option RadBehavior
  on_button_pressed junk button_index long_press b =
      if long_press
      then dispatch_to (if button_index == 1 then btn_reset_sig else junk) b
      else some b

-- The power level is chosen as on the device of Mariy El.
unfoldable pub on_dip_switch_changed : ℕ → RadBehavior → RadBehavior
on_dip_switch_changed dip_value_mask b =
    let level = id_to_radio_enum (range_of dip_value_mask) in
    record b {
      range_level = level;
      the_health = record (b.the_health) {
        members = record (b.the_health.members) {
          out = set_power level ∷ b.the_health.members.out;
        };
      };
    }

unfoldable pub on_radio_packet_received : IdOnlyState → RadBehavior → RadBehavior
on_radio_packet_received packet b = record b {
  rx_table = (add_packet packet_id table_size packet b.rx_table).0;
}
