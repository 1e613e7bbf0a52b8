-- ===== src/Games/Vetta.antt =====
-- The locket of `VettaBehavior`, projects/vetta_behavior/vetta_behavior.h and vetta_behavior.cpp, which
-- flashes as often as the largest number that it hears says. The commands come newest first. The
-- counter, an `int`, is never below 0.
pub mod Flashes
use locket_api.Prelude.{
  ℕ, zero, suc, ◌-◌, ◌%◌, Bool, true, false, List, [], ◌∷◌, ◌++◌, ltb, ◌==◌, if◌then◌else◌,
}
use locket_api.Api.Color.{black, white}
use locket_api.Api.Sequences.{LedRgbChunk, led_setup, led, wait, end, start_sequence}
use locket_api.Api.RxTable.{add_packet, clear}
use locket_api.Api.Utility.{RadioPowerLevel, minus_15_dbm}
use locket_api.MariyEl.PlayerDevice.{IdOnlyState, packet_id, table_size}

pub data Command : Type 0 where
  led_start : List LedRgbChunk → Command
  set_power : RadioPowerLevel → Command
  transmit : ℕ → Command

abbrev pub one : List LedRgbChunk
one = led_setup white ∷ led wait 125 ∷ led_setup black ∷ led end 0 ∷ []

-- A flash and the wait behind it, before further ones.
abbrev flash_before : List LedRgbChunk → List LedRgbChunk
flash_before chunks = led_setup white ∷ led wait 125 ∷ led_setup black ∷ led wait 125 ∷ chunks

abbrev pub two : List LedRgbChunk
two = flash_before one

abbrev pub three : List LedRgbChunk
three = flash_before two

abbrev pub four : List LedRgbChunk
four = flash_before three

pub record Vetta : Type 0 where
  pub rx_table : List IdOnlyState
  pub dip_value : ℕ
  pub counter : ℕ
  pub received_previous_second : Bool
  pub out : List Command

unfoldable pub on_started : Vetta → Vetta
on_started v = record v {
  counter = 0;
  received_previous_second = false;
  out = set_power minus_15_dbm ∷ led_start start_sequence ∷ v.out;
}

-- The loop over the packets; the largest id so far is a byte.
unfoldable pub max_id_from : ℕ → List IdOnlyState → ℕ
max_id_from max_id [] = max_id
max_id_from max_id (val ∷ vals) =
    max_id_from (if ltb max_id val.id then val.id % 256 else max_id) vals

unfoldable pub look_at_table : Vetta → Vetta
unfolding max_id_from
look_at_table v =
    if v.received_previous_second
    then record v { rx_table = clear v.rx_table; received_previous_second = false }
    else elim v.rx_table [
      | [] ↦ v
      | p ∷ ps ↦ record v {
        received_previous_second = true;
        rx_table = clear (p ∷ ps);
        counter = max_id_from 0 (p ∷ ps);
      }
    ]

unfoldable pub flash : Vetta → Vetta
flash v =
    if v.counter == 0
    then v
    else if v.counter == 1
    then record v { out = led_start one ∷ v.out; counter = v.counter - 1 }
    else if v.counter == 2
    then record v { out = led_start two ∷ v.out; counter = v.counter - 2 }
    else if v.counter == 3
    then record v { out = led_start three ∷ v.out; counter = v.counter - 3 }
    else record v { out = led_start four ∷ v.out; counter = v.counter - 4 }

unfoldable pub every_second : Vetta → Vetta
unfolding look_at_table flash
every_second v = flash (look_at_table v)

abbrev pub on_dip_switch_changed : ℕ → Vetta → Vetta
on_dip_switch_changed dip_value_mask v = record v { dip_value = dip_value_mask }

abbrev pub on_button_pressed : ℕ → Bool → Vetta → Vetta
on_button_pressed button_index long_press v =
    if long_press then v else record v { out = transmit v.dip_value ∷ v.out }

unfoldable pub on_radio_packet_received : IdOnlyState → Vetta → Vetta
on_radio_packet_received packet v = record v {
  rx_table = (add_packet packet_id table_size packet v.rx_table).0;
}
