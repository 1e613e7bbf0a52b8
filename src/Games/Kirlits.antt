-- ===== src/Games/Kirlits.antt =====
-- The locket of `KirlitsBehavior`, projects/kirlits_behavior/kirlits_behavior.h and
-- kirlits_behavior.cpp, which shows the lockets near it. The commands come newest first; `none` is an
-- access outside an array.
pub mod Sequence
use locket_api.Prelude.{
  ℕ, zero, suc, ◌+◌, ◌-◌, ◌*◌, ◌%◌, ◌^◌, Bool, true, false, ◌||◌, Option, none, some, List, [], ◌∷◌,
  ◌++◌, length, take, get_elem?, ltb, ◌==◌, if◌then◌else◌, ◌>>=◌,
}
use locket_api.Api.Color.{Color, rgb, red, blue, black, white}
use locket_api.Api.Sequences.{LedRgbChunk, led_setup, led, wait, end, start_sequence}
use locket_api.Api.RxTable.{add_packet, clear}
use locket_api.Api.Utility.{get_switch_state, bit}
use locket_api.MariyEl.PlayerDevice.{table_size}

abbrev flash_dur : ℕ
flash_dur = 500

abbrev pub types_num : ℕ
types_num = 6

pub data LocketEnum : Type 0 where
  yellow_locket white_locket blue_locket red_locket blue_red_locket silent_locket : LocketEnum

-- `IdAndTypeState` of api/common_states.h.
pub record IdAndTypeState : Type 0 where
  pub id : ℕ
  pub locket_type : ℕ

pub data Command : Type 0 where
  led_stop clear_beacon : Command
  led_start : List LedRgbChunk → Command
  set_beacon : IdAndTypeState → Command

abbrev double_flash : Color → List LedRgbChunk
double_flash color =
    led_setup color
    ∷ led wait flash_dur
    ∷ led_setup black
    ∷ led wait flash_dur
    ∷ led_setup color
    ∷ led wait flash_dur
    ∷ led_setup black
    ∷ led wait flash_dur
    ∷ led end 0
    ∷ []

abbrev red_and_blue : List LedRgbChunk
red_and_blue =
    led_setup red
    ∷ led wait flash_dur
    ∷ led_setup blue
    ∷ led wait flash_dur
    ∷ led_setup red
    ∷ led wait flash_dur
    ∷ led_setup blue
    ∷ led wait flash_dur
    ∷ led_setup black
    ∷ led wait flash_dur
    ∷ led end 0
    ∷ []

abbrev pub sequences : List (List LedRgbChunk)
sequences =
    double_flash (rgb 255 255 0)
    ∷ double_flash white
    ∷ double_flash blue
    ∷ double_flash red
    ∷ red_and_blue
    ∷ []

pub record Kirlits : Type 0 where
  pub seconds_counter : ℕ
  pub rx_table : List IdAndTypeState
  pub locket_type : LocketEnum
  pub sequence : List LedRgbChunk
  pub locket_id : ℕ
  pub out : List Command

abbrev pub type_to_enum : ℕ → LocketEnum
type_to_enum id =
    if id == 0
    then yellow_locket
    else if id == 1
    then white_locket
    else if id == 2
    then blue_locket
    else if id == 3
    then red_locket
    else if id == 4
    then blue_red_locket
    else if id == 5
    then silent_locket
    else yellow_locket

abbrev pub enum_to_type : LocketEnum → ℕ
enum_to_type yellow_locket = 0
enum_to_type white_locket = 1
enum_to_type blue_locket = 2
enum_to_type red_locket = 3
enum_to_type blue_red_locket = 4
enum_to_type silent_locket = 5

-- `LocketsNear[type] += 1`, on the array as a function of the index.
unfoldable pub count_locket : ℕ → (ℕ → ℕ) → Option (ℕ → ℕ)
count_locket type lockets_near =
    if ltb type types_num
    then some (λ i. if i == type then lockets_near i + 1 else lockets_near i)
    else none

unfoldable pub count_lockets : List IdAndTypeState → (ℕ → ℕ) → Option (ℕ → ℕ)
count_lockets [] lockets_near = some lockets_near
count_lockets (packet ∷ packets) lockets_near = do
  near ← count_locket packet.locket_type lockets_near
  count_lockets packets near

-- The chunks of a sequence but the last, so many times.
unfoldable pub push_chunks : ℕ → List LedRgbChunk → List LedRgbChunk
push_chunks zero chunks = []
push_chunks (suc j) chunks = take (length chunks - 1) chunks ++ push_chunks j chunks

-- The loop over the types from the `i`-th on, with the sequences that are left.
unfoldable pub push_types : ℕ → (ℕ → ℕ) → List (List LedRgbChunk) → List LedRgbChunk
unfolding push_chunks
push_types i lockets_near [] = led end 0 ∷ []
push_types i lockets_near (chunks ∷ rest) =
    push_chunks (lockets_near i) chunks ++ push_types (suc i) lockets_near rest

unfoldable pub create_sequence : List IdAndTypeState → Option (List LedRgbChunk)
unfolding count_lockets push_types
create_sequence rx_table = do
  near ← count_lockets rx_table (λ i. 0)
  some (push_types 0 near sequences)

unfoldable pub if_silent_near : List IdAndTypeState → Bool
if_silent_near [] = false
if_silent_near (packet ∷ packets) =
    packet.locket_type == enum_to_type silent_locket || if_silent_near packets

abbrev pub own_packet : Kirlits → IdAndTypeState
own_packet k = record { id = k.locket_id; locket_type = enum_to_type k.locket_type }

unfoldable pub on_started : Kirlits → Kirlits
on_started k = record k { out = set_beacon (own_packet k) ∷ k.out }

-- What `EverySecond` does once in a minute.
unfoldable pub minute : Kirlits → Option Kirlits
unfolding create_sequence if_silent_near
minute k = do
  sequence ← create_sequence k.rx_table
  let radio = if if_silent_near k.rx_table then clear_beacon else set_beacon (own_packet k)
  some (record k {
    seconds_counter = 0;
    rx_table = clear k.rx_table;
    sequence = sequence;
    out = radio ∷ led_start sequence ∷ led_stop ∷ k.out;
  })

unfoldable pub every_second : Kirlits → Option Kirlits
unfolding minute
every_second k =
    let s = (k.seconds_counter + 1) % 2 ^ 32 in
    if s % 60 == 0 then minute k else some (record k { seconds_counter = s })

unfoldable pub on_dip_switch_changed : ℕ → Kirlits → Option Kirlits
on_dip_switch_changed dip_value_mask k =
    let on = λ (i : ℕ). bit (get_switch_state dip_value_mask i) in
    let current_type = on 6 * 4 + on 7 * 2 + on 8 in
    let set = record k {
      locket_id = on 1 * 4 + on 2 * 2 + on 3;
      locket_type = type_to_enum current_type;
      out =
          set_beacon (record { id = on 1 * 4 + on 2 * 2 + on 3; locket_type = current_type })
          ∷ clear_beacon
          ∷ k.out;
    } in
    if ltb current_type (length sequences)
    then (do
      sequence ← get_elem? sequences (enum_to_type set.locket_type)
      some (record set { out = led_start sequence ∷ set.out }))
    else some (record set { out = led_start start_sequence ∷ set.out })

unfoldable pub on_radio_packet_received : IdAndTypeState → Kirlits → Kirlits
on_radio_packet_received packet k = record k {
  rx_table = (add_packet (λ p. p.id) table_size packet k.rx_table).0;
}
