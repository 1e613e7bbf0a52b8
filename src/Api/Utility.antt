-- ===== src/Api/Utility.antt =====
-- DIP switches and radio power levels: api/utility.cpp and the enumeration of api/radio.h.
use Prim.Native.Nat.{bit_and}
use locket_api.Prelude.{ℕ, ◌-◌, ◌^◌, Bool, true, false, ◌==◌, if◌then◌else◌}

pub data RadioPowerLevel : Type 0 where
  minus_30_dbm minus_27_dbm minus_25_dbm minus_20_dbm minus_15_dbm minus_10_dbm minus_6_dbm :
      RadioPowerLevel
  plus_0_dbm plus_5_dbm plus_7_dbm plus_10_dbm plus_12_dbm : RadioPowerLevel

-- `position` counts from 1.
unfoldable pub get_switch_state : ℕ → ℕ → Bool
get_switch_state dip_value_mask position =
    if bit_and dip_value_mask (2 ^ (position - 1)) == 0 then false else true

unfoldable pub id_to_radio_enum : ℕ → RadioPowerLevel
id_to_radio_enum id =
    if id == 0
    then minus_30_dbm
    else if id == 1
    then minus_27_dbm
    else if id == 2
    then minus_25_dbm
    else if id == 3
    then minus_20_dbm
    else if id == 4
    then minus_15_dbm
    else if id == 5
    then minus_10_dbm
    else if id == 6
    then minus_6_dbm
    else if id == 7
    then plus_0_dbm
    else if id == 8
    then plus_5_dbm
    else if id == 9
    then plus_7_dbm
    else if id == 10
    then plus_10_dbm
    else if id == 11
    then plus_12_dbm
    else plus_0_dbm

-- A switch as the number that C makes of it.
abbrev pub bit : Bool → ℕ
bit true = 1
bit false = 0
