-- ===== src/TorRadiation/SmData.antt =====
-- The count of the health machine and its copy in persistent memory:
-- projects/Tor_radiation/sm_data.h and sm_data.cpp. Addresses are those of the 32-bit target.
use locket_api.Prelude.{ℕ, ◌+◌, ◌-◌, ◌%◌, ◌^◌, Bool, ltb, ◌==◌, if◌then◌else◌}
use locket_api.Api.Eeprom.{Eeprom, read, write}

abbrev pub save_count_pause : ℕ
save_count_pause = 60

-- `offsetof` in `EepromMap`; its first member holds the count and a pointer.
abbrev pub count_address : ℕ
count_address = 0

abbrev pub health_state_address : ℕ
health_state_address = 8

pub record HealthVariables : Type 0 where
  pub count : ℕ
  pub eeprom : Eeprom

unfoldable pub load : Eeprom → HealthVariables
load eeprom = record { count = read eeprom count_address; eeprom = eeprom }

abbrev pub save_count : HealthVariables → HealthVariables
save_count v = record v { eeprom = write count_address v.count v.eeprom }

-- `--count` on an `unsigned int`.
unfoldable pub decrement_count : HealthVariables → HealthVariables
decrement_count v =
    let v' = record v { count = (v.count + 2 ^ 32 - 1) % 2 ^ 32 } in
    if v'.count % save_count_pause == 0 then save_count v' else v'

unfoldable pub set_count : ℕ → HealthVariables → HealthVariables
set_count new_count v = save_count (record v { count = new_count })

unfoldable pub is_positive : HealthVariables → Bool
is_positive v = ltb 0 v.count

unfoldable pub save_health_state : ℕ → HealthVariables → HealthVariables
save_health_state state v = record v { eeprom = write health_state_address state v.eeprom }
