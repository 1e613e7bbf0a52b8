-- ===== src/MariyEl/SmData.antt =====
-- The variables of the health machine and their copy in persistent memory:
-- projects/Mariy_El_sm/sm_data.h and sm_data.cpp. `Health_Variables` holds a pointer to the one
-- `Eeprom`, which stands here as the memory itself; the health machine reaches it through its
-- variables. Addresses are those of the 32-bit target.
use locket_api.Prelude.{ℕ, ◌+◌, ◌-◌, ◌*◌, ◌/◌, ◌%◌, ◌^◌, leb, ◌==◌, if◌then◌else◌}
use locket_api.Api.Eeprom.{Eeprom, read, write}
use locket_api.Api.Color.{Color, rgb}

abbrev pub health_save_pause : ℕ
health_save_pause = 60

abbrev pub default_hp : ℕ
default_hp = 330

abbrev pub god_pause_m : ℕ
god_pause_m = 30

-- `offsetof` in `EepromMap` and in its first member, `Health_Variables`.
abbrev pub god_pause_address : ℕ
god_pause_address = 0

abbrev pub count_address : ℕ
count_address = 4

abbrev pub health_address : ℕ
health_address = 8

abbrev pub health_state_address : ℕ
health_state_address = 16

pub record HealthVariables : Type 0 where
  pub god_pause : ℕ
  pub count : ℕ
  pub health : ℕ
  pub eeprom : Eeprom

unfoldable pub load : Eeprom → HealthVariables
load eeprom = record {
  god_pause = read eeprom god_pause_address;
  count = read eeprom count_address;
  health = read eeprom health_address;
  eeprom = eeprom;
}

abbrev pub save_god_pause : HealthVariables → HealthVariables
save_god_pause v = record v { eeprom = write god_pause_address v.god_pause v.eeprom }

abbrev pub save_count : HealthVariables → HealthVariables
save_count v = record v { eeprom = write count_address v.count v.eeprom }

abbrev pub save_health : HealthVariables → HealthVariables
save_health v = record v { eeprom = write health_address v.health v.eeprom }

unfoldable pub reset_health : HealthVariables → HealthVariables
reset_health v = save_health (record v { health = default_hp })

-- `--god_pause` on an `unsigned int`.
unfoldable pub decrement_god_pause : HealthVariables → HealthVariables
decrement_god_pause v =
    save_god_pause (record v { god_pause = (v.god_pause + 2 ^ 32 - 1) % 2 ^ 32 })

unfoldable pub decrease_health : ℕ → HealthVariables → HealthVariables
decrease_health delta_hp v =
    save_health (record v { health = if leb delta_hp v.health then v.health - delta_hp else 0 })

unfoldable pub reset_god_pause : HealthVariables → HealthVariables
reset_god_pause v = save_god_pause (record v { god_pause = god_pause_m })

unfoldable pub zero_god_pause : HealthVariables → HealthVariables
zero_god_pause v = save_god_pause (record v { god_pause = 0 })

unfoldable pub increment_count : HealthVariables → HealthVariables
increment_count v =
    let v' = record v { count = (v.count + 1) % 2 ^ 32 } in
    if v'.count % health_save_pause == 0 then save_count v' else v'

unfoldable pub reset_count : HealthVariables → HealthVariables
reset_count v = save_count (record v { count = 0 })

-- The sums are of `unsigned int`, the components of `uint8_t`.
unfoldable pub get_health_color : HealthVariables → Color
get_health_color v =
    let share = 255 * v.health % 2 ^ 32 / default_hp in
    rgb ((255 + 2 ^ 32 - share) % 2 ^ 32 % 256) (share % 256) 0

unfoldable pub save_health_state : ℕ → HealthVariables → HealthVariables
save_health_state state v = record v { eeprom = write health_state_address state v.eeprom }
