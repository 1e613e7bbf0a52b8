-- ===== src/MariyEl/Health/Player.antt =====
-- The rules of the game for one player, with no states inside states, no memory and no device.
pub mod Rules
use locket_api.Prelude.{
  ℕ, ◌+◌, ◌-◌, ◌≤◌, ◌≡◌, Bool, true, false, Option, none, some, List, [], ◌∷◌, ltb, leb, ◌==◌,
  if◌then◌else◌, arith,
}
use locket_api.Api.Device.{
  Command, led_stop, led_start, vibro_start, beeper_start, set_beacon, clear_beacon, set_power,
  write_pill,
}
use locket_api.MariyEl.SmData.{
  god_pause_address, count_address, health_address, health_state_address, default_hp, god_pause_m,
}
use locket_api.MariyEl.Show.{path_id}
use locket_api.MariyEl.Health.{
  Health, HealthState, Machine, time_tick_1m_sig, time_tick_1s_sig, pill_heal_sig, pill_reset_sig,
  pill_god_sig, god_button_longpress, dead_button_longpress, rad_received_sig, monster_signal_sig,
  simple_code, god_ready_code, god_code, dead_code, god_threshold_s, default_damage,
}
use locket_api.MariyEl.Health

pub data Mode : Type 0 where
  simple god_ready god dead : Mode

pub data Signal : Type 0 where
  minute second heal reset become_god god_button dead_button radiation monster : Signal

pub record Player : Type 0 where
  pub mode : Mode
  pub god_pause : ℕ
  pub count : ℕ
  pub health : ℕ

abbrev die : Player → Player
die p = record p { mode = dead; count = 0 }

abbrev be_hit : Player → Player
be_hit p =
    if leb p.health default_damage then die p else record p { health = p.health - default_damage }

-- Pills heal anybody; a reset makes a plain player of anybody, and ends a god's time as usual.
abbrev rule : Signal → Mode → Player → Player
rule heal dead p = record p { mode = simple; health = default_hp }
rule heal _ p = record p { health = default_hp }
rule reset god p = record p { mode = simple; health = default_hp; god_pause = god_pause_m }
rule reset _ p = record p { mode = simple; health = default_hp }
rule radiation simple p = be_hit p
rule radiation god_ready p = be_hit p
rule dead_button simple p = die p
rule dead_button god_ready p = die p
rule become_god simple p = record p { mode = god_ready; god_pause = 0 }
rule god_button god_ready p = if p.god_pause == 0 then record p { mode = god; count = 0 } else p
rule minute god_ready p = record p { god_pause = p.god_pause - 1 }
rule second god p =
    if leb god_threshold_s p.count
    then record p { mode = god_ready; god_pause = god_pause_m }
    else record p { count = p.count + 1 }
rule _ _ p = p

abbrev pub react : Signal → Player → Player
react s p = rule s p.mode p

-- Bounds that the rules keep.
pub record IsPlayer (p : Player) : Type 0 where
  pub health_capped : p.health ≤ default_hp
  pub pause_capped : p.god_pause ≤ god_pause_m
  pub count_capped : p.count ≤ god_threshold_s

pub react-IsPlayer : (s : Signal) (p : Player) → IsPlayer p → IsPlayer (react s p)
react-IsPlayer s p v = ground arith

abbrev pub leaf : Mode → HealthState
leaf simple = HealthState.simple
leaf god_ready = HealthState.god_ready
leaf god = HealthState.god
leaf dead = HealthState.dead

abbrev pub code : Mode → ℕ
code simple = simple_code
code god_ready = god_ready_code
code god = god_code
code dead = dead_code

abbrev pub sig : Signal → ℕ
sig minute = time_tick_1m_sig
sig second = time_tick_1s_sig
sig heal = pill_heal_sig
sig reset = pill_reset_sig
sig become_god = pill_god_sig
sig god_button = god_button_longpress
sig dead_button = dead_button_longpress
sig radiation = rad_received_sig
sig monster = monster_signal_sig

-- The packet that the radio repeats after the commands.
abbrev pub beacon : List Command → Option ℕ
beacon [] = none
beacon (set_beacon id ∷ out) = some id
beacon (clear_beacon ∷ out) = none
beacon (led_stop ∷ out) = beacon out
beacon (led_start l ∷ out) = beacon out
beacon (vibro_start l ∷ out) = beacon out
beacon (beeper_start l ∷ out) = beacon out
beacon (set_power l ∷ out) = beacon out
beacon (write_pill id ∷ out) = beacon out

abbrev pub path_beacon : Mode → Option ℕ
path_beacon dead = none
path_beacon _ = some path_id

-- The count that is stored: the last multiple of a minute.
abbrev pub saved_count : ℕ → ℕ
saved_count count = if leb god_threshold_s count then god_threshold_s else 0

-- The members of the machine, the memory and the radio are those of the player.
pub record Agrees (h : Health) (p : Player) : Type 0 where
  pub god_pause : h.vars.god_pause ≡ p.god_pause
  pub count : h.vars.count ≡ p.count
  pub health : h.vars.health ≡ p.health
  pub stored_god_pause : h.vars.eeprom god_pause_address ≡ p.god_pause
  pub stored_count : h.vars.eeprom count_address ≡ saved_count p.count
  pub stored_health : h.vars.eeprom health_address ≡ p.health
  pub stored_mode : h.vars.eeprom health_state_address ≡ code p.mode
  pub path : beacon h.out ≡ path_beacon p.mode
