-- ===== src/MariyEl/Health/Boot.antt =====
-- Starting the health machine from what persistent memory holds: `Health_ctor` and `QMSM_INIT`.
use native.Mathlib.Omega.{arith}
use locket_api.Prelude.{ℕ, ◌≡◌, refl, Option, none, some, List}
use locket_api.Qhsm.{tran, init, cross, climb, collect, meet, enter, do_transition}
use locket_api.Api.Eeprom.{Eeprom}
use locket_api.Api.Device.{Command}
use locket_api.MariyEl.SmData.{
  god_pause_address, count_address, health_address, health_state_address, reset_count,
  save_health_state,
}
use locket_api.MariyEl.Health.{health_state_eq, Machine, handlers, health_ctor}
use locket_api.MariyEl.Health.Player.{
  Mode, simple, god, dead, Player, code, saved_count, beacon, IsPlayer,
}
use locket_api.MariyEl.Health.Refine.{Plays}

-- `OnStarted` behind the constructor's arguments: a machine at rest, if the run survives.
unfoldable pub boot : Eeprom → List Command → Option Machine
boot eeprom out = init handlers 8 0 (health_ctor eeprom out)

-- What the memory keeps of a player.
pub record Stores (eeprom : Eeprom) (p : Player) : Type 0 where
  pub god_pause : eeprom god_pause_address ≡ p.god_pause
  pub count : eeprom count_address ≡ saved_count p.count
  pub health : eeprom health_address ≡ p.health
  pub mode : eeprom health_state_address ≡ code p.mode

-- The count that a mode starts with.
abbrev pub first_count : Mode → ℕ → ℕ
first_count god count = 0
first_count dead count = 0
first_count _ count = saved_count count

-- The player behind a power cut: all but the count is kept.
abbrev pub revive : Player → Player
revive p = record p { count = first_count p.mode p.count }

pub revive-IsPlayer : (p : Player) → IsPlayer p → IsPlayer (revive p)
revive-IsPlayer p v = ground arith

abbrev pub Starts : Option Machine → Player → Type 0
Starts none p = ⊥
Starts (some me) p = Plays (some (tran, me)) p

boot_mode :
    (m : Mode) (eeprom : Eeprom) (out : List Command) (p : Player)
    → p.mode ≡ m
    → beacon out ≡ none
    → Stores eeprom p
    → Starts (boot eeprom out) (revive p)
unfolding boot init do_transition climb cross collect meet enter handlers health_ctor reset_count
    save_health_state
boot_mode simple eeprom out p e b s = ground arith
boot_mode _ eeprom out p e b s = ground arith

-- A device that starts with the radio silent comes to rest in the stored state, with the stored
-- variables and the beacon of that state.
pub boot-Starts :
    (eeprom : Eeprom) (out : List Command) (p : Player)
    → beacon out ≡ none
    → Stores eeprom p
    → Starts (boot eeprom out) (revive p)
boot-Starts eeprom out p b s = boot_mode p.mode eeprom out p refl b s
