-- ===== src/TorRadiation/Health/Player.antt =====
-- The rules of the game for one player, with no states inside states, no memory and no device:
-- projects/Tor_radiation.
use locket_api.Prelude.{
  ℕ, ◌+◌, ◌-◌, ◌/◌, ◌%◌, ◌≤◌, ◌<◌, ◌^◌, ◌≡◌, Option, none, some, List, [], ◌∷◌, ◌==◌, if◌then◌else◌,
}
use locket_api.Api.Color.{Color, light_red, light_green, light_blue}
use locket_api.Api.Sequences.{LedRgbChunk}
use locket_api.Api.Device.{
  Command, led_stop, led_start, vibro_start, beeper_start, set_beacon, clear_beacon, set_power,
  write_pill,
}
use locket_api.TorRadiation.SmData.{count_address, health_state_address}
use locket_api.TorRadiation.Health.{
  Health, HealthState, health_sequence, time_tick_1m_sig, time_tick_1s_sig, btn_reset_sig,
  rad_received_sig, health_code, damaged_code, dead_code, generate,
}

pub data Mode : Type 0 where
  healthy damaged dead : Mode

pub data Signal : Type 0 where
  minute second reset radiation : Signal

-- `saved` is the count that a power cut goes back to, `drawn` the random values taken.
pub record Player : Type 0 where
  pub mode : Mode
  pub count : ℕ
  pub saved : ℕ
  pub drawn : ℕ

abbrev pub leaf : Mode → HealthState
leaf healthy = HealthState.health
leaf damaged = HealthState.damaged
leaf dead = HealthState.dead

abbrev pub code : Mode → ℕ
code healthy = health_code
code damaged = damaged_code
code dead = dead_code

abbrev pub sig : Signal → ℕ
sig minute = time_tick_1m_sig
sig second = time_tick_1s_sig
sig reset = btn_reset_sig
sig radiation = rad_received_sig

abbrev pub colour : Mode → Color
colour healthy = light_blue
colour damaged = light_green
colour dead = light_red

-- The count goes down by one, and every minute's worth of it is saved.
abbrev pub be_hit : Player → Player
be_hit p = record p {
  count = p.count - 1;
  saved = if (p.count - 1) % 60 == 0 then p.count - 1 else p.saved;
}

module _ (rand : ℕ → ℕ) where
  -- A new count for a mode.
  abbrev pub renew : Mode → Player → Player
  renew m p = record {
    mode = m;
    count = generate rand p.drawn;
    saved = generate rand p.drawn;
    drawn = p.drawn + 1;
  }

  abbrev pub rule : Signal → Mode → Player → Player
  rule reset _ p = renew healthy p
  rule radiation healthy p = if p.count == 1 then renew damaged p else be_hit p
  rule radiation damaged p = if p.count == 1 then record (be_hit p) { mode = dead } else be_hit p
  rule _ _ p = p

  abbrev pub react : Signal → Player → Player
  react s p = rule s p.mode p

-- A player that is not dead has a count, in the minute of the one that is saved.
abbrev pub Counts : Mode → Player → Type 0
Counts dead p = Unit {0}
Counts _ p = (0 < p.count) × (p.count ≤ p.saved) × ((p.saved + 59) / 60 ≡ (p.count + 59) / 60)

pub record IsPlayer (p : Player) : Type 0 where
  pub word : (p.count < 2 ^ 32) × (p.saved < 2 ^ 32)
  pub counts : Counts p.mode p

-- What the LED plays after the commands.
abbrev pub led_of : List Command → Option (List LedRgbChunk)
led_of [] = none
led_of (led_start l ∷ out) = some l
led_of (led_stop ∷ out) = none
led_of (vibro_start l ∷ out) = led_of out
led_of (beeper_start l ∷ out) = led_of out
led_of (set_beacon id ∷ out) = led_of out
led_of (clear_beacon ∷ out) = led_of out
led_of (set_power l ∷ out) = led_of out
led_of (write_pill id ∷ out) = led_of out

-- The members of the machine, the memory and the light are those of the player.
pub record Agrees (h : Health) (p : Player) : Type 0 where
  pub count : h.vars.count ≡ p.count
  pub stored_count : h.vars.eeprom count_address ≡ p.saved
  pub stored_mode : h.vars.eeprom health_state_address ≡ code p.mode
  pub drawn : h.drawn ≡ p.drawn
  pub light : led_of h.out ≡ some (health_sequence (colour p.mode))
