-- ===== src/TorRadiation/Health.antt =====
-- The health state machine: projects/Tor_radiation/health.h and health.cpp, with the signals of
-- Glue.h and the methods "for logic" of player_device.cpp. The parts under `DESKTOP` and the log
-- messages are left out. What `rand` returns is a parameter: its n-th value since it was seeded.
pub mod Player
pub mod Refine
pub mod Life
use locket_api.Prelude.{
  ℕ, ◌+◌, ◌-◌, ◌*◌, ◌%◌, ◌≡◌, ◌↔◌, true, List, [], ◌∷◌, Eq, ◌==◌, if◌then◌else◌, arith,
}
use locket_api.Qhsm.{
  QState, handled, Handler, qhsm_top, state, QHsm, Handlers, q_tran, q_super, ctor, q_entry_sig,
  q_exit_sig, q_user_sig,
}
use locket_api.Api.Eeprom.{Eeprom, read}
use locket_api.Api.Color.{Color, light_red, light_green, light_blue}
use locket_api.Api.Sequences.{
  LedRgbChunk, VibroChunk, led, vibro, setup, wait, goto, end, vibro_volume, vibro_repeat_period,
}
use locket_api.Api.Device.{Command, led_stop, led_start, vibro_start}
use locket_api.TorRadiation.SmData.{
  HealthVariables, load, decrement_count, set_count, is_positive, save_health_state,
  health_state_address,
}

-- The handlers, by the names of their states.
pub data HealthState : Type 0 where
  initial global damaged health dead : HealthState

abbrev pub index : HealthState → ℕ
index initial = 0
index global = 1
index damaged = 2
index health = 3
index dead = 4

pub index_iff : (a b : HealthState) → ((index a == index b) ≡ true) ↔ (a ≡ b)
index_iff a b = ground arith

instance abbrev pub health_state_eq : Eq HealthState
health_state_eq = record { beq = λ a b. index a == index b; beq_iff = index_iff }

abbrev pub health_code : ℕ
health_code = 0

abbrev pub damaged_code : ℕ
damaged_code = 1

abbrev pub dead_code : ℕ
dead_code = 2

abbrev pub min_timeout_s : ℕ
min_timeout_s = 6000

abbrev pub max_timeout_s : ℕ
max_timeout_s = 10200

abbrev pub time_tick_1m_sig : ℕ
time_tick_1m_sig = q_user_sig + 1

abbrev pub time_tick_1s_sig : ℕ
time_tick_1s_sig = q_user_sig + 2

abbrev pub btn_reset_sig : ℕ
btn_reset_sig = q_user_sig + 3

abbrev pub rad_received_sig : ℕ
rad_received_sig = q_user_sig + 4

-- `kHealthSequence` is a global array, and its colour is set before each later start.
abbrev pub health_sequence : Color → List LedRgbChunk
health_sequence color =
    record { type = setup; value = 0; color = color } ∷ led wait 100 ∷ led goto 0 ∷ []

abbrev pub long_brr : List VibroChunk
long_brr =
    vibro setup vibro_volume
    ∷ vibro wait 1000
    ∷ vibro setup 0
    ∷ vibro wait vibro_repeat_period
    ∷ vibro end 0
    ∷ []

abbrev pub long_vibro : List Command → List Command
long_vibro out = vibro_start long_brr ∷ out

abbrev pub set_color : Color → List Command → List Command
set_color color out = led_start (health_sequence color) ∷ led_stop ∷ out

-- The members of `Health` behind its `QHsm`: the start state, the variables with the memory, how
-- many random values have been taken, and the commands that the device (`SMBeh`) has been given.
pub record Health : Type 0 where
  pub start_state : Handler HealthState
  pub vars : HealthVariables
  pub drawn : ℕ
  pub out : List Command

abbrev pub Machine : Type 0
Machine = QHsm HealthState Health

abbrev pub Reply : Type 0
Reply = QState × Machine

-- The state that a code in persistent memory stands for.
unfoldable pub start_state_of : ℕ → HealthState
start_state_of code =
    if code == health_code
    then health
    else if code == damaged_code
    then damaged
    else if code == dead_code
    then dead
    else health

-- `Health_ctor`, for a device that has seeded the random values and been given the commands `out`.
unfoldable pub health_ctor : Eeprom → List Command → Machine
unfolding start_state_of load ctor
health_ctor eeprom out = ctor (state initial) (record {
  start_state = state (start_state_of (read eeprom health_state_address));
  vars = load eeprom;
  drawn = 0;
  out = out;
})

module _ (rand : ℕ → ℕ) where
  -- `Generate(MIN_TIMEOUT_S, MAX_TIMEOUT_S)`.
  unfoldable pub generate : ℕ → ℕ
  generate drawn = rand drawn % (max_timeout_s + 1 - min_timeout_s) + min_timeout_s

  unfoldable pub draw_count : Health → Health
  unfolding generate set_count
  draw_count h = record h { vars = set_count (generate h.drawn) h.vars; drawn = h.drawn + 1 }

  health_initial : Machine → Reply
  health_initial me = q_tran me.members.start_state me

  health_global : ℕ → Machine → Reply
  unfolding draw_count
  health_global sig me =
      if sig == btn_reset_sig
      then q_tran (state health) (record me { members = draw_count me.members })
      else q_super qhsm_top me

  health_damaged : ℕ → Machine → Reply
  unfolding decrement_count is_positive save_health_state
  health_damaged sig me =
      let h = me.members in
      let hit = record me { members = record h { vars = decrement_count h.vars } } in
      if sig == q_entry_sig
      then (
        handled,
        record me {
          members = record h {
            vars = save_health_state damaged_code h.vars;
            out = long_vibro (set_color light_green h.out);
          };
        },
      )
      else if sig == q_exit_sig
      then (handled, me)
      else if sig == rad_received_sig
      then (if is_positive (decrement_count h.vars)
          then (handled, hit)
          else q_tran (state dead) hit)
      else q_super (state global) me

  health_health : ℕ → Machine → Reply
  unfolding decrement_count is_positive save_health_state draw_count
  health_health sig me =
      let h = me.members in
      let hit = record h { vars = decrement_count h.vars } in
      if sig == q_entry_sig
      then (
        handled,
        record me {
          members = record h {
            vars = save_health_state health_code h.vars;
            out = long_vibro (set_color light_blue h.out);
          };
        },
      )
      else if sig == q_exit_sig
      then (handled, me)
      else if sig == rad_received_sig
      then (if is_positive (decrement_count h.vars)
          then (handled, record me { members = hit })
          else q_tran (state damaged) (record me { members = draw_count hit }))
      else q_super (state global) me

  health_dead : ℕ → Machine → Reply
  unfolding save_health_state
  health_dead sig me =
      let h = me.members in
      if sig == q_entry_sig
      then (
        handled,
        record me {
          members = record h {
            vars = save_health_state dead_code h.vars;
            out = long_vibro (set_color light_red h.out);
          };
        },
      )
      else if sig == q_exit_sig
      then (handled, me)
      else q_super (state global) me

  unfoldable pub handlers : Handlers HealthState Health
  unfolding health_initial health_global health_damaged health_health health_dead
  handlers initial sig me = health_initial me
  handlers global sig me = health_global sig me
  handlers damaged sig me = health_damaged sig me
  handlers health sig me = health_health sig me
  handlers dead sig me = health_dead sig me
