-- ===== src/MariyEl/Health.antt =====
-- The health state machine: projects/Mariy_El_sm/health.h and health.cpp, with the signals of
-- Glue.h. The parts under `DESKTOP` and the log messages are left out.
pub mod Hierarchy
pub mod Player
pub mod Refine
pub mod Boot
pub mod Life
pub mod Promises
use locket_api.Prelude.{
  ℕ, ◌+◌, ◌≡◌, refl, ◌↔◌, Bool, true, false, List, [], ◌∷◌, Eq, ltb, leb, ◌==◌, if◌then◌else◌,
  arith,
}
use locket_api.Qhsm.{
  QState, handled, unhandled, Handler, qhsm_top, state, QHsm, Handlers, q_tran, q_super, ctor,
  q_entry_sig, q_exit_sig, q_user_sig,
}
use locket_api.Api.Eeprom.{Eeprom, read}
use locket_api.Api.Color.{red, white}
use locket_api.Api.Device.{Command}
use locket_api.MariyEl.SmData.{
  HealthVariables, load, reset_health, decrement_god_pause, decrease_health, reset_god_pause,
  zero_god_pause, increment_count, reset_count, get_health_color, save_health_state,
  health_state_address,
}
use locket_api.MariyEl.Show.{
  start_transmit_for_path, stop_transmit_for_path, set_color, monster_vibro, make_pill_used,
  radiation_vibro, flash, death_vibro, god_vibro,
}

-- The handlers, by the names of their states.
pub data HealthState : Type 0 where
  initial global alive god mortal god_ready simple dead : HealthState

abbrev pub index : HealthState → ℕ
index initial = 0
index global = 1
index alive = 2
index god = 3
index mortal = 4
index god_ready = 5
index simple = 6
index dead = 7

pub index_iff : (a b : HealthState) → ((index a == index b) ≡ true) ↔ (a ≡ b)
index_iff a b = ground arith

instance abbrev pub health_state_eq : Eq HealthState
health_state_eq = record { beq = λ a b. index a == index b; beq_iff = index_iff }

abbrev pub simple_code : ℕ
simple_code = 0

abbrev pub god_ready_code : ℕ
god_ready_code = 1

abbrev pub god_code : ℕ
god_code = 2

abbrev pub dead_code : ℕ
dead_code = 3

abbrev pub god_threshold_s : ℕ
god_threshold_s = 60

abbrev pub default_damage : ℕ
default_damage = 5

abbrev pub time_tick_1m_sig : ℕ
time_tick_1m_sig = q_user_sig + 1

abbrev pub time_tick_1s_sig : ℕ
time_tick_1s_sig = q_user_sig + 2

abbrev pub pill_heal_sig : ℕ
pill_heal_sig = q_user_sig + 3

abbrev pub pill_reset_sig : ℕ
pill_reset_sig = q_user_sig + 4

abbrev pub pill_god_sig : ℕ
pill_god_sig = q_user_sig + 5

abbrev pub god_button_longpress : ℕ
god_button_longpress = q_user_sig + 6

abbrev pub dead_button_longpress : ℕ
dead_button_longpress = q_user_sig + 7

abbrev pub rad_received_sig : ℕ
rad_received_sig = q_user_sig + 8

abbrev pub monster_signal_sig : ℕ
monster_signal_sig = q_user_sig + 9

-- The members of `Health` behind its `QHsm`: the start state, the variables with the memory, and
-- the commands that the device (`SMBeh`) has been given.
pub record Health : Type 0 where
  pub start_state : Handler HealthState
  pub vars : HealthVariables
  pub out : List Command

abbrev pub Machine : Type 0
Machine = QHsm HealthState Health

abbrev pub Reply : Type 0
Reply = QState × Machine

-- A verdict with new members.
abbrev with_members : (Machine → Reply) → Machine → Health → Reply
with_members verdict me h = verdict (record me { members = h })

abbrev handled_by : Machine → Reply
handled_by me = (handled, me)

abbrev unhandled_by : Machine → Reply
unhandled_by me = (unhandled, me)

health_initial : Machine → Reply
health_initial me = q_tran me.members.start_state me

health_global : Machine → Reply
health_global me = q_super qhsm_top me

health_alive : ℕ → Machine → Reply
health_alive sig me =
    let h = me.members in
    let healed = reset_health h.vars in
    if sig == q_entry_sig
    then with_members handled_by me
        (record h { out = set_color (get_health_color h.vars) (start_transmit_for_path h.out) })
    else if sig == q_exit_sig
    then handled_by me
    else if sig == pill_heal_sig
    then with_members handled_by me (record h {
      vars = healed;
      out = make_pill_used (set_color (get_health_color healed) h.out);
    })
    else if sig == monster_signal_sig
    then with_members handled_by me (record h { out = monster_vibro h.out })
    else if sig == pill_reset_sig
    then with_members (q_tran (state simple)) me
        (record h { vars = healed; out = set_color (get_health_color healed) h.out })
    else q_super (state global) me

health_god : ℕ → Machine → Reply
health_god sig me =
    let h = me.members in
    if sig == q_entry_sig
    then with_members handled_by me (record h {
      vars = save_health_state god_code (reset_count h.vars);
      out = god_vibro (set_color white h.out);
    })
    else if sig == q_exit_sig
    then with_members handled_by me
        (record h { vars = reset_god_pause h.vars; out = god_vibro h.out })
    else if sig == time_tick_1s_sig
    then (if leb god_threshold_s h.vars.count
        then q_tran (state god_ready) me
        else with_members handled_by me (record h { vars = increment_count h.vars }))
    else q_super (state alive) me

health_mortal : ℕ → Machine → Reply
health_mortal sig me =
    let h = me.members in
    let hurt = decrease_health default_damage h.vars in
    if sig == q_entry_sig
    then handled_by me
    else if sig == q_exit_sig
    then handled_by me
    else if sig == rad_received_sig
    then (if leb h.vars.health default_damage
        then q_tran (state dead) me
        else with_members unhandled_by me (record h {
          vars = hurt;
          out = radiation_vibro (set_color (get_health_color hurt) h.out);
        }))
    else if sig == dead_button_longpress
    then q_tran (state dead) me
    else q_super (state alive) me

health_god_ready : ℕ → Machine → Reply
health_god_ready sig me =
    let h = me.members in
    let flashed = record h { out = flash white (get_health_color h.vars) h.out } in
    if sig == q_entry_sig
    then with_members handled_by me
        (record flashed { vars = save_health_state god_ready_code h.vars })
    else if sig == q_exit_sig
    then handled_by me
    else if sig == time_tick_1m_sig
    then (if ltb 0 h.vars.god_pause
        then with_members handled_by me (record h { vars = decrement_god_pause h.vars })
        else handled_by me)
    else if sig == god_button_longpress
    then (if h.vars.god_pause == 0
        then q_tran (state god) me
        else with_members handled_by me flashed)
    else q_super (state mortal) me

health_simple : ℕ → Machine → Reply
health_simple sig me =
    let h = me.members in
    if sig == q_entry_sig
    then with_members handled_by me (record h { vars = save_health_state simple_code h.vars })
    else if sig == q_exit_sig
    then handled_by me
    else if sig == pill_god_sig
    then with_members (q_tran (state god_ready)) me (record h { vars = zero_god_pause h.vars })
    else q_super (state mortal) me

health_dead : ℕ → Machine → Reply
health_dead sig me =
    let h = me.members in
    let healed = reset_health h.vars in
    let coloured = set_color (get_health_color healed) h.out in
    if sig == q_entry_sig
    then with_members handled_by me (record h {
      vars = save_health_state dead_code (reset_count h.vars);
      out = death_vibro (stop_transmit_for_path (set_color red h.out));
    })
    else if sig == pill_heal_sig
    then with_members (q_tran (state simple)) me
        (record h { vars = healed; out = make_pill_used coloured })
    else if sig == q_exit_sig
    then handled_by me
    else if sig == pill_reset_sig
    then with_members (q_tran (state simple)) me (record h { vars = healed; out = coloured })
    else q_super (state global) me

unfoldable pub handlers : Handlers HealthState Health
unfolding health_initial health_global health_alive health_god health_mortal health_god_ready
    health_simple health_dead
handlers initial sig me = health_initial me
handlers global sig me = health_global me
handlers alive sig me = health_alive sig me
handlers god sig me = health_god sig me
handlers mortal sig me = health_mortal sig me
handlers god_ready sig me = health_god_ready sig me
handlers simple sig me = health_simple sig me
handlers dead sig me = health_dead sig me

-- The state that a code in persistent memory stands for.
unfoldable pub start_state_of : ℕ → HealthState
start_state_of code =
    if code == simple_code
    then simple
    else if code == god_ready_code
    then god_ready
    else if code == god_code
    then god
    else if code == dead_code
    then dead
    else simple

-- `Health_ctor`, for a device that has been given the commands `out`.
unfoldable pub health_ctor : Eeprom → List Command → Machine
unfolding start_state_of load ctor
health_ctor eeprom out = ctor (state initial) (record {
  start_state = state (start_state_of (read eeprom health_state_address));
  vars = load eeprom;
  out = out;
})
