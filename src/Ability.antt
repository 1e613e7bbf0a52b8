-- ===== src/Ability.antt =====
-- The ability of projects/sm_behavior: the machine of ability.h and ability.cpp over the processor,
-- eventHandlers.cpp, and the behavior of sm_behavior.cpp. The functions of Glue.h have empty bodies;
-- their calls, and those of the device's `Flash`, are recorded. The texts it prints, and the state
-- `Ability_final`, which nothing enters, are left out. `EverySecond` of the behavior does nothing.
pub mod Life
use locket_api.Prelude.{
  ℕ, ◌+◌, ◌%◌, ◌^◌, ◌≡◌, ◌↔◌, true, Option, some, List, [], ◌∷◌, Eq, ltb, ◌==◌, if◌then◌else◌,
  ◌>>=◌, arith,
}
use locket_api.Api.Sequences.{LedRgbChunk, start_sequence}
use locket_api.Qhsm.{
  QState, handled, Handler, qhsm_top, state, QHsm, Handlers, q_tran, q_super, ctor, init, dispatch,
  q_entry_sig, q_exit_sig, q_user_sig,
}

-- The handlers, by the names of their states.
pub data AbilityState : Type 0 where
  initial global ability none disabled mutant ready charging : AbilityState

abbrev pub index : AbilityState → ℕ
index initial = 0
index global = 1
index ability = 2
index none = 3
index disabled = 4
index mutant = 5
index ready = 6
index charging = 7

pub index_iff : (a b : AbilityState) → ((index a == index b) ≡ true) ↔ (a ≡ b)
index_iff a b = ground arith

instance abbrev pub ability_state_eq : Eq AbilityState
ability_state_eq = record { beq = λ a b. index a == index b; beq_iff = index_iff }

abbrev pub none_code : ℕ
none_code = 0

abbrev pub mutant_ready : ℕ
mutant_ready = 1

abbrev pub mutant_charging : ℕ
mutant_charging = 2

abbrev pub disabled_code : ℕ
disabled_code = 3

abbrev pub charge_to_s : ℕ
charge_to_s = 30

abbrev pub flash_ms : ℕ
flash_ms = 500

abbrev pub shine_sig : ℕ
shine_sig = q_user_sig + 3

abbrev pub shine_order_sig : ℕ
shine_order_sig = q_user_sig + 4

abbrev pub first_button_pressed_sig : ℕ
first_button_pressed_sig = q_user_sig + 5

abbrev pub time_tick_1s_sig : ℕ
time_tick_1s_sig = q_user_sig + 7

abbrev pub time_tick_1m_sig : ℕ
time_tick_1m_sig = q_user_sig + 8

abbrev pub reset_sig : ℕ
reset_sig = q_user_sig + 10

abbrev pub disable_sig : ℕ
disable_sig = q_user_sig + 11

abbrev pub pill_mutant_sig : ℕ
pill_mutant_sig = q_user_sig + 18

-- The calls that leave the machine.
pub data Call : Type 0 where
  ability_save : ℕ → Call
  charge_time_save : ℕ → Call
  send_shining : Call
  flash : ℕ → ℕ → ℕ → ℕ → Call
  led_start : List LedRgbChunk → Call

-- The members of `Ability` behind its `QHsm`, and the calls, the last one first.
pub record Ability : Type 0 where
  pub charge_time : ℕ
  pub start_state : Handler AbilityState
  pub out : List Call

abbrev pub Machine : Type 0
Machine = QHsm AbilityState Ability

abbrev pub Reply : Type 0
Reply = QState × Machine

unfoldable pub charge_time_update : ℕ → Ability → Ability
charge_time_update time a = record a { charge_time = time; out = charge_time_save time ∷ a.out }

abbrev pub save : ℕ → Ability → Ability
save code a = record a { out = ability_save code ∷ a.out }

abbrev pub with_members : Ability → Machine → Machine
with_members a me = record me { members = a }

unfoldable pub start_state_of : ℕ → AbilityState
start_state_of code =
    if code == none_code
    then none
    else if code == mutant_ready
    then ready
    else if code == mutant_charging
    then charging
    else if code == disabled_code
    then disabled
    else none

-- `Ability_ctor`, behind the calls `out`.
unfoldable pub ability_ctor : ℕ → ℕ → List Call → Machine
unfolding start_state_of ctor
ability_ctor code charge_time out =
    ctor (state initial)
      (record { charge_time = charge_time; start_state = state (start_state_of code); out = out })

ability_initial : Machine → Reply
ability_initial me = q_tran me.members.start_state me

ability_ability : ℕ → Machine → Reply
ability_ability sig me =
    if sig == q_entry_sig
    then (handled, me)
    else if sig == q_exit_sig
    then (handled, me)
    else if sig == disable_sig
    then q_tran (state disabled) me
    else if sig == reset_sig
    then q_tran (state none) me
    else q_super (state global) me

ability_none : ℕ → Machine → Reply
ability_none sig me =
    if sig == q_entry_sig
    then (handled, with_members (save none_code me.members) me)
    else if sig == q_exit_sig
    then (handled, me)
    else if sig == pill_mutant_sig
    then q_tran (state ready) me
    else q_super (state ability) me

ability_disabled : ℕ → Machine → Reply
ability_disabled sig me =
    if sig == q_entry_sig
    then (handled, with_members (save disabled_code me.members) me)
    else if sig == q_exit_sig
    then (handled, me)
    else q_super (state ability) me

ability_mutant : ℕ → Machine → Reply
ability_mutant sig me =
    if sig == q_entry_sig
    then (handled, me)
    else if sig == q_exit_sig
    then (handled, me)
    else q_super (state ability) me

ability_ready : ℕ → Machine → Reply
unfolding charge_time_update
ability_ready sig me =
    let a = me.members in
    if sig == q_entry_sig
    then (handled, with_members (charge_time_update 0 (save mutant_ready a)) me)
    else if sig == q_exit_sig
    then (handled, me)
    else if sig == first_button_pressed_sig
    then (handled, with_members (record a { out = flash 127 127 127 flash_ms ∷ a.out }) me)
    else if sig == shine_sig
    then q_tran (state charging) me
    else if sig == shine_order_sig
    then q_tran (state charging) me
    else q_super (state mutant) me

-- `SendShining` behind the two updates of the entry.
unfoldable pub start_charging : Ability → Ability
unfolding charge_time_update
start_charging a =
    let updated = charge_time_update 0 (save mutant_charging a) in
    record updated { out = send_shining ∷ updated.out }

-- `unset` is what the variable for the verdict holds where nothing has been assigned to it.
module _ (unset : QState) where
  ability_charging : ℕ → Machine → Reply
  unfolding start_charging
  ability_charging sig me =
      let a = me.members in
      if sig == q_entry_sig
      then (handled, with_members (start_charging a) me)
      else if sig == q_exit_sig
      then (handled, me)
      else if sig == first_button_pressed_sig
      then (handled, with_members (record a { out = flash 0 0 0 flash_ms ∷ a.out }) me)
      else if sig == time_tick_1s_sig
      then (if ltb charge_to_s a.charge_time
          then q_tran (state ready) me
          else (handled, with_members (record a { charge_time = (a.charge_time + 1) % 2 ^ 32 }) me))
      else if sig == time_tick_1m_sig
      then (unset, with_members (record a { out = charge_time_save a.charge_time ∷ a.out }) me)
      else q_super (state mutant) me

  unfoldable pub handlers : Handlers AbilityState Ability
  unfolding ability_initial ability_ability ability_none ability_disabled ability_mutant
      ability_ready ability_charging
  handlers initial sig me = ability_initial me
  handlers global sig me = q_super qhsm_top me
  handlers ability sig me = ability_ability sig me
  handlers none sig me = ability_none sig me
  handlers disabled sig me = ability_disabled sig me
  handlers mutant sig me = ability_mutant sig me
  handlers ready sig me = ability_ready sig me
  handlers charging sig me = ability_charging sig me

  unfoldable pub on_started : Option Machine
  unfolding ability_ctor
  on_started = init handlers 8 0 (ability_ctor mutant_ready 0 (led_start start_sequence ∷ []))

  unfoldable pub send : ℕ → Machine → Option Machine
  send sig me = do answer ← dispatch handlers 8 sig me; some answer.1

  -- The signal of the event is never set: it is what the memory of the event holds.
  pub on_button_pressed : ℕ → Machine → Option Machine
  on_button_pressed unset_sig me = send unset_sig me
