-- ===== src/Ability/Life.antt =====
-- The rules of the ability of projects/sm_behavior, and a whole life of its machine.
use native.Mathlib.Omega.{arith}
use locket_api.Prelude.{ℕ, ◌+◌, ◌≡◌, ◌≤◌, refl, Option, List, [], ◌∷◌, ltb, if◌then◌else◌, ◌>>=◌}
use locket_api.Qhsm.{
  QState, state, q_user_sig, dispatch, bubble, conclude, init, cross, climb, collect, meet, enter,
  do_transition,
}
use locket_api.Qhsm.Transition.{at}
use locket_api.Qhsm.Lives.{PlaysOn, run, lives, run-lives, then-PlaysOn}
use locket_api.Api.Sequences.{start_sequence}
use locket_api.Ability.{
  AbilityState, ability_state_eq, Ability, Machine, Call, ability_save, charge_time_save,
  send_shining, flash, led_start, handlers, on_started, send, charge_to_s, flash_ms, shine_sig,
  shine_order_sig, first_button_pressed_sig, time_tick_1s_sig, reset_sig, disable_sig,
  pill_mutant_sig, none_code, mutant_ready, mutant_charging, disabled_code, charge_time_update,
  start_charging, ability_ctor,
}

pub data Mode : Type 0 where
  without disabled ready charging : Mode

-- A player of the game, with the calls so far, the last one first.
pub record Player : Type 0 where
  pub mode : Mode
  pub charge_time : ℕ
  pub calls : List Call

abbrev pub leaf : Mode → AbilityState
leaf without = AbilityState.none
leaf disabled = AbilityState.disabled
leaf ready = AbilityState.ready
leaf charging = AbilityState.charging

abbrev pub get_ready : Player → Player
get_ready p = record {
  mode = ready;
  charge_time = 0;
  calls = charge_time_save 0 ∷ ability_save mutant_ready ∷ p.calls;
}

abbrev pub start_shining : Player → Player
start_shining p = record {
  mode = charging;
  charge_time = 0;
  calls = send_shining ∷ charge_time_save 0 ∷ ability_save mutant_charging ∷ p.calls;
}

-- The signals of the game but the minute's, and those of them that no state reacts to.
pub data Idle : Type 0 where
  tick_sec shine_rcvd dmg_rcvd central_button_pressed heal die pill_heal pill_reset : Idle
  pill_tailor pill_stalker pill_local terminate : Idle

pub data Signal : Type 0 where
  shine shine_order first_button_pressed second reset disable pill_mutant : Signal
  idle : Idle → Signal

abbrev pub idle_sig : Idle → ℕ
idle_sig tick_sec = q_user_sig
idle_sig shine_rcvd = q_user_sig + 1
idle_sig dmg_rcvd = q_user_sig + 2
idle_sig central_button_pressed = q_user_sig + 6
idle_sig heal = q_user_sig + 9
idle_sig die = q_user_sig + 12
idle_sig pill_heal = q_user_sig + 13
idle_sig pill_reset = q_user_sig + 14
idle_sig pill_tailor = q_user_sig + 15
idle_sig pill_stalker = q_user_sig + 16
idle_sig pill_local = q_user_sig + 17
idle_sig terminate = q_user_sig + 19

abbrev pub sig : Signal → ℕ
sig shine = shine_sig
sig shine_order = shine_order_sig
sig first_button_pressed = first_button_pressed_sig
sig second = time_tick_1s_sig
sig reset = reset_sig
sig disable = disable_sig
sig pill_mutant = pill_mutant_sig
sig (idle i) = idle_sig i

abbrev pub tick : Player → Player
tick p =
    if ltb charge_to_s p.charge_time
    then get_ready p
    else record p { charge_time = p.charge_time + 1 }

-- What a signal means in each mode.
abbrev pub rule : Signal → Mode → Player → Player
rule disable m p = record p { mode = disabled; calls = ability_save disabled_code ∷ p.calls }
rule reset m p = record p { mode = without; calls = ability_save none_code ∷ p.calls }
rule pill_mutant without p = get_ready p
rule first_button_pressed ready p = record p { calls = flash 127 127 127 flash_ms ∷ p.calls }
rule first_button_pressed charging p = record p { calls = flash 0 0 0 flash_ms ∷ p.calls }
rule shine ready p = start_shining p
rule shine_order ready p = start_shining p
rule second charging p = tick p
rule _ _ p = p

abbrev pub react : Signal → Player → Player
react s p = rule s p.mode p

pub record IsPlaying (me : Machine) (p : Player) : Type 0 where
  pub rests : me ≡ at (state (leaf p.mode)) me.members
  pub charge : me.members.charge_time ≡ p.charge_time
  pub calls : me.members.out ≡ p.calls
  pub charged : p.charge_time ≤ charge_to_s + 1

-- The player of a device that has been switched on.
abbrev pub newcomer : Player
newcomer =
    get_ready (record { mode = ready; charge_time = 0; calls = led_start start_sequence ∷ [] })

module _ (unset : QState) where
  plays :
      (m : Mode) (s : Signal) (a : Ability) (p : Player)
      → p.mode ≡ m
      → a.charge_time ≡ p.charge_time
      → a.out ≡ p.calls
      → p.charge_time ≤ charge_to_s + 1
      → PlaysOn IsPlaying (send unset (sig s) (at (state (leaf m)) a)) (react s p)
  unfolding send dispatch bubble conclude do_transition climb cross collect meet enter handlers
      charge_time_update start_charging
  plays without shine a p m c o l = ground arith
  plays without s a p m c o l = ground arith
  plays disabled s a p m c o l = ground arith
  plays ready shine a p m c o l = ground arith
  plays ready s a p m c o l = ground arith
  plays charging second a p m c o l = ground arith
  plays charging (idle tick_sec) a p m c o l = ground arith
  plays charging s a p m c o l = ground arith

  abbrev pub proceed : Signal → Machine → Option Machine
  proceed s me = send unset (sig s) me

  proceed-PlaysOn :
      (s : Signal) (me : Machine) (p : Player)
      → IsPlaying me p
      → PlaysOn IsPlaying (proceed s me) (react s p)
  proceed-PlaysOn s me p h =
      rw h.rests (plays p.mode s me.members p refl h.charge h.calls h.charged)

  started : PlaysOn IsPlaying (on_started unset) newcomer
  unfolding on_started init do_transition climb cross collect meet enter handlers charge_time_update
      ability_ctor
  started = ground arith

  -- Whatever the unset verdict is, the machine of a behavior that has started survives all signals
  -- but the minute's, and is each time at rest in the state, with the charge time and the calls that
  -- the rules of the game give.
  pub on_started-lives :
      (ss : List Signal)
      → PlaysOn IsPlaying (do me ← on_started unset; run proceed ss me) (lives react ss newcomer)
  on_started-lives ss =
      then-PlaysOn IsPlaying IsPlaying (on_started unset) (run proceed ss) newcomer
        (lives react ss newcomer) started
        (λ me. run-lives IsPlaying proceed react proceed-PlaysOn ss me newcomer)
