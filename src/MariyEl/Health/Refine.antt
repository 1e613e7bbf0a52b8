-- ===== src/MariyEl/Health/Refine.antt =====
-- The health machine plays by the rules of the game: every signal, in every state at rest.
use native.Mathlib.Omega.{arith}
use locket_api.Prelude.{◌≡◌, refl, Option, none, some}
use locket_api.Qhsm.{
  QState, state, dispatch, cross, climb, collect, meet, enter, bubble, conclude, do_transition,
}
use locket_api.Qhsm.Transition.{at}
use locket_api.MariyEl.SmData.{
  reset_health, decrement_god_pause, decrease_health, reset_god_pause, zero_god_pause,
  increment_count, reset_count, save_health_state,
}
use locket_api.MariyEl.Health.{HealthState, health_state_eq, Health, Machine, handlers}
use locket_api.MariyEl.Health.Player.{
  Mode, simple, god_ready, god, dead, Signal, minute, Player, react, leaf, sig, Agrees, IsPlayer,
}

-- The machine is at rest in the player's state, and agrees with the player.
abbrev pub Plays : Option (QState × Machine) → Player → Type 0
Plays none p = ⊥
Plays (some (verdict, me)) p = (me ≡ at (state (leaf p.mode)) me.members) × Agrees me.members p

-- Evaluates the processor and the handlers for each signal in one state.
module _ (h : Health) (p : Player) (v : IsPlayer p) (a : Agrees h p) where
  simple-Plays :
      (s : Signal)
      → p.mode ≡ simple
      → Plays (dispatch handlers 8 (sig s) (at (state HealthState.simple) h)) (react s p)
  unfolding dispatch bubble conclude do_transition climb cross collect meet enter handlers
      reset_health decrement_god_pause decrease_health reset_god_pause zero_god_pause
      increment_count reset_count save_health_state
  simple-Plays minute m = ground arith
  simple-Plays _ m = ground arith

  god_ready-Plays :
      (s : Signal)
      → p.mode ≡ god_ready
      → Plays (dispatch handlers 8 (sig s) (at (state HealthState.god_ready) h)) (react s p)
  unfolding dispatch bubble conclude do_transition climb cross collect meet enter handlers
      reset_health decrement_god_pause decrease_health reset_god_pause zero_god_pause
      increment_count reset_count save_health_state
  god_ready-Plays minute m = ground arith
  god_ready-Plays _ m = ground arith

  god-Plays :
      (s : Signal)
      → p.mode ≡ god
      → Plays (dispatch handlers 8 (sig s) (at (state HealthState.god) h)) (react s p)
  unfolding dispatch bubble conclude do_transition climb cross collect meet enter handlers
      reset_health decrement_god_pause decrease_health reset_god_pause zero_god_pause
      increment_count reset_count save_health_state
  god-Plays minute m = ground arith
  god-Plays _ m = ground arith

  dead-Plays :
      (s : Signal)
      → p.mode ≡ dead
      → Plays (dispatch handlers 8 (sig s) (at (state HealthState.dead) h)) (react s p)
  unfolding dispatch bubble conclude do_transition climb cross collect meet enter handlers
      reset_health decrement_god_pause decrease_health reset_god_pause zero_god_pause
      increment_count reset_count save_health_state
  dead-Plays minute m = ground arith
  dead-Plays _ m = ground arith

  plays :
      (m : Mode) (s : Signal)
      → p.mode ≡ m
      → Plays (dispatch handlers 8 (sig s) (at (state (leaf m)) h)) (react s p)
  plays simple s e = simple-Plays s e
  plays god_ready s e = god_ready-Plays s e
  plays god s e = god-Plays s e
  plays dead s e = dead-Plays s e

-- A machine at rest that agrees with a player within the bounds takes every signal to rest in the
-- state, with the variables, the stored words and the beacon that the rules give.
pub dispatch-react :
    (s : Signal) (h : Health) (p : Player)
    → IsPlayer p
    → Agrees h p
    → Plays (dispatch handlers 8 (sig s) (at (state (leaf p.mode)) h)) (react s p)
dispatch-react s h p v a = plays h p v a p.mode s refl
