-- ===== src/TorRadiation/Health/Refine.antt =====
-- The health machine of projects/Tor_radiation plays by the rules of its game.
use native.Mathlib.Omega.{arith}
use locket_api.Prelude.{ℕ, ◌≡◌, ◌≤◌, Option, none, some}
use locket_api.Qhsm.{
  QState, state, dispatch, cross, climb, collect, meet, enter, bubble, conclude, do_transition,
}
use locket_api.Qhsm.Transition.{at}
use locket_api.TorRadiation.SmData.{decrement_count, set_count, is_positive, save_health_state}
use locket_api.TorRadiation.Health.{
  health_state_eq, Health, Machine, handlers, generate, draw_count, min_timeout_s, max_timeout_s,
}
use locket_api.TorRadiation.Health.Player.{
  Mode, healthy, damaged, dead, Signal, minute, second, reset, radiation, Player, react, leaf, sig,
  Agrees, IsPlayer,
}

-- The machine is at rest in the player's state, and agrees with the player.
abbrev pub Plays : Option (QState × Machine) → Player → Type 0
Plays none p = ⊥
Plays (some (verdict, me)) p = (me ≡ at (state (leaf p.mode)) me.members) × Agrees me.members p

module _ (rand : ℕ → ℕ) where
  pub generate-bounds :
      (n : ℕ) → (min_timeout_s ≤ generate rand n) × (generate rand n ≤ max_timeout_s)
  unfolding generate
  generate-bounds n = (omega arith, omega arith)

  pub react-IsPlayer : (s : Signal) (p : Player) → IsPlayer p → IsPlayer (react rand s p)
  react-IsPlayer s p v = ground (arith, generate-bounds p.drawn)

  module _ (h : Health) (p : Player) (v : IsPlayer p) (a : Agrees h p) where
    pub plays :
        (m : Mode) (s : Signal)
        → p.mode ≡ m
        → Plays (dispatch (handlers rand) 8 (sig s) (at (state (leaf m)) h)) (react rand s p)
    unfolding dispatch bubble conclude do_transition climb cross collect meet enter handlers
        decrement_count set_count is_positive save_health_state draw_count
    plays healthy minute m = ground arith
    plays healthy second m = ground arith
    plays healthy reset m = ground arith
    plays healthy radiation m = ground arith
    plays damaged minute m = ground arith
    plays damaged second m = ground arith
    plays damaged reset m = ground arith
    plays damaged radiation m = ground arith
    plays dead s m = ground arith
