-- ===== src/MariyEl/Health/Player/Rules.antt =====
-- What the rules of the game guarantee, over every list of signals.
use native.Mathlib.Omega.{arith}
use locket_api.Prelude.{
  ℕ, suc, ◌+◌, ◌≤◌, ◌<◌, ◌≡◌, ◌≢◌, refl, ◌⊎◌, ◌↔◌, List, [], ◌∷◌, true, false, Bool, ap, ◌∙◌,
}
use locket_api.MariyEl.SmData.{default_hp}
use locket_api.MariyEl.Health.{default_damage}
use locket_api.MariyEl.Health.Player.{
  god, dead, Signal, minute, heal, reset, become_god, dead_button, radiation, Player, react,
}

abbrev pub reacts : List Signal → Player → Player
reacts [] p = p
reacts (s ∷ ss) p = reacts ss (react s p)

-- Neither of the two pills that revive.
abbrev pub revives : Signal → Bool
revives heal = true
revives reset = true
revives _ = false

abbrev pub NoneRevives : List Signal → Type 0
NoneRevives [] = Unit
NoneRevives (s ∷ ss) = (revives s ≡ false) × NoneRevives ss

dead_step : (s : Signal) (p : Player) → p.mode ≡ dead → revives s ≡ false → react s p ≡ p
dead_step s p m r = ground arith

pub dead_stays : (ss : List Signal) (p : Player) → p.mode ≡ dead → NoneRevives ss → reacts ss p ≡ p
dead_stays [] p m n = refl
dead_stays (s ∷ ss) p m n =
    let still = dead_step s p m n.0 in ap (reacts ss) still ∙ dead_stays ss p m n.1

-- A player dies of a signal exactly as a mortal: by radiation at the last points, or by the button.
pub dies_iff :
    (s : Signal) (p : Player)
    → p.mode ≢ dead
    → ((react s p).mode ≡ dead)
      ↔ ((p.mode ≢ god) × ((s ≡ dead_button) ⊎ ((s ≡ radiation) × (p.health ≤ default_damage))))
dies_iff s p n = ground arith

-- The health of a god never falls, and only radiation takes health from anybody.
pub health_loss :
    (s : Signal) (p : Player)
    → p.health ≤ default_hp
    → (react s p).health < p.health
    → (s ≡ radiation) × (p.mode ≢ god) × (p.health ≡ (react s p).health + default_damage)
health_loss s p c h = ground arith

abbrev pub minutes : List Signal → ℕ
minutes [] = 0
minutes (minute ∷ ss) = suc (minutes ss)
minutes (_ ∷ ss) = minutes ss

abbrev pub NoneCharges : List Signal → Type 0
NoneCharges [] = Unit
NoneCharges (s ∷ ss) = (s ≢ become_god) × NoneCharges ss

waits_step :
    (s : Signal) (p : Player)
    → s ≢ become_god
    → p.mode ≢ god
    → 0 < p.god_pause
    → ((react s p).mode ≢ god) × (p.god_pause ≤ (react s p).god_pause + minutes (s ∷ []))
waits_step s p n m h = ground arith

-- Without the pill that makes a god, nobody is a god again before the pause has passed.
pub god_waits :
    (ss : List Signal) (p : Player)
    → NoneCharges ss
    → p.mode ≢ god
    → minutes ss < p.god_pause
    → (reacts ss p).mode ≢ god
god_waits [] p n m h = m
god_waits (minute ∷ ss) p n m h =
    let w = waits_step minute p n.0 m (omega arith) in
    god_waits ss (react minute p) n.1 w.0 (omega (arith, w.1))
god_waits (s ∷ ss) p n m h =
    let w = waits_step s p n.0 m (omega arith) in
    god_waits ss (react s p) n.1 w.0 (omega (arith, w.1))
