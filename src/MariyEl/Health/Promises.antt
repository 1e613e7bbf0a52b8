-- ===== src/MariyEl/Health/Promises.antt =====
-- The rules' guarantees, for the machine that plays by them.
use native.Mathlib.Omega.{arith}
use locket_api.Prelude.{◌<◌, ◌≡◌, ◌≢◌, refl, ◌∙◌, sym, ap, Option, none, some, List, [], ◌∷◌, map}
use locket_api.Qhsm.{state}
use locket_api.MariyEl.Health.{HealthState, Machine}
use locket_api.MariyEl.Health.Player.{Mode, dead, god, Signal, Player, leaf}
use locket_api.MariyEl.Health.Player.Rules.{
  reacts, NoneRevives, NoneCharges, minutes, dead_stays, god_waits,
}
use locket_api.MariyEl.Health.Life.{signal, run, lives, IsPlaying, PlaysOn, run-lives}

-- The run survives, and its machine has the property.
abbrev pub Leads : Option Machine → (Machine → Type 0) → Type 0
Leads none P = ⊥
Leads (some me) P = P me

lives_signals : (ss : List Signal) (p : Player) → lives (map signal ss) p ≡ reacts ss p
lives_signals [] p = refl
lives_signals (s ∷ ss) p = lives_signals ss _

leads :
    (o : Option Machine) (p : Player) (P : Machine → Type 0)
    → PlaysOn o p
    → ((me : Machine) → IsPlaying me p → P me)
    → Leads o P
leads none p P h k = h
leads (some me) p P h k = k me h

leaf-ne-god : (m : Mode) → m ≢ god → state (leaf m) ≢ state HealthState.god
leaf-ne-god m n e = ground arith

-- A machine that plays a dead player is dead, with the same variables, after any signals but those
-- of the two pills that revive.
pub dead_until_pill :
    (ss : List Signal) (me : Machine) (p : Player)
    → IsPlaying me p
    → p.mode ≡ dead
    → NoneRevives ss
    → Leads (run (map signal ss) me) (λ me'.
      (me'.current ≡ state HealthState.dead)
      × (me'.members.vars.health ≡ me.members.vars.health)
      × (me'.members.vars.god_pause ≡ me.members.vars.god_pause))
dead_until_pill ss me p h m n =
    leads (run (map signal ss) me) p _
      (rw (← (lives_signals ss p ∙ dead_stays ss p m n)) (run-lives (map signal ss) me p h))
      (λ me' h'. (
        ap (λ x. x.current) h'.rests ∙ ap (λ k. state (leaf k)) m,
        h'.agrees.health ∙ sym h.agrees.health,
        h'.agrees.god_pause ∙ sym h.agrees.god_pause,
      ))

-- A machine that plays a player who is no god, and is not given the pill that makes one, is not in
-- the state of a god again before its pause has passed, a minute for each signal of a minute.
pub god_after_pause :
    (ss : List Signal) (me : Machine) (p : Player)
    → IsPlaying me p
    → p.mode ≢ god
    → NoneCharges ss
    → minutes ss < me.members.vars.god_pause
    → Leads (run (map signal ss) me) (λ me'. me'.current ≢ state HealthState.god)
god_after_pause ss me p h m n k =
    leads (run (map signal ss) me) (reacts ss p) _
      (rw (← lives_signals ss p) (run-lives (map signal ss) me p h))
      (λ me' h' e.
        leaf-ne-god (reacts ss p).mode (god_waits ss p n m (omega (arith, h.agrees.god_pause)))
          (sym (ap (λ x. x.current) h'.rests) ∙ e))
