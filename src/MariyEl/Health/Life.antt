-- ===== src/MariyEl/Health/Life.antt =====
-- The health machine over its whole life: signals and power cuts in any order, from any memory that
-- stores a player.
use locket_api.Prelude.{ℕ, ◌≡◌, refl, Option, none, some, List, [], ◌∷◌, ◌>>=◌}
use locket_api.Qhsm.{QState, state, dispatch}
use locket_api.Qhsm.Transition.{at}
use locket_api.Api.Eeprom.{Eeprom}
use locket_api.MariyEl.Health.{health_state_eq, Health, Machine, handlers}
use locket_api.MariyEl.Health.Player.{
  Signal, Player, react, react-IsPlayer, leaf, sig, Agrees, IsPlayer,
}
use locket_api.MariyEl.Health.Refine.{Plays, dispatch-react}
use locket_api.MariyEl.Health.Boot.{boot, boot-Starts, Stores, Starts, revive, revive-IsPlayer}

pub data Happening : Type 0 where
  signal : Signal → Happening
  power_cut : Happening

-- By the rules, and by the machine.
abbrev pub live : Happening → Player → Player
live (signal s) p = react s p
live power_cut p = revive p

unfoldable pub send : ℕ → Machine → Option Machine
send sig me = do answer ← dispatch handlers 8 sig me; some answer.1

unfoldable pub proceed : Happening → Machine → Option Machine
proceed (signal s) me = send (sig s) me
proceed power_cut me = boot me.members.vars.eeprom []

abbrev pub lives : List Happening → Player → Player
lives [] p = p
lives (e ∷ es) p = lives es (live e p)

unfoldable pub run : List Happening → Machine → Option Machine
run [] me = some me
run (e ∷ es) me = do me' ← proceed e me; run es me'

pub record IsPlaying (me : Machine) (p : Player) : Type 0 where
  pub rests : me ≡ at (state (leaf p.mode)) me.members
  pub agrees : Agrees me.members p
  pub valid : IsPlayer p

-- The run survives, and its machine plays the player.
abbrev pub PlaysOn : Option Machine → Player → Type 0
PlaysOn none p = ⊥
PlaysOn (some me) p = IsPlaying me p

settled :
    (o : Option (QState × Machine)) (p : Player)
    → IsPlayer p
    → Plays o p
    → PlaysOn (do a ← o; some a.1) p
settled none p v h = h
settled (some (q, me)) p v h = record { rests = h.0; agrees = h.1; valid = v }

-- One signal, sent to a machine that plays a player.
pub send-PlaysOn :
    (s : Signal) (me : Machine) (p : Player)
    → IsPlaying me p
    → PlaysOn (send (sig s) me) (react s p)
unfolding send
send-PlaysOn s me p h = rw h.rests (
    settled _ (react s p) (react-IsPlayer s p h.valid)
      (dispatch-react s me.members p h.valid h.agrees))

pub Agrees-Stores : (h : Health) (p : Player) → Agrees h p → Stores h.vars.eeprom p
Agrees-Stores h p a = record {
  god_pause = a.stored_god_pause;
  count = a.stored_count;
  health = a.stored_health;
  mode = a.stored_mode;
}

pub started : (o : Option Machine) (p : Player) → IsPlayer p → Starts o p → PlaysOn o p
started none p v h = h
started (some me) p v h = record { rests = h.0; agrees = h.1; valid = v }

proceed-PlaysOn :
    (e : Happening) (me : Machine) (p : Player) → IsPlaying me p → PlaysOn (proceed e me) (live e p)
unfolding proceed
proceed-PlaysOn (signal s) me p h = send-PlaysOn s me p h
proceed-PlaysOn power_cut me p h =
    started _ (revive p) (revive-IsPlayer p h.valid)
      (boot-Starts me.members.vars.eeprom [] p refl (Agrees-Stores me.members p h.agrees))

run_on :
    (o : Option Machine) (es : List Happening) (p : Player)
    → PlaysOn o p
    → ((me : Machine) → IsPlaying me p → PlaysOn (run es me) (lives es p))
    → PlaysOn (do me ← o; run es me) (lives es p)
run_on none es p h k = h
run_on (some me) es p h k = k me h

pub run-lives :
    (es : List Happening) (me : Machine) (p : Player)
    → IsPlaying me p
    → PlaysOn (run es me) (lives es p)
unfolding run
run-lives [] me p h = h
run-lives (e ∷ es) me p h =
    run_on (proceed e me) es (live e p) (proceed-PlaysOn e me p h)
      (λ me'. run-lives es me' (live e p))

-- Started from a memory that stores a player within the bounds, the machine never gets stuck and
-- never leaves the states at rest, whatever signals and power cuts come: it is always where the
-- rules put that player, in the variables, in the memory and on the radio.
pub boot-run :
    (es : List Happening) (eeprom : Eeprom) (p : Player)
    → Stores eeprom p
    → IsPlayer p
    → PlaysOn (do me ← boot eeprom []; run es me) (lives es (revive p))
boot-run es eeprom p s v =
    run_on (boot eeprom []) es (revive p)
      (started _ (revive p) (revive-IsPlayer p v) (boot-Starts eeprom [] p refl s))
      (λ me. run-lives es me (revive p))
