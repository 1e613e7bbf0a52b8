-- ===== src/TorRadiation/Health/Life.antt =====
-- The health machine of projects/Tor_radiation over its whole life: signals and power cuts in any
-- order, from any memory that stores a player.
use native.Mathlib.Omega.{arith}
use locket_api.Prelude.{ℕ, ◌≡◌, refl, Option, none, some, List, [], ◌>>=◌}
use locket_api.Qhsm.{
  QState, state, tran, init, dispatch, bubble, conclude, cross, climb, collect, meet, enter,
  do_transition,
}
use locket_api.Qhsm.Transition.{at}
use locket_api.Qhsm.Lives.{PlaysOn, run, lives, run-lives, then-PlaysOn}
use locket_api.Api.Eeprom.{Eeprom}
use locket_api.Api.Device.{Command}
use locket_api.TorRadiation.SmData.{
  count_address, health_state_address, save_health_state, decrement_count, is_positive,
}
use locket_api.TorRadiation.Health.{
  HealthState, health_state_eq, Health, Machine, handlers, health_ctor, rad_received_sig,
}
use locket_api.TorRadiation.Health.Player.{
  Mode, healthy, Signal, Player, react, code, leaf, sig, Agrees, IsPlayer,
}
use locket_api.TorRadiation.Health.Refine.{Plays, plays, react-IsPlayer}

pub data Happening : Type 0 where
  signal : Signal → Happening
  power_cut : Happening

-- The player behind a power cut: the count is the saved one, and the random values start again.
abbrev pub revive : Player → Player
revive p = record p { count = p.saved; drawn = 0 }

pub revive-IsPlayer : (p : Player) → IsPlayer p → IsPlayer (revive p)
revive-IsPlayer p v = ground arith

-- What the memory keeps of a player.
pub record Stores (eeprom : Eeprom) (p : Player) : Type 0 where
  pub count : eeprom count_address ≡ p.saved
  pub mode : eeprom health_state_address ≡ code p.mode

pub record IsPlaying (me : Machine) (p : Player) : Type 0 where
  pub rests : me ≡ at (state (leaf p.mode)) me.members
  pub agrees : Agrees me.members p
  pub valid : IsPlayer p

module _ (rand : ℕ → ℕ) where
  -- By the rules, and by the machine.
  abbrev pub live : Happening → Player → Player
  live (signal s) p = react rand s p
  live power_cut p = revive p

  -- `OnStarted` behind the seed of the random values.
  unfoldable pub boot : Eeprom → List Command → Option Machine
  boot eeprom out = init (handlers rand) 8 0 (health_ctor eeprom out)

  unfoldable pub send : ℕ → Machine → Option Machine
  send sig me = do answer ← dispatch (handlers rand) 8 sig me; some answer.1

  unfoldable pub proceed : Happening → Machine → Option Machine
  unfolding send boot
  proceed (signal s) me = send (sig s) me
  proceed power_cut me = boot me.members.vars.eeprom []

  abbrev Starts : Option Machine → Player → Type 0
  Starts none p = ⊥
  Starts (some me) p = Plays (some (tran, me)) p

  boot_mode :
      (m : Mode) (eeprom : Eeprom) (out : List Command) (p : Player)
      → p.mode ≡ m
      → Stores eeprom p
      → Starts (boot eeprom out) (revive p)
  unfolding boot init do_transition climb cross collect meet enter handlers health_ctor
      save_health_state
  boot_mode healthy eeprom out p e s = ground arith
  boot_mode _ eeprom out p e s = ground arith

  settled :
      (o : Option (QState × Machine)) (p : Player)
      → IsPlayer p
      → Plays o p
      → PlaysOn IsPlaying (do a ← o; some a.1) p
  settled none p v h = h
  settled (some (q, me)) p v h = record { rests = h.0; agrees = h.1; valid = v }

  started : (o : Option Machine) (p : Player) → IsPlayer p → Starts o p → PlaysOn IsPlaying o p
  started none p v h = h
  started (some me) p v h = record { rests = h.0; agrees = h.1; valid = v }

  pub boot-PlaysOn :
      (eeprom : Eeprom) (out : List Command) (p : Player)
      → Stores eeprom p
      → IsPlayer p
      → PlaysOn IsPlaying (boot eeprom out) (revive p)
  boot-PlaysOn eeprom out p s v =
      started (boot eeprom out) (revive p) (revive-IsPlayer p v)
        (boot_mode p.mode eeprom out p refl s)

  pub send-PlaysOn :
      (s : Signal) (me : Machine) (p : Player)
      → IsPlaying me p
      → PlaysOn IsPlaying (send (sig s) me) (react rand s p)
  unfolding send
  send-PlaysOn s me p h = rw h.rests (
      settled _ (react rand s p) (react-IsPlayer rand s p h.valid)
        (plays rand me.members p h.valid h.agrees p.mode s refl))

  proceed-PlaysOn :
      (e : Happening) (me : Machine) (p : Player)
      → IsPlaying me p
      → PlaysOn IsPlaying (proceed e me) (live e p)
  unfolding proceed
  proceed-PlaysOn (signal s) me p h = send-PlaysOn s me p h
  proceed-PlaysOn power_cut me p h =
      boot-PlaysOn me.members.vars.eeprom [] p
        (record { count = h.agrees.stored_count; mode = h.agrees.stored_mode }) h.valid

  -- Whatever the random values are, a machine that is started from a memory that stores a player
  -- within the bounds survives all signals and power cuts, and is each time at rest in the state, with
  -- the count, the stored words and the light that the rules of the game give that player.
  pub boot-lives :
      (es : List Happening) (eeprom : Eeprom) (p : Player)
      → Stores eeprom p
      → IsPlayer p
      → PlaysOn IsPlaying (do me ← boot eeprom []; run proceed es me) (lives live es (revive p))
  boot-lives es eeprom p s v =
      then-PlaysOn IsPlaying IsPlaying (boot eeprom []) (run proceed es) (revive p)
        (lives live es (revive p)) (boot-PlaysOn eeprom [] p s v)
        (λ me. run-lives IsPlaying proceed live proceed-PlaysOn es me (revive p))

  first_hit :
      (h : Health)
      → h.vars.count ≡ 0
      → PlaysOn
          (λ me c. (me.current ≡ state HealthState.health) × (me.members.vars.count ≡ c))
          (send rad_received_sig (at (state HealthState.health) h))
          4294967295
  unfolding send dispatch bubble conclude handlers decrement_count is_positive
  first_hit h c = ground arith

  erased_on :
      (o : Option Machine)
      → Starts o (record { mode = healthy; count = 0; saved = 0; drawn = 0 })
      → PlaysOn
          (λ me c. (me.current ≡ state HealthState.health) × (me.members.vars.count ≡ c))
          (do me ← o; send rad_received_sig me)
          4294967295
  erased_on none h = h
  erased_on (some me) (h, a) = rw h (first_hit me.members a.count)

  -- A memory whose words are 0, as those of an erased one are, starts a healthy player whose count the
  -- first hit takes below 0: it becomes the largest 32-bit number, and the player stays healthy.
  pub erased-radiation :
      (eeprom : Eeprom) (out : List Command)
      → eeprom count_address ≡ 0
      → eeprom health_state_address ≡ 0
      → PlaysOn
          (λ me c. (me.current ≡ state HealthState.health) × (me.members.vars.count ≡ c))
          (do me ← boot eeprom out; send rad_received_sig me)
          4294967295
  erased-radiation eeprom out c s =
      let player : Player = record { mode = healthy; count = 0; saved = 0; drawn = 0 } in
      erased_on (boot eeprom out)
        (boot_mode healthy eeprom out player refl (record { count = c; mode = s }))
