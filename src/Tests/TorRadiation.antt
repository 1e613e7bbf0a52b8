-- ===== src/Tests/TorRadiation.antt =====
-- The theorems on the game of projects/Tor_radiation, applied to a player.
use native.Mathlib.Omega.{arith}
use locket_api.Prelude.{ℕ, ◌≡◌, refl, [], ◌∷◌, ◌>>=◌}
use locket_api.Qhsm.{state}
use locket_api.Qhsm.Transition.{at}
use locket_api.Qhsm.Lives.{PlaysOn, run, lives}
use locket_api.Api.Eeprom.{Eeprom, write}
use locket_api.Api.RxTable.Laws.{IsTable}
use locket_api.Api.Utility.{minus_15_dbm}
use locket_api.MariyEl.PlayerDevice.{packet_id, table_size}
use locket_api.Api.Color.{light_green}
use locket_api.TorRadiation.Health.{
  set_color, HealthState, health_state_eq, Machine, rad_received_sig,
}
use locket_api.TorRadiation.Health.Player.{Player, damaged, radiation, IsPlayer}
use locket_api.TorRadiation.Health.Life.{
  signal, power_cut, revive, IsPlaying, live, boot, send, proceed, boot-lives, erased-radiation,
}
use locket_api.TorRadiation.PlayerDevice.{RadBehavior, every_second}
use locket_api.TorRadiation.PlayerDevice.Radiation.{Device, hits, every_second-hits}

abbrev dice : ℕ → ℕ
dice n = n

abbrev memory : Eeprom
memory = write 8 1 (write 0 120 (λ a. 0))

abbrev victim : Player
victim = record { mode = damaged; count = 100; saved = 120; drawn = 0 }

victim-IsPlayer : IsPlayer victim
victim-IsPlayer = record { word = omega arith; counts = omega arith }

boot-lives_example :
    PlaysOn IsPlaying
      (do me ← boot dice memory []; run (proceed dice) (signal radiation ∷ power_cut ∷ []) me)
      (lives (live dice) (signal radiation ∷ power_cut ∷ []) (revive victim))
boot-lives_example =
    boot-lives dice (signal radiation ∷ power_cut ∷ []) memory victim
      (record { count = refl; mode = refl }) victim-IsPlayer

erased-radiation_example :
    PlaysOn
      (λ (me : Machine) c. (me.current ≡ state HealthState.health) × (me.members.vars.count ≡ c))
      (do me ← boot dice (λ a. 0) []; send dice rad_received_sig me)
      4294967295
erased-radiation_example = erased-radiation dice (λ a. 0) [] refl refl

abbrev hurt : Machine
hurt = at (state HealthState.damaged) (record {
  start_state = state HealthState.damaged;
  vars = record { count = 100; eeprom = memory };
  drawn = 0;
  out = set_color light_green [];
})

hurt-IsPlaying : IsPlaying hurt (record victim { count = 100 })
hurt-IsPlaying = record {
  rests = refl;
  agrees = record {
    count = refl;
    stored_count = refl;
    stored_mode = refl;
    drawn = refl;
    light = refl;
  };
  valid = victim-IsPlayer;
}

abbrev near_two : RadBehavior
near_two = record {
  the_health = hurt;
  rx_table = record { id = 3 } ∷ record { id = 15 } ∷ [];
  range_level = minus_15_dbm;
  s_counter = 59;
}

near_two-IsTable : IsTable packet_id table_size near_two.rx_table
near_two-IsTable = record { distinct = ((refl, tt), (tt, tt)); fits = omega arith }

every_second-hits_example :
    PlaysOn (Device []) (every_second dice near_two) (hits dice 2 (record victim { count = 100 }))
every_second-hits_example =
    every_second-hits dice near_two (record victim { count = 100 }) hurt-IsPlaying near_two-IsTable
      (omega arith)
