-- ===== src/Tests/Device.antt =====
-- The player's device at concrete inputs.
use native.Mathlib.Omega.{arith}
use locket_api.Prelude.{refl, true, [], ◌∷◌}
use locket_api.Qhsm.{state}
use locket_api.Qhsm.Transition.{at}
use locket_api.Api.Eeprom.{Eeprom}
use locket_api.Api.Device.{set_beacon, set_power}
use locket_api.Api.Utility.{minus_15_dbm, plus_5_dbm}
use locket_api.Api.RxTable.{has_packet_with_id}
use locket_api.MariyEl.Health.{simple, Machine}
use locket_api.MariyEl.Health.Player.{Mode, Player, radiation, second, minute}
use locket_api.MariyEl.Health.Player.Rules.{reacts}
use locket_api.MariyEl.Health.Boot.{revive}
use locket_api.MariyEl.Health.Life.{IsPlaying}
use locket_api.MariyEl.PlayerDevice.{RadBehavior, fresh, on_started, every_second}
use locket_api.MariyEl.PlayerDevice.Refine.{Gives, every_second-Gives}
use locket_api.MariyEl.PlayerDevice.Events.{
  second_passed, button, pill_in, handle_all, all_signals, Follows, handle_all-Follows,
  on_started-Follows,
}

-- A blank memory is that of a simple player without health.
abbrev blank : Eeprom
blank = λ a. 0

abbrev blank_player : Player
blank_player = record { mode = Mode.simple; god_pause = 0; count = 0; health = 0 }

abbrev started_machine : Machine
started_machine = at (state simple) (record {
  start_state = state simple;
  vars = record { god_pause = 0; count = 0; health = 0; eeprom = blank };
  out = set_beacon 1 ∷ [];
})

abbrev irradiated : RadBehavior
irradiated = record (fresh minus_15_dbm started_machine) {
  rx_table = record { id = 3 } ∷ [];
  s_counter = 59;
  rad_s_counter = 4;
}

started_machine-IsPlaying : IsPlaying started_machine blank_player
started_machine-IsPlaying = record {
  rests = refl;
  agrees = record {
    god_pause = refl;
    count = refl;
    health = refl;
    stored_god_pause = refl;
    stored_count = refl;
    stored_health = refl;
    stored_mode = refl;
    path = refl;
  };
  valid = omega arith;
}

on_started-Follows_example :
    Follows (on_started plus_5_dbm (set_power plus_5_dbm ∷ []) blank) (revive blank_player)
on_started-Follows_example =
    on_started-Follows plus_5_dbm (set_power plus_5_dbm ∷ []) blank blank_player refl (omega arith)
      (omega arith)

every_second-Gives_example :
    Gives
      (every_second irradiated)
      (record irradiated { rx_table = []; s_counter = 0; rad_s_counter = 0 })
      (reacts (second ∷ minute ∷ radiation ∷ []) blank_player)
unfolding has_packet_with_id
every_second-Gives_example = every_second-Gives irradiated blank_player started_machine-IsPlaying

handle_all-Follows_example :
    Follows (handle_all (pill_in 1 ∷ second_passed ∷ button 1 true ∷ []) irradiated) (
      reacts (all_signals (pill_in 1 ∷ second_passed ∷ button 1 true ∷ []) irradiated) blank_player)
handle_all-Follows_example =
    handle_all-Follows (pill_in 1 ∷ second_passed ∷ button 1 true ∷ []) irradiated blank_player
      (record {
        plays = started_machine-IsPlaying;
        table = record { distinct = (tt, tt); fits = omega arith };
      })
