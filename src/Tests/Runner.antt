-- ===== src/Tests/Runner.antt =====
-- The main loop with the player's device, at concrete turns.
use locket_api.Prelude.{ℕ, Bool, true, false, some, List, [], ◌∷◌, ◌%◌, ◌^◌, ◌==◌, if◌then◌else◌}
use locket_api.Api.Eeprom.{Eeprom, read}
use locket_api.ButtonEvents.{long_press}
use locket_api.MariyEl.Health.Player.{Mode, Player}
use locket_api.MariyEl.Health.Boot.{revive}
use locket_api.Runner.{evt_every_second, evt_buttons, evt_pill_connected, evt_shell_cmd, set_id}
use locket_api.Runner.Game.{Step, in_turn, power_cut, Owner}

-- A locket with the number 7 and a blank memory of the game.
abbrev numbered : Eeprom
numbered = λ a. if a == 0 then 7 else 0

abbrev nobody : Player
nobody = record { mode = Mode.simple; god_pause = 0; count = 0; health = 0 }

abbrev all_off : ℕ → Bool
all_off i = true

abbrev fifth_on : ℕ → Bool
fifth_on i = if i == 4 then false else true

-- A switch is flipped, the number is set, a dead button is held, and the power is cut.
abbrev day : List Step
day =
    in_turn (evt_every_second fifth_on)
    ∷ in_turn (evt_shell_cmd (set_id (some 300)))
    ∷ in_turn (evt_buttons (long_press 1))
    ∷ power_cut all_off
    ∷ in_turn (evt_pill_connected 2)
    ∷ []

abbrev owner : Owner
owner = record { player = revive nobody; id = read numbered 0 % 2 ^ 8 }
