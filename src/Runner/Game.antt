-- ===== src/Runner/Game.antt =====
-- The main loop with the player's device of projects/Mariy_El_sm, over turns and power cuts.
use locket_api.Prelude.{
  ℕ, ◌%◌, ◌^◌, ◌≡◌, Bool, Option, none, some, List, [], ◌∷◌, ◌==◌, if◌then◌else◌, ◌>>=◌,
}
use locket_api.Api.Eeprom.{Eeprom, read}
use locket_api.Api.Device.{Command, set_power}
use locket_api.Api.Utility.{RadioPowerLevel, minus_15_dbm, id_to_radio_enum}
use locket_api.ButtonEvents.{long_press}
use locket_api.MariyEl.Health.Player.{dead_button, god_button, Player, Signal}
use locket_api.MariyEl.Health.Player.Rules.{reacts}
use locket_api.MariyEl.Health.Boot.{revive}
use locket_api.MariyEl.PlayerDevice.{
  IdOnlyState, RadBehavior, range_of, on_started, every_second, on_pill_connected,
  on_pill_disconnected, on_button_pressed, on_dip_switch_changed, on_radio_packet_received,
}
use locket_api.MariyEl.PlayerDevice.Refine.{second_signals}
use locket_api.MariyEl.PlayerDevice.Events.{pill_signals, IsDevice}
use locket_api.Runner.{
  Behavior, set_id, Turn, evt_every_second, evt_buttons, evt_pill_connected, evt_shell_cmd, Runner,
  start, turn, kept,
}

-- A `RadBehavior` before `OnStarted`.
pub record Unstarted : Type 0 where
  pub eeprom : Eeprom
  pub range_level : RadioPowerLevel
  pub out : List Command

-- It does not override `OnUartCommand`.
abbrev pub rad_behavior : Behavior
rad_behavior = record {
  Created = Unstarted;
  State = RadBehavior;
  Pill = ℕ;
  Packet = IdOnlyState;
  UartCommand = List ℕ;
  construct = λ eeprom. record { eeprom = eeprom; range_level = minus_15_dbm; out = [] };
  dip_switch_set = λ dip_value_mask b.
      let level = id_to_radio_enum (range_of dip_value_mask) in
      record b { range_level = level; out = set_power level ∷ b.out };
  on_started = λ b. on_started b.range_level b.out b.eeprom;
  every_second = every_second;
  on_pill_connected = on_pill_connected;
  on_pill_disconnected = on_pill_disconnected;
  on_button_pressed = on_button_pressed;
  on_dip_switch_changed = on_dip_switch_changed;
  on_radio_packet_received = λ p rssi. on_radio_packet_received p;
  on_uart_command = λ c b. some b;
  memory = λ b. b.the_health.members.vars.eeprom;
}

abbrev pub Locket : Type 0
Locket = Runner rad_behavior

-- What happens to a locket: a turn of its loop, or a power cut with the switches behind it.
pub data Step : Type 0 where
  in_turn : Turn rad_behavior → Step
  power_cut : (ℕ → Bool) → Step

unfoldable pub proceed : Step → Locket → Option Locket
proceed (in_turn t) r = turn rad_behavior t r
proceed (power_cut pins) r = start rad_behavior (kept rad_behavior r) pins

unfoldable pub run : List Step → Locket → Option Locket
run [] r = some r
run (s ∷ ss) r = do r' ← proceed s r; run ss r'

-- What a user knows of a locket: the player, and its number.
pub record Owner : Type 0 where
  pub player : Player
  pub id : ℕ

unfoldable pub turn_signals : Turn rad_behavior → Locket → List Signal
turn_signals (evt_every_second pins) r = second_signals r.state
turn_signals (evt_buttons (long_press i)) r = (if i == 1 then dead_button else god_button) ∷ []
turn_signals (evt_pill_connected id) r = pill_signals id
turn_signals _ r = []

unfoldable pub turn_id : Turn rad_behavior → ℕ → ℕ
turn_id (evt_shell_cmd (set_id (some new_id))) id = new_id % 2 ^ 8
turn_id _ id = id

unfoldable pub after : Step → Locket → Owner → Owner
after (in_turn t) r o = record { player = reacts (turn_signals t r) o.player; id = turn_id t o.id }
after (power_cut pins) r o = record o { player = revive o.player }

unfoldable pub after_all : List Step → Locket → Owner → Owner
after_all [] r o = o
after_all (s ∷ ss) r o = elim (proceed s r) [ none ↦ o | some r' ↦ after_all ss r' (after s r o) ]

-- The locket plays the owner's player, has the owner's number, also in its memory, and has the power
-- level that the switches chose when they were last read.
pub record IsLocket (r : Locket) (o : Owner) : Type 0 where
  pub device : IsDevice r.state o.player
  pub level : r.state.range_level ≡ id_to_radio_enum (range_of r.previous_dip_value)
  pub id : r.id ≡ o.id
  pub stored_id : read r.reserved 0 % 2 ^ 8 ≡ o.id

abbrev pub Serves : Option Locket → Owner → Type 0
Serves none o = ⊥
Serves (some r) o = IsLocket r o
