-- ===== src/Runner/Life.antt =====
-- A locket over all its turns and power cuts: the main loop with the device of
-- projects/Mariy_El_sm/player_device.cpp.
use locket_api.Api.Eeprom.{Eeprom}
use locket_api.MariyEl.Health.Player.{Player}
