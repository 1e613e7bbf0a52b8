-- ===== src/Api/Device.antt =====
-- What a behavior asks of the peripherals: calls of the interfaces of api/led.h, api/vibro.h,
-- api/beeper.h, api/radio.h and api/pill_manager.h, as commands in the order of the calls, the
-- newest first.
use locket_api.Prelude.{ℕ, List}
use locket_api.Api.Sequences.{LedRgbChunk, VibroChunk, BeepChunk}
use locket_api.Api.Utility.{RadioPowerLevel}

pub data Command : Type 0 where
  led_stop : Command
  led_start : List LedRgbChunk → Command
  vibro_start : List VibroChunk → Command
  beeper_start : List BeepChunk → Command
  set_beacon : ℕ → Command
  clear_beacon : Command
  set_power : RadioPowerLevel → Command
  write_pill : ℕ → Command
