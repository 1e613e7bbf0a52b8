-- ===== src/Api/Eeprom.antt =====
-- Persistent memory: api/eeprom.h, for its 32-bit values at addresses whose words do not overlap.
-- A write that fails is not modelled: the callers drop the error code.
use locket_api.Prelude.{ℕ, ◌==◌, if◌then◌else◌}

abbrev pub Eeprom : Type 0
Eeprom = ℕ → ℕ

abbrev pub read : Eeprom → ℕ → ℕ
read eeprom address = eeprom address

abbrev pub write : ℕ → ℕ → Eeprom → Eeprom
write address value eeprom = λ a. if a == address then value else eeprom a
