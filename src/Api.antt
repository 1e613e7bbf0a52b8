-- ===== src/Api.antt =====
-- The interfaces that project code is written against: the directory api/.
pub mod Color
pub mod Sequences
pub mod RxTable
pub mod Utility
pub mod Eeprom
pub mod Device
