-- ===== src/TorRadiation.antt =====
-- The game of projects/Tor_radiation: a health machine of three states, and the player's device.
pub mod SmData
pub mod Health
pub mod PlayerDevice
