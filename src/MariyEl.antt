-- ===== src/MariyEl.antt =====
-- The Mariy El game, projects/Mariy_El_sm: a player's device, whose health is a state machine.
pub mod SmData
pub mod Show
pub mod Health
pub mod PlayerDevice
