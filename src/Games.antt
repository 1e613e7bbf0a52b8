-- ===== src/Games.antt =====
-- Behaviors of games that need no hierarchical state machine: projects/springwind_behavior,
-- projects/kirlits_behavior and projects/vetta_behavior.
pub mod Winds
pub mod Kirlits
pub mod Vetta
