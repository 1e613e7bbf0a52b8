-- ===== src/Tests.antt =====
-- Tests of the definitions and instances of the theorems, by component.
mod Machine
mod Ability
mod Device
mod Games
mod Api
mod Players
mod Led
mod Buffers
mod ButtonEvents
mod Queues
mod Pill
mod Runner
mod Radio
mod Shell
mod TorRadiation
