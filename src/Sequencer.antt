-- ===== src/Sequencer.antt =====
-- The two players of sequences: the emulator's thread (emulator/sequenceable.h) and the firmware's
-- timer handler (embedded/kl_lib/ChunkTypes.h). This file holds what they share.
pub mod Emulator
pub mod Firmware
pub mod Mirror
pub mod Equivalence
pub mod Returning
pub mod Repeat
pub mod Passes
pub mod Led
use locket_api.Prelude.{ℕ, List}
use locket_api.Api.Sequences.{ChunkType}

-- What a player reads of a chunk, and the arrays of chunks by the address of the first.
pub record Chunks (C : Type 0) : Type 1 where
  pub type_of : C → ChunkType
  pub value_of : C → ℕ
  pub flash : ℕ → List C

-- What a player does: set the device up by a chunk, wait for milliseconds, send the event of its
-- sequence's end, clear an armed timer, or switch the device off.
pub data Effect (C : Type 0) : Type 0 where
  set_up : C → Effect C
  sleep : ℕ → Effect C
  notify : ℕ → Effect C
  reset_timer : Effect C
  switch_off : Effect C

-- -1 as the 32-bit word of an `int32_t`, and the word after a decrement.
abbrev pub minus_one : ℕ
minus_one = 4294967295
