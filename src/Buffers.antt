-- ===== src/Buffers.antt =====
-- The buffers of the firmware: embedded/kl_lib/kl_buf.h.
pub mod CircBuf
pub mod Ring
pub mod Queue
pub mod Stacks
pub mod Slots
pub mod IdList
use locket_api.Prelude.{ℕ}

-- The codes of embedded/kl_lib/kl_lib.h that the buffers return.
pub data Retv : Type 0 where
  ok fail timeout empty overflow : Retv
