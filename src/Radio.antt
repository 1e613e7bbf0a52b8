-- ===== src/Radio.antt =====
-- The radio of the firmware, many to many: embedded/Radio/radio_lvl2.h. This file holds the packets
-- and the constants.
pub mod Time
pub mod Slots
pub mod Level2
pub mod Level1
pub mod Saying
pub mod Payloads
use locket_api.Prelude.{ℕ, Bool, Option}

pub record RadioPacketMetadata : Type 0 where
  pub id : ℕ
  pub cycle_n : ℕ
  pub time_src_id : ℕ

-- `none` is a packet whose `payload_present` is false.
pub record FullRadioPacket (P : Type 0) : Type 0 where
  pub payload : Option P
  pub metadata : RadioPacketMetadata

abbrev pub id_max : ℕ
id_max = 50

abbrev pub rcycle_cnt : ℕ
rcycle_cnt = 4

abbrev pub rslot_cnt : ℕ
rslot_cnt = 51

abbrev pub end_of_pkt_shift_tics : ℕ
end_of_pkt_shift_tics = 235

abbrev pub scycles_to_keep_timesrc : ℕ
scycles_to_keep_timesrc = 4
