-- ===== src/Radio/Time.antt =====
-- The time of the radio, slots in cycles in supercycles: `RadioTime_t` of
-- embedded/Radio/radio_lvl2.h. `id` is `g_config.ID`.
use locket_api.Prelude.{
  ℕ, ◌+◌, ◌%◌, Bool, true, false, List, [], ◌∷◌, ◌++◌, leb, ◌==◌, if◌then◌else◌,
}
use locket_api.Radio.{RadioPacketMetadata, rcycle_cnt, rslot_cnt, scycles_to_keep_timesrc}

-- `cycle_n` and `time_slot` are `uint8_t`, the others `uint16_t`.
pub record RadioTime : Type 0 where
  pub cycle_n : ℕ
  pub time_slot : ℕ
  pub time_src_id : ℕ
  pub time_src_timeout : ℕ

-- The calls of the radio that the time makes.
pub data Wish : Type 0 where
  reception transmission sleep : Wish

unfoldable pub inc_cycle : ℕ → RadioTime → RadioTime × List Wish
inc_cycle id t =
    let cycle = (t.cycle_n + 1) % 256 in
    if leb rcycle_cnt cycle
    then (
      (if leb scycles_to_keep_timesrc t.time_src_timeout
          then record t { time_slot = 0; cycle_n = 0; time_src_id = id }
          else record t {
            time_slot = 0;
            cycle_n = 0;
            time_src_timeout = (t.time_src_timeout + 1) % 65536;
          }),
      reception ∷ [],
    )
    else (record t { time_slot = 0; cycle_n = cycle }, [])

unfoldable pub inc_time_slot : ℕ → RadioTime → RadioTime × List Wish
unfolding inc_cycle
inc_time_slot id t =
    let slot = (t.time_slot + 1) % 256 in
    if leb rslot_cnt slot then inc_cycle id t else (record t { time_slot = slot }, [])

-- The time after a packet, and whether the hardware timer is set to the end of a packet.
unfoldable pub adjust_i : RadioPacketMetadata → RadioTime → RadioTime × Bool
adjust_i metadata t =
    if leb metadata.time_src_id t.time_src_id
    then (
      record {
        cycle_n = metadata.cycle_n;
        time_slot = metadata.id;
        time_src_id = metadata.time_src_id;
        time_src_timeout = 0;
      },
      true,
    )
    else (t, false)

-- What the time wants of the radio in the slot that has begun.
unfoldable pub wish_of : ℕ → RadioTime → Wish
wish_of id t =
    if t.time_slot == id then transmission else if t.cycle_n == 0 then reception else sleep

unfoldable pub on_timer_i : ℕ → RadioTime → RadioTime × List Wish
unfolding inc_time_slot wish_of
on_timer_i id t = let r = inc_time_slot id t in (r.0, r.1 ++ (wish_of id r.0 ∷ []))

-- What a packet tells of the sender's time; the number of the time's source is cut to a byte.
unfoldable pub metadata_of : ℕ → RadioTime → RadioPacketMetadata
metadata_of id t = record { id = id; cycle_n = t.cycle_n; time_src_id = t.time_src_id % 256 }
