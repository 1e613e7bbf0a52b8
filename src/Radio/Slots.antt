-- ===== src/Radio/Slots.antt =====
-- Who transmits when: `IOnTimerI` and `AdjustI` of embedded/Radio/radio_lvl2.h over many slots.
use native.Mathlib.Omega.{arith}
use locket_api.Prelude.{
  ℕ, zero, suc, ◌+◌, ◌%◌, ◌<◌, ◌≤◌, ◌≡◌, ◌≢◌, refl, ◌&&◌, List, [], ◌∷◌, ◌++◌, leb, ltb, ◌==◌,
  if◌then◌else◌, Bool-cases, inl, inr,
}
use locket_api.Radio.{rcycle_cnt, rslot_cnt}
use locket_api.Radio.Time.{
  RadioTime, Wish, reception, transmission, sleep, adjust_i, metadata_of, on_timer_i,
}

abbrev pub IsTime : RadioTime → Type 0
IsTime t = (t.time_slot < rslot_cnt) × (t.cycle_n < rcycle_cnt)

-- How many of the calls are for a transmission.
abbrev pub transmissions : List Wish → ℕ
transmissions [] = 0
transmissions (transmission ∷ ws) = suc (transmissions ws)
transmissions (reception ∷ ws) = transmissions ws
transmissions (sleep ∷ ws) = transmissions ws

-- The time after some slots, and the calls made in them.
abbrev pub slots : ℕ → ℕ → RadioTime → RadioTime × List Wish
slots zero id t = (t, [])
slots (suc n) id t = let r = on_timer_i id t in let rest = slots n id r.0 in (rest.0, r.1 ++ rest.1)

-- Whatever bytes a packet has put into the time, one timer interrupt brings the slot back into its
-- bounds; and a time within bounds stays so.
pub on_timer_i-bounds :
    (id : ℕ) (t : RadioTime)
    → ((on_timer_i id t).0.time_slot < rslot_cnt)
      × (t.cycle_n < rcycle_cnt → (on_timer_i id t).0.cycle_n < rcycle_cnt)
unfolding on_timer_i
on_timer_i-bounds id t = (ground arith, λ h. ground arith)

transmissions_on :
    (id : ℕ) (t : RadioTime)
    → t.time_slot < rslot_cnt
    → transmissions (on_timer_i id t).1
      ≡ (if (if t.time_slot == 50 then 0 else t.time_slot + 1) == id then 1 else 0)
unfolding on_timer_i
transmissions_on id t h = ground arith

slot_on :
    (id : ℕ) (t : RadioTime)
    → t.time_slot < rslot_cnt
    → (on_timer_i id t).0.time_slot ≡ (if t.time_slot == 50 then 0 else t.time_slot + 1)
unfolding on_timer_i
slot_on id t h = ground arith

transmissions-append :
    (a b : List Wish) → transmissions (a ++ b) ≡ transmissions a + transmissions b
transmissions-append [] b = omega arith
transmissions-append (transmission ∷ a) b = omega (arith, transmissions-append a b)
transmissions-append (reception ∷ a) b = transmissions-append a b
transmissions-append (sleep ∷ a) b = transmissions-append a b

transmissions-slots :
    (n id : ℕ) (t : RadioTime)
    → n ≤ rslot_cnt
    → id < rslot_cnt
    → t.time_slot < rslot_cnt
    → transmissions (slots n id t).1
      ≡ (if ltb t.time_slot id && leb id (t.time_slot + n) then 1 else 0)
        + (if leb (id + rslot_cnt) (t.time_slot + n) then 1 else 0)
transmissions-slots zero id t l i h = ground arith
transmissions-slots (suc n) id t l i h =
    let r = on_timer_i id t in
    let rest = transmissions-slots n id r.0 (omega arith) i (on_timer_i-bounds id t).0 in
    ground (
      arith,
      transmissions-append r.1 (slots n id r.0).1,
      transmissions_on id t,
      slot_on id t,
      rest,
    )

transmissions-none :
    (n id : ℕ) (t : RadioTime)
    → rslot_cnt ≤ id
    → t.time_slot < rslot_cnt
    → transmissions (slots n id t).1 ≡ 0
transmissions-none zero id t i h = refl
transmissions-none (suc n) id t i h =
    let r = on_timer_i id t in
    let rest = transmissions-none n id r.0 i (on_timer_i-bounds id t).0 in
    ground (arith, transmissions-append r.1 (slots n id r.0).1, transmissions_on id t)

-- In any fifty-one slots on end, without packets, a device asks for exactly one transmission if its
-- number is below 51, and for none if it is not.
pub transmissions-cycle :
    (id : ℕ) (t : RadioTime)
    → t.time_slot < rslot_cnt
    → transmissions (slots rslot_cnt id t).1 ≡ (if ltb id rslot_cnt then 1 else 0)
transmissions-cycle id t h = elim (Bool-cases (ltb id rslot_cnt)) [
  | inl l ↦ ground (arith, transmissions-slots rslot_cnt id t)
  | inr l ↦ rw (l) (transmissions-none rslot_cnt id t (ground arith) h)
]

abbrev SameClock : RadioTime → RadioTime → Type 0
SameClock t u = (t.time_slot ≡ u.time_slot) × (t.cycle_n ≡ u.cycle_n)

on_timer_i-SameClock :
    (a b : ℕ) (t u : RadioTime) → SameClock t u → SameClock (on_timer_i a t).0 (on_timer_i b u).0
unfolding on_timer_i
on_timer_i-SameClock a b t u h = (ground arith, ground arith)

slots-SameClock :
    (n a b : ℕ) (t u : RadioTime) → SameClock t u → SameClock (slots n a t).0 (slots n b u).0
slots-SameClock zero a b t u h = h
slots-SameClock (suc n) a b t u h =
    slots-SameClock n a b (on_timer_i a t).0 (on_timer_i b u).0 (on_timer_i-SameClock a b t u h)

slots-bounds :
    (n id : ℕ) (t : RadioTime) → t.time_slot < rslot_cnt → (slots n id t).0.time_slot < rslot_cnt
slots-bounds zero id t h = h
slots-bounds (suc n) id t h = slots-bounds n id (on_timer_i id t).0 (on_timer_i-bounds id t).0

adjust_i-SameClock :
    (a : ℕ) (t u : RadioTime)
    → t.time_slot ≡ a
    → t.time_src_id % 256 ≤ u.time_src_id
    → SameClock t (adjust_i (metadata_of a t) u).0
unfolding adjust_i metadata_of
adjust_i-SameClock a t u e l = ground arith

-- A device that takes over the time of a packet, in the slot in which the sender sent it, has the
-- sender's slot and cycle after any number of slots in which neither takes over another time, and in
-- the next slot at most one of the two asks for a transmission if their numbers differ.
pub no_collision :
    (n a b : ℕ) (t u : RadioTime)
    → a ≢ b
    → a < rslot_cnt
    → t.time_slot ≡ a
    → t.time_src_id % 256 ≤ u.time_src_id
    → let u' = (adjust_i (metadata_of a t) u).0 in
      ((slots n a t).0.time_slot ≡ (slots n b u').0.time_slot)
      × ((slots n a t).0.cycle_n ≡ (slots n b u').0.cycle_n)
      × (transmissions (on_timer_i a (slots n a t).0).1
            + transmissions (on_timer_i b (slots n b u').0).1
          ≤ 1)
no_collision n a b t u ne l e src =
    let u' = (adjust_i (metadata_of a t) u).0 in
    let same = slots-SameClock n a b t u' (adjust_i-SameClock a t u e src) in
    let bound = slots-bounds n a t (ground arith) in
    (
      same.0,
      same.1,
      ground (arith, transmissions_on a (slots n a t).0, transmissions_on b (slots n b u').0),
    )
