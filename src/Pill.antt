-- ===== src/Pill.antt =====
-- The pills: `PillMgr_t` of embedded/Pill/pill_mgr.h and pill_mgr.cpp, and the wrapper of
-- embedded/wrappers/pill_manager_wrapper.h. The bus with the chip on it is a parameter; a pill's
-- content is its bytes.
pub mod Overlay
pub mod Memory
pub mod RoundTrip
pub mod Connection
use locket_api.Prelude.{
  ℕ, zero, suc, ◌+◌, ◌%◌, Bool, true, false, Option, none, some, List, [], ◌∷◌, length, take, drop,
  ◌==◌, if◌then◌else◌, ◌>>=◌,
}
use locket_api.Buffers.{Retv, ok, timeout}

abbrev pub pill_i2c_addr : ℕ
pill_i2c_addr = 80

abbrev pub pill_data_addr : ℕ
pill_data_addr = 0

abbrev pub pill_page_sz : ℕ
pill_page_sz = 8

abbrev pub pill_sz : ℕ
pill_sz = 4

-- The calls of `i2c_t`, the switching of power and the passing of milliseconds, on the bus with what
-- is connected to it. A write gives the code that the call returns, a read also the bytes that are
-- then in the buffer.
pub record I2c : Type 1 where
  pub Bus : Type 0
  pub resume : Bus → Bus
  pub standby : Bus → Bus
  pub sleep : ℕ → Bus → Bus
  pub check_address : ℕ → Bus → Bool × Bus
  pub write_write : ℕ → ℕ → List ℕ → Bus → Bool × Bus
  pub write_read : ℕ → ℕ → ℕ → Bus → Bool × List ℕ × Bus

-- `PillState_t`.
pub data PillState : Type 0 where
  just_connected just_disconnected no_change : PillState

pub record PillMgr : Type 0 where
  pub is_connected_now : Bool
  pub state : PillState
  pub pill : List ℕ

module _ (i2c : I2c) where
  open i2c use {Bus, resume, standby, sleep, check_address, write_write, write_read}

  unfoldable pub read : ℕ → ℕ → Bus → Bool × List ℕ × Bus
  read mem_addr len bus =
      let r = write_read pill_i2c_addr mem_addr len (resume bus) in (r.0, r.1, standby r.2)

  -- The loop of tries for a page, of which some are left.
  unfoldable pub try_page : ℕ → ℕ → List ℕ → Bus → Bool × Bus
  try_page zero mem_addr page bus = (false, bus)
  try_page (suc left) mem_addr page bus =
      let r = write_write pill_i2c_addr mem_addr page bus in
      let rest = try_page left mem_addr page (if left == 0 then r.1 else sleep 4 r.1) in
      if r.0 then r else rest

  -- The loop over the pages, on fuel.
  unfoldable pub write_pages : ℕ → ℕ → List ℕ → Bus → Option (Bool × Bus)
  write_pages zero mem_addr bytes bus = none
  write_pages (suc fuel) mem_addr [] bus = some (true, bus)
  write_pages (suc fuel) mem_addr (b ∷ bs) bus =
      let page = take pill_page_sz (b ∷ bs) in
      let r = try_page 5 mem_addr page bus in
      let rest =
        write_pages fuel ((mem_addr + length page) % 256) (drop pill_page_sz (b ∷ bs)) r.1 in
      if r.0 then rest else some r

  -- The wait for the end of writing, in which the address may be checked some times more.
  unfoldable pub await : ℕ → Bus → Bool × Bus
  await zero bus = (false, sleep 1 bus)
  await (suc left) bus =
      let r = check_address pill_i2c_addr (sleep 1 bus) in
      let rest = await left r.1 in if r.0 then r else rest

  unfoldable pub write : ℕ → List ℕ → Bus → Option (Retv × Bus)
  write mem_addr bytes bus = do
    pages ← write_pages (length bytes + 1) mem_addr bytes (resume bus)
    let done = if pages.0 then await 5 pages.1 else pages
    some (if done.0 then ok else timeout, standby done.1)

  unfoldable pub write_pill : PillMgr → Bus → Option (Retv × Bus)
  unfolding write
  write_pill me bus = write pill_data_addr me.pill bus

  -- `Check` up to the `switch`.
  unfoldable pub look : PillMgr → Bus → PillMgr × Bus
  unfolding read
  look me bus =
      if me.is_connected_now
      then (let r = check_address pill_i2c_addr (resume bus) in
          (
            (if r.0
                then record me { state = no_change }
                else record me { is_connected_now = false; state = just_disconnected }),
            standby r.1,
          ))
      else (let r = read pill_data_addr pill_sz (resume bus) in
          (
            (if r.0
                then record { is_connected_now = true; state = just_connected; pill = r.1 }
                else record me { state = no_change; pill = r.1 }),
            standby r.2,
          ))

  -- The wrapper's methods, for a state of so many bytes.
  unfoldable pub wrapper_read : ℕ → Bus → List ℕ × Bus
  unfolding read
  wrapper_read size bus = let r = read 0 size bus in (r.1, r.2)

  unfoldable pub wrapper_write : List ℕ → Bus → Option Bus
  unfolding write
  wrapper_write state bus = do r ← write 0 state bus; some r.1

-- The events that the main queue is sent.
pub data PillEvent : Type 0 where
  connected disconnected : PillEvent

abbrev pub event_of : PillState → List PillEvent
event_of just_connected = connected ∷ []
event_of just_disconnected = disconnected ∷ []
event_of no_change = []

unfoldable pub check : (i2c : I2c) → PillMgr → i2c.Bus → List PillEvent × PillMgr × i2c.Bus
unfolding look
check i2c me bus = let r = look i2c me bus in (event_of r.0.state, r.0, r.1)
