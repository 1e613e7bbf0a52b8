-- ===== src/Runner.antt =====
-- The main loop: `BehaviorRunner` and `ReadDipSwitch` of embedded/behavior_runner.h, with the offset of
-- embedded/wrappers/eeprom_wrapper.cpp. The behavior is an interface, as in api/behavior.h. Setting up
-- the peripherals is not modelled. `PillMgr.Check`, which the second begins with, is in Pill: what it
-- sends to the queue comes as turns of its own.
pub mod Game
pub mod Switches
pub mod Life
use locket_api.Prelude.{
  ℕ, zero, suc, ◌+◌, ◌-◌, ◌*◌, ◌%◌, ◌^◌, Bool, true, false, Option, none, some, List, [], ◌∷◌, ltb,
  ◌==◌, if◌then◌else◌, ◌>>=◌,
}
use locket_api.Api.Eeprom.{Eeprom, read, write}
use locket_api.ButtonEvents.{BtnEvt, short_press, long_press, long_combo}

-- A behavior before `OnStarted`, with what may be called on it, and behind it. It is given the memory
-- that the wrapper shows it, and holds it from then on. What `ReadPill` gives in `OnPillConnected` is
-- an argument.
pub record Behavior : Type 1 where
  pub Created : Type 0
  pub State : Type 0
  pub Pill : Type 0
  pub Packet : Type 0
  pub UartCommand : Type 0
  pub construct : Eeprom → Created
  pub dip_switch_set : ℕ → Created → Created
  pub on_started : Created → Option State
  pub every_second : State → Option State
  pub on_pill_connected : Pill → State → Option State
  pub on_pill_disconnected : State → Option State
  pub on_button_pressed : ℕ → Bool → State → Option State
  pub on_dip_switch_changed : ℕ → State → Option State
  pub on_radio_packet_received : Packet → ℕ → State → Option State
  pub on_uart_command : UartCommand → State → Option State
  pub memory : State → Eeprom

-- A command of the shell: `set_id` with what `GetNext` reads from its arguments, or another.
pub data ShellCmd (C : Type 0) : Type 0 where
  set_id : Option ℕ → ShellCmd C
  other_cmd : C → ShellCmd C

-- A turn of the loop: the message that `Fetch` gives with what the turn reads, the pins of the switches
-- in a second and the packet of `FetchReceived`.
pub data Turn (behavior : Behavior) : Type 0 where
  evt_every_second : (ℕ → Bool) → Turn behavior
  evt_buttons : BtnEvt → Turn behavior
  evt_pill_connected : behavior.Pill → Turn behavior
  evt_pill_disconnected : Turn behavior
  evt_radio_cmd : behavior.Packet → ℕ → Turn behavior
  evt_shell_cmd : ShellCmd behavior.UartCommand → Turn behavior
  evt_other : Turn behavior

-- The loop's state. `reserved` is the memory as the runner itself writes it, below the offset.
pub record Runner (behavior : Behavior) : Type 0 where
  pub state : behavior.State
  pub previous_dip_value : ℕ
  pub id : ℕ
  pub reserved : Eeprom

abbrev pub high_level_data_offset : ℕ
high_level_data_offset = 512

-- The memory that the wrapper shows a behavior.
abbrev pub shown : Eeprom → Eeprom
shown ee address = ee (high_level_data_offset + address)

abbrev pub dip_sw_cnt : ℕ
dip_sw_cnt = 8

-- The bits from the `i`-th pin on, of which some are left. A pin is high where its switch is off; the
-- `|=` of a bit that is not set yet adds it.
unfoldable pub dip_bits : ℕ → ℕ → (ℕ → Bool) → ℕ
dip_bits zero i pin_is_hi = 0
dip_bits (suc left) i pin_is_hi =
    (if pin_is_hi i then 0 else 1) + 2 * dip_bits left (suc i) pin_is_hi

unfoldable pub read_dip_switch : (ℕ → Bool) → ℕ
unfolding dip_bits
read_dip_switch pin_is_hi = dip_bits dip_sw_cnt 0 pin_is_hi

module _ (behavior : Behavior) where
  -- `CheckDipSwitch` in a turn, and before `OnStarted`.
  unfoldable pub check_dip_switch : (ℕ → Bool) → Runner behavior → Option (Runner behavior)
  check_dip_switch pins r =
      let current = read_dip_switch pins in
      if current == r.previous_dip_value then some r else do
        state ← behavior.on_dip_switch_changed current r.state
        some (record r { state = state; previous_dip_value = current })

  unfoldable pub first_check : (ℕ → Bool) → behavior.Created → behavior.Created × ℕ
  first_check pins created =
      let current = read_dip_switch pins in
      if current == 2 ^ 16 - 1
      then (created, 2 ^ 16 - 1)
      else (behavior.dip_switch_set current created, current)

  -- `Run` up to the loop, with the memory and the pins of the switches.
  unfoldable pub start : Eeprom → (ℕ → Bool) → Option (Runner behavior)
  unfolding first_check
  start ee pins = do
    let checked = first_check pins (behavior.construct (shown ee))
    state ← behavior.on_started checked.0
    some (record {
      state = state;
      previous_dip_value = checked.1;
      id = read ee 0 % 2 ^ 8;
      reserved = ee;
    })

  -- A call that changes the behavior alone.
  abbrev pub call :
      (behavior.State → Option behavior.State) → Runner behavior → Option (Runner behavior)
  call f r = do state ← f r.state; some (record r { state = state })

  unfoldable pub turn : Turn behavior → Runner behavior → Option (Runner behavior)
  turn (evt_every_second pins) r = do r' ← check_dip_switch pins r; call behavior.every_second r'
  turn (evt_buttons (short_press i)) r = call (behavior.on_button_pressed i false) r
  turn (evt_buttons (long_press i)) r = call (behavior.on_button_pressed i true) r
  turn (evt_buttons (long_combo is)) r = some r
  turn (evt_pill_connected pill) r = call (behavior.on_pill_connected pill) r
  turn evt_pill_disconnected r = call behavior.on_pill_disconnected r
  turn (evt_radio_cmd packet rssi) r = call (behavior.on_radio_packet_received packet rssi) r
  turn (evt_shell_cmd (set_id none)) r = some r
  turn (evt_shell_cmd (set_id (some new_id))) r =
      some (record r { id = new_id % 2 ^ 8; reserved = write 0 new_id r.reserved })
  turn (evt_shell_cmd (other_cmd cmd)) r = call (behavior.on_uart_command cmd) r
  turn evt_other r = some r

  -- The whole memory, as it is kept when the power is cut.
  abbrev pub kept : Runner behavior → Eeprom
  kept r address =
      if ltb address high_level_data_offset
      then r.reserved address
      else behavior.memory r.state (address - high_level_data_offset)
