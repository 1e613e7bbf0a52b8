-- ===== src/Lib.antt =====
-- A verification library for the Locket: a wearable device for role-playing games, with a radio, an
-- LED, a vibration motor, buttons, and game logic as behaviors.
--
-- Parts and files:
-- - Prelude: numbers, tests, options and lists that the other files share.
-- - Qhsm: the hierarchical state machine processor of api/qhsm.h and api/qhsm.c. `do_transition`,
--   `QMsm_init` and `QMsm_dispatch` are `do_transition`, `init` and `dispatch`; each loop of
--   `do_transition` is a function (`climb`, `collect`, `meet`, `enter`). Qhsm/Chart says what a
--   statechart is, Qhsm/Path follows the loops, Qhsm/Transition puts them together.
-- - Api: the interfaces of api/: Color, Sequences, RxTable (rx_table.h), Utility, Eeprom, Device.
-- - Sequencer: the players of sequences. Emulator is the thread of emulator/sequenceable.h, Firmware
--   the timer handler of embedded/kl_lib/ChunkTypes.h with the setups of beeper.h and vibro.h; Mirror
--   and Equivalence relate the two, Returning, Repeat and Passes say how long they run. Led is the
--   player of the LED, embedded/kl_lib/led.h, and Led/Fading is about its fading.
-- - Buffers: CircBuf is the three circular buffers of embedded/kl_lib/kl_buf.h; Ring and Queue relate
--   them to a queue. Stacks, Slots and IdList are its stack, its storage with validity and its list
--   of ids.
-- - ButtonEvents: `ProcessButtons` of embedded/kl_lib/buttons.cpp, with the settings of buttons.h;
--   Presses is about a button that is pressed alone.
-- - MsgQ: the event queue of embedded/kl_lib/MsgQ.h, with the semaphores as a parameter.
-- - Radio: embedded/Radio/radio_lvl2.h. Time is `RadioTime_t`, Level2 `RadioLevel2` with its thread and
--   the interrupts; Slots is about who transmits when, Payloads about what, by the predicate of Saying.
--   Level1 is the simple radio, embedded/Radio/radio_lvl1.h with its wrapper of
--   embedded/wrappers/radio_wrapper.h, as the steps of two threads; Once counts transmissions,
--   Received is about the packets that come in, and Quiet, Near, Steps and Four follow a packet out.
-- - Shell: embedded/kl_lib/shell.h and shell.cpp. Print is `PrintfHelper_t`, ByteCmd `ByteCmd_t` with
--   the task of `ByteUart_t` in embedded/kl_lib/uart.cpp; Numbers and Bytes say what is printed and
--   received, Messages and Exchange follow a command from the printer to the receiver.
-- - Pill: embedded/Pill/pill_mgr.h and pill_mgr.cpp with the wrapper of
--   embedded/wrappers/pill_manager_wrapper.h; the bus with the chip is a parameter. Memory is about
--   what a write leaves in the chip, RoundTrip about reading it again, Connection about the events.
-- - Runner: the main loop, embedded/behavior_runner.h, for any behavior of api/behavior.h. Switches is
--   about reading the switches; Game puts the player's device in and says what can happen to a locket,
--   Life follows it.
-- - MariyEl: the game of projects/Mariy_El_sm. SmData is sm_data.cpp, Show the device's methods that
--   the machine calls, Health the handlers of health.cpp, PlayerDevice the behavior of
--   player_device.cpp. Health/Player holds the rules of the game as a flat state machine, the
--   specification; Health/Refine, Boot and Life relate the code to it, for one signal, for the start
--   and for a whole life; PlayerDevice/Refine and Events do so for the device.
-- - TorRadiation: the game of projects/Tor_radiation, in the same way; its random values are a
--   parameter. Qhsm/Lives is about runs of such machines.
-- - Games: Winds is projects/springwind_behavior, Kirlits projects/kirlits_behavior, Vetta
--   projects/vetta_behavior. Winds/Timer is about any events, Winds/Running about a timer from its
--   start on; Kirlits/Sequence and Vetta/Flashes about what is shown.
-- - Ability: the machine of projects/sm_behavior and the behavior that starts it. Ability/Life holds its
--   rules and relates the machine to them. A verdict that the code leaves unset is a parameter.
--
-- The device's events go to the behavior, which sends signals to its health machine by the processor;
-- the machine's handlers change the variables, write persistent memory and give the device commands.
--
-- Conventions: a method takes and returns the record of its object. `unsigned int` and `uint8_t` wrap
-- where the source lets them. `none` stands for a run that the C code does not survive, such as a call
-- through a null handler or a write past `path`, and for a loop without fuel; a theorem that a call
-- gives `some` excludes both. The machine of the game is dispatched with fuel 8, which exceeds the
-- four states that a chain has at most. The players take the number of their rounds, of which the
-- timer handler needs at most one for each chunk that it passes. A chunk's or an element's address is
-- an index, and an `int32_t` is its 32-bit word.
--
-- Left out: log texts; the floating point format of the printer; the parts under `DESKTOP`, which only
-- projects/sm_behavior/ability.cpp defines, for texts and an unused state; failures of writes to
-- persistent memory, whose codes the callers drop; pointers to peripherals, whose calls are recorded
-- as commands in their order. The operating system under embedded/os is another project's.
-- Not modelled: the registers of the microcontroller and of the radio chip; the text commands of the
-- shell, past what the main loop does with one; the other behaviors under projects/, which are small
-- or tests; the emulator but for its player of sequences.
pub mod Prelude
pub mod Qhsm
pub mod Api
pub mod Ability
pub mod Buffers
pub mod ButtonEvents
pub mod Games
pub mod MariyEl
pub mod MsgQ
pub mod Pill
pub mod Radio
pub mod Runner
pub mod Sequencer
pub mod Shell
pub mod TorRadiation
pub mod Tests
