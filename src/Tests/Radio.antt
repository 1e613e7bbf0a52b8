-- ===== src/Tests/Radio.antt =====
-- The theorems on the radio, applied to devices with packets that are numbers.
use native.Mathlib.Omega.{arith}
use locket_api.Prelude.{List, zero, suc, true, false, ℕ, ◌+◌, ◌≡◌, ◌≤◌, refl, some, none, [], ◌∷◌}
use locket_api.Radio.{rslot_cnt}
use locket_api.Radio.Time.{RadioTime, adjust_i, metadata_of, on_timer_i}
use locket_api.Radio.Slots.{slots, transmissions, transmissions-cycle, no_collision}
use locket_api.Radio.Level2.{
  IncomingMessageType, Node, idle, handle, try_to_transmit, try_to_receive, try_to_sleep,
  clear_beacon, transmit_once,
}
use locket_api.Radio.Level1
use locket_api.Radio.Level1.Once.{Settles, accepted, run-initial}
use locket_api.Radio.Level1.Received.{Delivers, all_given, all_taken, run-initial-Delivers}
use locket_api.Radio.Level1.Four.{Made, run-transmit}
use locket_api.Radio.Saying.{payloads}
use locket_api.Radio.Payloads.{Event, handled, timer, chip, happen_all, payloads-transmit_once}

abbrev early : RadioTime
early = record { cycle_n = 1; time_slot = 3; time_src_id = 3; time_src_timeout = 0 }

abbrev late : RadioTime
late = record { cycle_n = 3; time_slot = 40; time_src_id = 65535; time_src_timeout = 0 }

transmissions-cycle_example : transmissions (slots rslot_cnt 7 late).1 ≡ 1
transmissions-cycle_example = transmissions-cycle 7 late (omega arith)

no_collision_example :
    let u = (adjust_i (metadata_of 3 early) late).0 in
    ((slots 9 3 early).0.time_slot ≡ (slots 9 5 u).0.time_slot)
    × ((slots 9 3 early).0.cycle_n ≡ (slots 9 5 u).0.cycle_n)
    × (transmissions (on_timer_i 3 (slots 9 3 early).0).1
          + transmissions (on_timer_i 5 (slots 9 5 u).0).1
        ≤ 1)
no_collision_example = no_collision 9 3 5 early late (omega arith) (omega arith) refl (omega arith)

abbrev node : Node ℕ
node = record {
  radio = record {
    state = idle;
    packet_to_transmit_once = none;
    repeats_left = 0;
    packet_to_beacon = some 8;
    transmission_power = 0;
    received_packets = [];
    incoming_message_queue = [];
  };
  time = early;
  out = [];
}

abbrev message : IncomingMessageType → ℕ → Event ℕ
message type packet = handled (record { type = type; packet = packet })

-- The thread goes to sleep and receives between the transmissions, and the beacon is cleared.
abbrev evening : List (Event ℕ)
evening =
    message try_to_transmit 0
    ∷ message try_to_sleep 0
    ∷ timer
    ∷ message try_to_transmit 0
    ∷ message try_to_receive 0
    ∷ chip (some (record { payload = some 4; metadata = metadata_of 2 early }, 60))
    ∷ message try_to_transmit 0
    ∷ message try_to_transmit 0
    ∷ message try_to_transmit 0
    ∷ message try_to_transmit 0
    ∷ message clear_beacon 0
    ∷ message try_to_transmit 0
    ∷ []

payloads-transmit_once_example :
    payloads
      (happen_all 0 3 evening (handle 0 3 (record { type = transmit_once; packet = 9 }) node)).out
    ≡ some 9 ∷ some 9 ∷ some 9 ∷ some 9 ∷ some 9 ∷ some 8 ∷ none ∷ []
payloads-transmit_once_example = payloads-transmit_once 0 evening 3 9 node

-- A device at rest with a message to set the power, and two calls to transmit with enough steps.
abbrev resting : Level1.Device ℕ
resting = record {
  radio = record {
    r_msgq = Level1.r_msg_set_pwr 3 ∷ [];
    received_packets = [];
    pkt_tx_once = false;
    pkt_tx_beacon = true;
    packet_to_send_once = 0;
    packet_beacon = 8;
  };
  place = Level1.at_receive;
  out = [];
}

abbrev rounds : ℕ → List (Level1.Action ℕ)
rounds zero = []
rounds (suc n) = Level1.stepped (some (5, 60)) ∷ Level1.fetched ∷ rounds n

run-transmit_example : Made (9 ∷ 9 ∷ 9 ∷ 9 ∷ []) (
    Level1.run
      (Level1.called (Level1.transmit 9)
        ∷ Level1.called (Level1.set_power_level 4)
        ∷ Level1.called Level1.clear_beacon_packet
        ∷ rounds 11)
      resting)
run-transmit_example =
    run-transmit 9
      (Level1.called (Level1.set_power_level 4)
        ∷ Level1.called Level1.clear_beacon_packet
        ∷ rounds 11)
      resting refl refl (omega arith) tt (omega arith)

-- A second call before the first is fetched: its packet goes out in the place of the first one.
abbrev hasty : List (Level1.Action ℕ)
hasty = Level1.called (Level1.transmit 1) ∷ Level1.called (Level1.transmit 2) ∷ rounds 20

hasty_packets : Made (2 ∷ 2 ∷ 2 ∷ 2 ∷ 2 ∷ 2 ∷ 2 ∷ 2 ∷ []) (Level1.run hasty (Level1.initial 0))
unfolding Level1.run Level1.act Level1.call Level1.send_message Level1.thread Level1.fetch_message
    Level1.send_packet Level1.send_beacon Level1.receive Level1.fetch_received
hasty_packets = refl

run-initial_example :
    Settles (accepted hasty (Level1.initial 0)) (Level1.run hasty (Level1.initial 0))
run-initial_example = run-initial hasty 0

run-initial-Delivers_example :
    Delivers
      (Level1.run hasty (Level1.initial 0))
      (all_given hasty (Level1.initial 0))
      (all_taken hasty (Level1.initial 0))
run-initial-Delivers_example = run-initial-Delivers hasty 0
