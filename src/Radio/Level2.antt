-- ===== src/Radio/Level2.antt =====
-- The radio's thread and the calls to it: `RadioLevel2` and `RxCallback` of
-- embedded/Radio/radio_lvl2.h. The chip's and the timer's calls are commands, the oldest first. The
-- two message queues are lists of bounded length, as embedded/kl_lib/MsgQ.h keeps them: a send to a
-- full one is dropped. `blank` is a packet `{}`.
use locket_api.Prelude.{
  ℕ, ◌+◌, ◌*◌, ◌%◌, Option, none, some, List, [], ◌∷◌, ◌++◌, ◌==◌, if◌then◌else◌,
}
use locket_api.MsgQ.Laws.{send}
use locket_api.Radio.{FullRadioPacket, rcycle_cnt, end_of_pkt_shift_tics}
use locket_api.Radio.Time.{
  RadioTime, Wish, reception, transmission, sleep, adjust_i, metadata_of, on_timer_i,
}

pub data IncomingMessageType : Type 0 where
  try_to_receive try_to_transmit try_to_sleep : IncomingMessageType
  packet_received set_beacon clear_beacon transmit_once : IncomingMessageType

pub record IncomingMessage (P : Type 0) : Type 0 where
  pub type : IncomingMessageType
  pub packet : P

pub data State : Type 0 where
  idle rx tx : State

abbrev pub r_msgq_len : ℕ
r_msgq_len = 4

-- `repeats_left` is an `int8_t` by its byte.
pub record RadioLevel2 (P : Type 0) : Type 0 where
  pub state : State
  pub packet_to_transmit_once : Option P
  pub repeats_left : ℕ
  pub packet_to_beacon : Option P
  pub transmission_power : ℕ
  pub received_packets : List (P × ℕ)
  pub incoming_message_queue : List (IncomingMessage P)

pub data Command (P : Type 0) : Type 0 where
  enter_idle : Command P
  set_tx_power : ℕ → Command P
  recalibrate : Command P
  transmit : FullRadioPacket P → Command P
  receive_async : Command P
  set_counter : ℕ → Command P
  send_radio_cmd : Command P

-- A device: its radio, its time, and the commands that were given.
pub record Node (P : Type 0) : Type 0 where
  pub radio : RadioLevel2 P
  pub time : RadioTime
  pub out : List (Command P)

module _ {P : Type 0} (blank : P) where
  -- `incoming_message_queue_.SendNowOrExit`, or its variant for interrupts.
  unfoldable pub send_message : IncomingMessageType → P → RadioLevel2 P → RadioLevel2 P
  send_message type packet r =
      let message : IncomingMessage P = record { type = type; packet = packet } in
      record r {
        incoming_message_queue = (send (2 * r_msgq_len) message r.incoming_message_queue).1;
      }

  unfoldable pub set_beacon_packet_to : P → RadioLevel2 P → RadioLevel2 P
  unfolding send_message
  set_beacon_packet_to packet r = send_message set_beacon packet r

  unfoldable pub clear_beacon_packet : RadioLevel2 P → RadioLevel2 P
  unfolding send_message
  clear_beacon_packet r = send_message clear_beacon blank r

  unfoldable pub transmit_packet_once : P → RadioLevel2 P → RadioLevel2 P
  unfolding send_message
  transmit_packet_once packet r = send_message transmit_once packet r

  unfoldable pub fetch_received_packet : RadioLevel2 P → Option (P × ℕ) × RadioLevel2 P
  fetch_received_packet r = elim r.received_packets [
    | [] ↦ (none, r)
    | p ∷ ps ↦ (some p, record r { received_packets = ps })
  ]

  unfoldable pub add_received_packet : P → ℕ → RadioLevel2 P → RadioLevel2 P
  unfolding send_message
  add_received_packet packet rssi r =
      let told = send_message packet_received blank r in
      record told { received_packets = (send r_msgq_len (packet, rssi) told.received_packets).1 }

  unfoldable pub schedule_sleep : RadioLevel2 P → RadioLevel2 P
  unfolding send_message
  schedule_sleep r = elim r.state [ idle ↦ r | _ ↦ send_message try_to_sleep blank r ]

  unfoldable pub schedule_transmission : RadioLevel2 P → RadioLevel2 P
  unfolding send_message
  schedule_transmission r = send_message try_to_transmit blank r

  unfoldable pub schedule_reception : RadioLevel2 P → RadioLevel2 P
  unfolding send_message
  schedule_reception r = elim r.state [ rx ↦ r | _ ↦ send_message try_to_receive blank r ]

  unfoldable pub set_power : ℕ → RadioLevel2 P → RadioLevel2 P
  set_power power r = record r { transmission_power = power }

  -- The calls that the time makes, in their order.
  unfoldable pub grant : List Wish → RadioLevel2 P → RadioLevel2 P
  unfolding schedule_reception schedule_transmission schedule_sleep
  grant [] r = r
  grant (reception ∷ ws) r = grant ws (schedule_reception r)
  grant (transmission ∷ ws) r = grant ws (schedule_transmission r)
  grant (sleep ∷ ws) r = grant ws (schedule_sleep r)

  -- The interrupt of the timer.
  unfoldable pub on_timer : ℕ → Node P → Node P
  unfolding grant on_timer_i
  on_timer id d = let r = on_timer_i id d.time in record d { time = r.0; radio = grant r.1 d.radio }

  -- The interrupt of the chip, with what `ReadFIFO` gives.
  unfoldable pub rx_callback : Option (FullRadioPacket P × ℕ) → Node P → Node P
  unfolding adjust_i add_received_packet
  rx_callback none d = d
  rx_callback (some (packet, rssi)) d =
      let r = adjust_i packet.metadata d.time in
      record {
        radio = elim packet.payload [
          | none ↦ d.radio
          | some p ↦ add_received_packet p rssi d.radio
        ];
        time = r.0;
        out = if r.1 then d.out ++ (set_counter end_of_pkt_shift_tics ∷ []) else d.out;
      }

  -- The payload of the next packet, none if there is nothing to say.
  unfoldable pub take_payload : RadioLevel2 P → Option P × RadioLevel2 P
  take_payload r = elim r.packet_to_transmit_once [
    | none ↦ (r.packet_to_beacon, r)
    | some packet ↦
        let left = (r.repeats_left + 255) % 256 in
        (
          some packet,
          record r {
            repeats_left = left;
            packet_to_transmit_once = if left == 0 then none else some packet;
          },
        )
  ]

  unfoldable pub power_commands : RadioLevel2 P → List (Command P)
  power_commands r =
      if r.transmission_power == 0 then [] else set_tx_power r.transmission_power ∷ []

  unfoldable pub try_transmit : ℕ → Node P → Node P
  unfolding take_payload power_commands metadata_of
  try_transmit id d =
      let taken = take_payload (record d.radio { state = tx }) in
      let packet : FullRadioPacket P = record {
        payload = taken.0;
        metadata = metadata_of id d.time;
      } in
      record d {
        radio = record (taken.1) { transmission_power = 0 };
        out =
            d.out ++ (enter_idle ∷ power_commands d.radio ++ (recalibrate ∷ transmit packet ∷ []));
      }

  unfoldable pub handle : ℕ → IncomingMessage P → Node P → Node P
  unfolding try_transmit
  handle id message d = elim message.type [
    | try_to_transmit ↦ try_transmit id d
    | try_to_receive ↦ record d {
      radio = record (d.radio) { state = rx };
      out = d.out ++ (receive_async ∷ []);
    }
    | try_to_sleep ↦ record d {
      radio = record (d.radio) { state = idle };
      out = d.out ++ (enter_idle ∷ []);
    }
    | packet_received ↦ record d {
      radio = record (d.radio) { state = idle };
      out = d.out ++ (send_radio_cmd ∷ []);
    }
    | set_beacon ↦ record d { radio = record (d.radio) { packet_to_beacon = some message.packet } }
    | clear_beacon ↦ record d { radio = record (d.radio) { packet_to_beacon = none } }
    | transmit_once ↦ record d {
      radio = record (d.radio) {
        packet_to_transmit_once = some message.packet;
        repeats_left = rcycle_cnt + 1;
      };
    }
  ]

  -- One round of the thread; `none` while it waits for a message.
  unfoldable pub process_event : ℕ → Node P → Option (Node P)
  unfolding handle
  process_event id d = elim d.radio.incoming_message_queue [
    | [] ↦ none
    | message ∷ rest ↦ some (
        handle id message (record d { radio = record (d.radio) { incoming_message_queue = rest } }))
  ]
