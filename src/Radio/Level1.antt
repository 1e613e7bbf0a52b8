-- ===== src/Radio/Level1.antt =====
-- The simple radio: `RadioLevel1` with its thread of embedded/Radio/radio_lvl1.h, and
-- `RadioWrapperSimple` of embedded/wrappers/radio_wrapper.h, whose calls come from the main thread. The
-- thread's steps are at least as fine as the pieces that it runs between two waits. The chip's calls
-- and the event of the main queue are commands, the oldest first. The message queues are lists of
-- bounded length, as embedded/kl_lib/MsgQ.h keeps them.
pub mod Once
pub mod Received
pub mod Quiet
pub mod Near
pub mod Steps
pub mod Four
use locket_api.Prelude.{
  ℕ, zero, suc, Bool, true, false, Option, none, some, List, [], ◌∷◌, ◌++◌, get_elem?, drop, ◌==◌,
  if◌then◌else◌, ◌>>=◌,
}
use locket_api.MsgQ.Laws.{send}
use locket_api.Radio.Level2.{r_msgq_len}

-- `RMsg_t` with one of the commands that are sent; the thread does nothing on any other.
pub data RMsg : Type 0 where
  r_msg_set_pwr : ℕ → RMsg
  r_msg_transmit : RMsg

-- The radio and the packets of the wrapper. `PktTxOnce` and `PktTxBeacon` point to the wrapper's
-- packets where they are set.
pub record RadioLevel1 (P : Type 0) : Type 0 where
  pub r_msgq : List RMsg
  pub received_packets : List (P × ℕ)
  pub pkt_tx_once : Bool
  pub pkt_tx_beacon : Bool
  pub packet_to_send_once : P
  pub packet_beacon : P

-- Where the thread is: before the fetch, in the loop that transmits with some transmissions left,
-- before the beacon, and before receiving.
pub data Place : Type 0 where
  at_fetch : Place
  sending : ℕ → Place
  at_beacon : Place
  at_receive : Place

pub data Command (P : Type 0) : Type 0 where
  recalibrate : Command P
  transmit_once : P → Command P
  transmit_beacon : P → Command P
  set_tx_power : ℕ → Command P
  send_radio_cmd : Command P

pub record Device (P : Type 0) : Type 0 where
  pub radio : RadioLevel1 P
  pub place : Place
  pub out : List (Command P)

-- The wrapper's methods but the fetch.
pub data Call (P : Type 0) : Type 0 where
  transmit : P → Call P
  set_beacon_packet : P → Call P
  clear_beacon_packet : Call P
  set_power_level : ℕ → Call P

module _ {P : Type 0} where
  unfoldable pub send_message : RMsg → RadioLevel1 P → RadioLevel1 P
  send_message msg r = record r { r_msgq = (send r_msgq_len msg r.r_msgq).1 }

  unfoldable pub call : Call P → RadioLevel1 P → RadioLevel1 P
  unfolding send_message
  call (transmit packet) r =
      send_message r_msg_transmit (record r { packet_to_send_once = packet; pkt_tx_once = true })
  call (set_beacon_packet packet) r = record r { packet_beacon = packet; pkt_tx_beacon = true }
  call clear_beacon_packet r = record r { pkt_tx_beacon = false }
  call (set_power_level level) r = send_message (r_msg_set_pwr level) r

  -- `none` where there is nothing to fetch; the code then returns an empty packet.
  unfoldable pub fetch_received : RadioLevel1 P → Option (P × ℕ) × RadioLevel1 P
  fetch_received r =
      (get_elem? r.received_packets 0, record r { received_packets = drop 1 r.received_packets })

  unfoldable pub fetch_message : Device P → Device P
  fetch_message d = elim d.radio.r_msgq [
    | [] ↦ record d { place = at_beacon }
    | msg ∷ msgs ↦
        let d' = record d { radio = record d.radio { r_msgq = msgs } } in
        elim msg [
          | r_msg_transmit ↦ record d' { place = sending 4 }
          | r_msg_set_pwr level ↦ record d' {
            place = at_beacon;
            out = d.out ++ (set_tx_power level ∷ []);
          }
        ]
  ]

  -- A round of the loop that transmits; `none` is a transmission from a null pointer.
  unfoldable pub send_packet : ℕ → Device P → Option (Device P)
  send_packet left d =
      if d.radio.pkt_tx_once
      then some (record d {
        place = sending left;
        out = d.out ++ (recalibrate ∷ transmit_once d.radio.packet_to_send_once ∷ []);
      })
      else none

  unfoldable pub send_beacon : Device P → Device P
  send_beacon d = record d {
    place = at_receive;
    out =
        if d.radio.pkt_tx_beacon
        then d.out ++ (recalibrate ∷ transmit_beacon d.radio.packet_beacon ∷ [])
        else d.out;
  }

  -- With the packet that the chip receives in time, if there is one.
  unfoldable pub receive : Option (P × ℕ) → Device P → Device P
  receive air d = record d {
    radio = record d.radio {
      received_packets = elim air [
        | none ↦ d.radio.received_packets
        | some packet ↦ (send r_msgq_len packet d.radio.received_packets).1
      ];
    };
    place = at_fetch;
    out = d.out ++ (recalibrate ∷ elim air [ none ↦ [] | some packet ↦ send_radio_cmd ∷ [] ]);
  }

  -- A step of the thread.
  unfoldable pub thread : Option (P × ℕ) → Device P → Option (Device P)
  unfolding fetch_message send_packet send_beacon receive
  thread air d = elim d.place [
    | at_fetch ↦ some (fetch_message d)
    | sending left ↦ elim left [
      | zero ↦ some (record d { place = at_beacon })
      | suc left' ↦ send_packet left' d
    ]
    | at_beacon ↦ some (send_beacon d)
    | at_receive ↦ some (receive air d)
  ]

-- What the two threads do, in any order: a call of the main thread, its fetch of a packet, and a step
-- of the radio's thread with what is then on air.
pub data Action (P : Type 0) : Type 0 where
  called : Call P → Action P
  fetched : Action P
  stepped : Option (P × ℕ) → Action P

module _ {P : Type 0} where
  -- `Init`: empty queues, and the thread's start.
  abbrev pub initial : P → Device P
  initial blank = record {
    radio = record {
      r_msgq = [];
      received_packets = [];
      pkt_tx_once = false;
      pkt_tx_beacon = false;
      packet_to_send_once = blank;
      packet_beacon = blank;
    };
    place = at_fetch;
    out = [];
  }

  unfoldable pub act : Action P → Device P → Option (Device P)
  unfolding call fetch_received thread
  act (called c) d = some (record d { radio = call c d.radio })
  act fetched d = some (record d { radio = (fetch_received d.radio).1 })
  act (stepped air) d = thread air d

  unfoldable pub run : List (Action P) → Device P → Option (Device P)
  run [] d = some d
  run (a ∷ later) d = do d' ← act a d; run later d'
