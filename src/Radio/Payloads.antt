-- ===== src/Radio/Payloads.antt =====
-- What is transmitted while the thread handles messages and the interrupts come between: a packet
-- that is to be sent once, and the beacon (embedded/Radio/radio_lvl2.h).
use native.Mathlib.Omega.{arith}
use locket_api.Prelude.{
  ℕ, ◌-◌, ◌≡◌, refl, sym, ap, ◌∙◌, Option, none, some, List, [], ◌∷◌, ◌++◌, append-append,
  append-nil, ◌==◌, if◌then◌else◌,
}
use locket_api.Radio.{FullRadioPacket}
use locket_api.Radio.Saying.{payloads, payloads-none, Says, transmit-Says, timer-Keeps, chip-Keeps}
use locket_api.Radio.Level2.{
  try_to_transmit, transmit_once, IncomingMessage, IncomingMessageType, try_to_receive,
  try_to_sleep, packet_received, set_beacon, clear_beacon, idle, rx, State, on_timer, rx_callback,
  Command, enter_idle, receive_async, send_radio_cmd, Node, try_transmit, handle,
}

-- What the thread and the interrupts do: a message is handled, the timer fires, and the chip has
-- received what `ReadFIFO` then gives.
pub data Event (P : Type 0) : Type 0 where
  handled : IncomingMessage P → Event P
  timer : Event P
  chip : Option (FullRadioPacket P × ℕ) → Event P

module _ {P : Type 0} where
  -- What a device says which has a packet to send some times more, and a beacon: at each transmission
  -- the packet, and when it has gone out as often as it should, the beacon.
  abbrev pub said : List (Event P) → ℕ → P → Option P → List (Option P)
  said [] left p beacon = []
  said (timer ∷ es) left p beacon = said es left p beacon
  said (chip air ∷ es) left p beacon = said es left p beacon
  said (handled m ∷ es) left p beacon = elim m.type [
    | try_to_transmit ↦ (if left == 0 then beacon else some p) ∷ said es (left - 1) p beacon
    | transmit_once ↦ said es 5 m.packet beacon
    | set_beacon ↦ said es left p (some m.packet)
    | clear_beacon ↦ said es left p none
    | try_to_receive ↦ said es left p beacon
    | try_to_sleep ↦ said es left p beacon
    | packet_received ↦ said es left p beacon
  ]

module _ {P : Type 0} (blank : P) where
  abbrev pub happen : ℕ → Event P → Node P → Node P
  happen id (handled message) d = handle blank id message d
  happen id timer d = on_timer blank id d
  happen id (chip air) d = rx_callback blank air d

  abbrev pub happen_all : ℕ → List (Event P) → Node P → Node P
  happen_all id [] d = d
  happen_all id (e ∷ es) d = happen_all id es (happen id e d)

  -- All that follows says what it should, whatever is left.
  abbrev Follows : ℕ → List (Event P) → Type 0
  Follows id es =
      (left : ℕ) (d : Node P) (p : P) (beacon : Option P)
      → Says left p beacon d.radio
      → payloads (happen_all id es d).out ≡ payloads d.out ++ said es left p beacon

  -- A command is given, and the state of the radio changes.
  abbrev told : Command P → State → Node P → Node P
  told c state d = record d { radio = record (d.radio) { state = state }; out = d.out ++ (c ∷ []) }

  -- A packet is to be sent, five times.
  abbrev once : P → Node P → Node P
  once p d = record d {
    radio = record (d.radio) { packet_to_transmit_once = some p; repeats_left = 5 };
  }

  once-Says :
      (p : P) (beacon : Option P) (d : Node P)
      → d.radio.packet_to_beacon ≡ beacon
      → Says 5 p beacon (once p d).radio
  once-Says p beacon d h = record {
    pointer = refl;
    repeats = λ n. refl;
    bounded = omega arith;
    beacons = h;
  }

  -- An event that says nothing goes before.
  keeps-said :
      (id : ℕ) (es : List (Event P)) (left : ℕ) (d u : Node P) (p : P) (beacon : Option P)
      → Follows id es
      → (payloads u.out ≡ payloads d.out) × Says left p beacon u.radio
      → payloads (happen_all id es u).out ≡ payloads d.out ++ said es left p beacon
  keeps-said id es left d u p beacon after k =
      after left u p beacon k.1 ∙ ap (λ l. l ++ said es left p beacon) k.0

  handled-said :
      (id : ℕ) (es : List (Event P)) (m : IncomingMessage P)
      → Follows id es
      → Follows id (handled m ∷ es)
  unfolding handle
  handled-said id es m after left d p beacon s = split m.type refl
    where
      quiet :
          (c : Command P) (state : State)
          → payloads (c ∷ []) ≡ []
          → payloads (happen_all id es (told c state d)).out
            ≡ payloads d.out ++ said es left p beacon
      quiet c state h =
          keeps-said id es left d (told c state d) p beacon after
            (payloads-none d.out (c ∷ []) h, s)

      split :
          (type : IncomingMessageType)
          → m.type ≡ type
          → payloads (happen_all id es (handle blank id m d)).out
            ≡ payloads d.out ++ said (handled m ∷ es) left p beacon
      split try_to_transmit e =
          rw (e, handle)
            (let t = transmit-Says blank id left d p beacon s in
              after (left - 1) (try_transmit blank id d) p beacon t.1
              ∙ ap (λ l. l ++ said es (left - 1) p beacon) t.0
              ∙ append-append (payloads d.out) ((if left == 0 then beacon else some p) ∷ [])
                  (said es (left - 1) p beacon))
      split try_to_receive e = rw (e, handle) (quiet receive_async rx refl)
      split try_to_sleep e = rw (e, handle) (quiet enter_idle idle refl)
      split packet_received e = rw (e, handle) (quiet send_radio_cmd idle refl)
      split set_beacon e =
          rw (e, handle)
            (after left (record d { radio = record (d.radio) { packet_to_beacon = some m.packet } })
              p (some m.packet)
              (record {
                pointer = s.pointer;
                repeats = s.repeats;
                bounded = s.bounded;
                beacons = refl;
              }))
      split clear_beacon e =
          rw (e, handle)
            (after left (record d { radio = record (d.radio) { packet_to_beacon = none } }) p none
              (record {
                pointer = s.pointer;
                repeats = s.repeats;
                bounded = s.bounded;
                beacons = refl;
              }))
      split transmit_once e =
          rw (e, handle)
            (after 5 (once m.packet d) m.packet beacon (once-Says m.packet beacon d s.beacons))

  happen_all-said : (id : ℕ) (es : List (Event P)) → Follows id es
  unfolding handle
  happen_all-said id [] left d p beacon s = sym (append-nil (payloads d.out))
  happen_all-said id (timer ∷ es) left d p beacon s =
      keeps-said id es left d (on_timer blank id d) p beacon (happen_all-said id es)
        (timer-Keeps blank id left d p beacon s)
  happen_all-said id (chip air ∷ es) left d p beacon s =
      keeps-said id es left d (rx_callback blank air d) p beacon (happen_all-said id es)
        (chip-Keeps blank air left d p beacon s)
  happen_all-said id (handled m ∷ es) left d p beacon s =
      handled-said id es m (happen_all-said id es) left d p beacon s

  -- When the thread has handled the message to transmit a packet once, then whatever messages it
  -- handles and whatever interrupts come between, the next five transmissions carry that packet,
  -- and each later one carries the beacon as it then is, set, cleared or as it was before. Another
  -- message to transmit a packet once starts this again with its own packet. No other event
  -- transmits.
  pub payloads-transmit_once :
      (es : List (Event P)) (id : ℕ) (p : P) (d : Node P)
      → payloads
          (happen_all id es (handle blank id (record { type = transmit_once; packet = p }) d)).out
        ≡ payloads d.out ++ said es 5 p d.radio.packet_to_beacon
  unfolding handle
  payloads-transmit_once es id p d =
      happen_all-said id es 5 (once p d) p d.radio.packet_to_beacon
        (once-Says p d.radio.packet_to_beacon d refl)
