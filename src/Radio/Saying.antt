-- ===== src/Radio/Saying.antt =====
-- The payloads of the transmissions (embedded/Radio/radio_lvl2.h), and what a packet that is to be
-- sent once and the beacon say of them.
use native.Mathlib.Omega.{arith}
use locket_api.Prelude.{
  ℕ, zero, suc, ◌+◌, ◌-◌, ◌%◌, ◌<◌, ◌≢◌, ◌≡◌, refl, ap, ◌∙◌, false, Option, none, some, List, [],
  ◌∷◌, ◌++◌, append-nil, ◌==◌, if◌then◌else◌, Bool-cases, inl, inr,
}
use locket_api.Radio.{FullRadioPacket, end_of_pkt_shift_tics}
use locket_api.Radio.Time.{Wish, reception, transmission, sleep, metadata_of, on_timer_i, adjust_i}
use locket_api.Radio.Level2.{
  tx, RadioLevel2, schedule_reception, schedule_transmission, schedule_sleep, send_message, idle,
  rx, State, grant, on_timer, rx_callback, add_received_packet, Command, enter_idle, set_tx_power,
  recalibrate, transmit, receive_async, set_counter, send_radio_cmd, Node, take_payload,
  power_commands, try_transmit,
}

module _ {P : Type 0} where
  -- The payloads of the packets that were given to the chip.
  abbrev pub payloads : List (Command P) → List (Option P)
  payloads [] = []
  payloads (transmit packet ∷ cs) = packet.payload ∷ payloads cs
  payloads (enter_idle ∷ cs) = payloads cs
  payloads (set_tx_power p ∷ cs) = payloads cs
  payloads (recalibrate ∷ cs) = payloads cs
  payloads (receive_async ∷ cs) = payloads cs
  payloads (set_counter n ∷ cs) = payloads cs
  payloads (send_radio_cmd ∷ cs) = payloads cs

  pub payloads-append : (a b : List (Command P)) → payloads (a ++ b) ≡ payloads a ++ payloads b
  payloads-append [] b = refl
  payloads-append (transmit packet ∷ a) b = ap (λ l. packet.payload ∷ l) (payloads-append a b)
  payloads-append (enter_idle ∷ a) b = payloads-append a b
  payloads-append (set_tx_power p ∷ a) b = payloads-append a b
  payloads-append (recalibrate ∷ a) b = payloads-append a b
  payloads-append (receive_async ∷ a) b = payloads-append a b
  payloads-append (set_counter n ∷ a) b = payloads-append a b
  payloads-append (send_radio_cmd ∷ a) b = payloads-append a b

  pub payloads-none :
      (out c : List (Command P)) → payloads c ≡ [] → payloads (out ++ c) ≡ payloads out
  payloads-none out c h =
      payloads-append out c ∙ ap (λ l. payloads out ++ l) h ∙ append-nil (payloads out)

  -- The packet that is to be sent so many times more, and the beacon.
  pub record IsSaying (left : ℕ) (p : P) (beacon once : Option P) (repeats_left : ℕ)
      (packet_to_beacon : Option P) : Type 0 where
    pub pointer : once ≡ (if left == 0 then none else some p)
    pub repeats : left ≢ 0 → repeats_left ≡ left
    pub bounded : left < 256
    pub beacons : packet_to_beacon ≡ beacon

  abbrev pub Says : ℕ → P → Option P → RadioLevel2 P → Type 0
  Says left p beacon r =
      IsSaying left p beacon r.packet_to_transmit_once r.repeats_left r.packet_to_beacon

  -- An event after which nothing more is said, and the same is still to be said.
  abbrev pub Keeps : ℕ → P → Option P → Node P → Node P → Type 0
  Keeps left p beacon d u = (payloads u.out ≡ payloads d.out) × Says left p beacon u.radio

module _ {P : Type 0} (blank : P) where
  payloads-power :
      (r : RadioLevel2 P) (c : List (Command P))
      → payloads (power_commands blank r ++ c) ≡ payloads c
  unfolding power_commands
  payloads-power r c = elim (Bool-cases (r.transmission_power == 0)) [
    | inl h ↦ rw (h, power_commands) refl
    | inr h ↦ rw (h, power_commands) refl
  ]

  abbrev packet_at : ℕ → Node P → FullRadioPacket P
  packet_at id d = record {
    payload = (take_payload blank (record d.radio { state = tx })).0;
    metadata = metadata_of id d.time;
  }

  abbrev try_commands : ℕ → Node P → List (Command P)
  try_commands id d =
      enter_idle ∷ power_commands blank d.radio ++ (recalibrate ∷ transmit (packet_at id d) ∷ [])

  payloads-try_transmit :
      (id : ℕ) (d : Node P) (payload : Option P)
      → (take_payload blank (record d.radio { state = tx })).0 ≡ payload
      → payloads (try_transmit blank id d).out ≡ payloads d.out ++ (payload ∷ [])
  unfolding try_transmit
  payloads-try_transmit id d payload h =
      payloads-append d.out (try_commands id d)
      ∙ ap (λ l. payloads d.out ++ l)
          (payloads-power d.radio (recalibrate ∷ transmit (packet_at id d) ∷ [])
            ∙ ap (λ x. x ∷ []) h)

  -- A transmission.
  pub transmit-Says :
      (id left : ℕ) (d : Node P) (p : P) (beacon : Option P)
      → Says left p beacon d.radio
      → (payloads (try_transmit blank id d).out
          ≡ payloads d.out ++ ((if left == 0 then beacon else some p) ∷ []))
        × Says (left - 1) p beacon (try_transmit blank id d).radio
  unfolding try_transmit take_payload
  transmit-Says id zero d p beacon s = (
    payloads-try_transmit id d beacon (rw (s.pointer, take_payload) s.beacons),
    record {
      pointer = rw (s.pointer, take_payload) s.pointer;
      repeats = λ n. absurd (n (omega arith));
      bounded = omega arith;
      beacons = rw (s.pointer, take_payload) s.beacons;
    },
  )
  transmit-Says id (suc r) d p beacon s =
      let some_left : (suc r == 0) ≡ false = ground arith in
      let once : d.radio.packet_to_transmit_once ≡ some p = rw some_left at s.pointer in
      let repeats : d.radio.repeats_left ≡ suc r = s.repeats (omega arith) in
      let left : (d.radio.repeats_left + 255) % 256 ≡ r = omega (arith, repeats, s.bounded) in
      let less : suc r - 1 ≡ r = omega arith in
      (
        payloads-try_transmit id d (if suc r == 0 then beacon else some p)
            (rw (once, some_left, take_payload) refl),
        rw less (record {
          pointer = rw (once, left, take_payload) refl;
          repeats = λ n. rw (once, left, take_payload) refl;
          bounded = omega (arith, s.bounded);
          beacons = rw (once, take_payload) s.beacons;
        }),
      )

  -- A call that only sends messages to the thread.
  schedule_reception-Says :
      (left : ℕ) (p : P) (beacon : Option P) (r : RadioLevel2 P)
      → Says left p beacon r
      → Says left p beacon (schedule_reception blank r)
  unfolding schedule_reception send_message
  schedule_reception-Says left p beacon r s = split r.state refl
    where
      split : (state : State) → r.state ≡ state → Says left p beacon (schedule_reception blank r)
      split idle e = rw (e, schedule_reception, send_message) s
      split rx e = rw (e, schedule_reception) s
      split tx e = rw (e, schedule_reception, send_message) s

  schedule_sleep-Says :
      (left : ℕ) (p : P) (beacon : Option P) (r : RadioLevel2 P)
      → Says left p beacon r
      → Says left p beacon (schedule_sleep blank r)
  unfolding schedule_sleep send_message
  schedule_sleep-Says left p beacon r s = split r.state refl
    where
      split : (state : State) → r.state ≡ state → Says left p beacon (schedule_sleep blank r)
      split idle e = rw (e, schedule_sleep) s
      split rx e = rw (e, schedule_sleep, send_message) s
      split tx e = rw (e, schedule_sleep, send_message) s

  grant-Says :
      (ws : List Wish) (left : ℕ) (p : P) (beacon : Option P) (r : RadioLevel2 P)
      → Says left p beacon r
      → Says left p beacon (grant blank ws r)
  unfolding grant schedule_transmission send_message
  grant-Says [] left p beacon r s = s
  grant-Says (reception ∷ ws) left p beacon r s =
      grant-Says ws left p beacon (schedule_reception blank r)
        (schedule_reception-Says left p beacon r s)
  grant-Says (transmission ∷ ws) left p beacon r s =
      grant-Says ws left p beacon (schedule_transmission blank r) s
  grant-Says (sleep ∷ ws) left p beacon r s =
      grant-Says ws left p beacon (schedule_sleep blank r) (schedule_sleep-Says left p beacon r s)

  pub timer-Keeps :
      (id left : ℕ) (d : Node P) (p : P) (beacon : Option P)
      → Says left p beacon d.radio
      → Keeps left p beacon d (on_timer blank id d)
  unfolding on_timer
  timer-Keeps id left d p beacon s =
      (refl, grant-Says (on_timer_i id d.time).1 left p beacon d.radio s)

  pub chip-Keeps :
      (air : Option (FullRadioPacket P × ℕ)) (left : ℕ) (d : Node P) (p : P) (beacon : Option P)
      → Says left p beacon d.radio
      → Keeps left p beacon d (rx_callback blank air d)
  unfolding rx_callback
  chip-Keeps none left d p beacon s = (refl, s)
  chip-Keeps (some (packet, rssi)) left d p beacon s = (
    elim (Bool-cases (adjust_i packet.metadata d.time).1) [
      | inl h ↦ rw h (payloads-none d.out (set_counter end_of_pkt_shift_tics ∷ []) refl)
      | inr h ↦ rw h refl
    ],
    split packet.payload refl,
  )
    where
      split :
          (payload : Option P)
          → packet.payload ≡ payload
          → Says left p beacon (rx_callback blank (some (packet, rssi)) d).radio
      split none e = rw (e, rx_callback) s
      split (some q) e = rw (e, rx_callback, add_received_packet, send_message) s
