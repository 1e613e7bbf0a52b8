-- ===== src/Radio/Level1/Once.antt =====
-- What the simple radio makes of the calls to transmit (embedded/Radio/radio_lvl1.h).
use native.Mathlib.Omega.{arith}
use locket_api.Prelude.{
  ℕ, zero, suc, ◌+◌, ◌*◌, ◌≡◌, refl, ap, subst, ◌∙◌, true, Option, none, some, List, [], ◌∷◌, ◌++◌,
  length, length-append, ltb, if◌then◌else◌, ◌>>=◌, Bool-cases, inl, inr, ◌⊎◌,
}
use locket_api.MsgQ.Laws.{send}
use locket_api.Radio.Level1.{
  RMsg, r_msg_set_pwr, r_msg_transmit, Place, at_fetch, sending, at_beacon, at_receive, Command,
  recalibrate, transmit_once, transmit_beacon, set_tx_power, send_radio_cmd, Device, Call, transmit,
  set_beacon_packet, clear_beacon_packet, set_power_level, send_message, call, fetch_received,
  fetch_message, send_packet, send_beacon, receive, thread, Action, called, fetched, stepped,
  initial, act, run,
}

-- The transmissions that are left of a request that the thread is at, and the requests in a queue.
abbrev pub due : Place → ℕ
due (sending left) = left
due _ = 0

abbrev pub requests : List RMsg → ℕ
requests [] = 0
requests (r_msg_transmit ∷ msgs) = suc (requests msgs)
requests (r_msg_set_pwr level ∷ msgs) = requests msgs

pub requests-append : (a b : List RMsg) → requests (a ++ b) ≡ requests a + requests b
requests-append [] b = omega arith
requests-append (r_msg_transmit ∷ a) b = omega (arith, requests-append a b)
requests-append (r_msg_set_pwr level ∷ a) b = requests-append a b

-- Whether a queue has room.
abbrev pub room : List RMsg → ℕ
room msgs = if ltb (length msgs) 4 then 1 else 0

pub requests-send :
    (msg : RMsg) (msgs : List RMsg)
    → requests (send 4 msg msgs).1 ≡ requests msgs + room msgs * requests (msg ∷ [])
requests-send msg msgs = elim (Bool-cases (ltb (length msgs) 4)) [
  | inl t ↦ rw t (requests-append msgs (msg ∷ []) ∙ omega arith)
  | inr f ↦ rw f (omega arith)
]

module _ {P : Type 0} where
  -- The packets of the calls to transmit that were given to the chip.
  abbrev pub once_packets : List (Command P) → List P
  once_packets [] = []
  once_packets (transmit_once p ∷ cs) = p ∷ once_packets cs
  once_packets (recalibrate ∷ cs) = once_packets cs
  once_packets (transmit_beacon p ∷ cs) = once_packets cs
  once_packets (set_tx_power level ∷ cs) = once_packets cs
  once_packets (send_radio_cmd ∷ cs) = once_packets cs

  pub once_packets-append :
      (a b : List (Command P)) → once_packets (a ++ b) ≡ once_packets a ++ once_packets b
  once_packets-append [] b = refl
  once_packets-append (transmit_once p ∷ a) b = ap (λ l. p ∷ l) (once_packets-append a b)
  once_packets-append (recalibrate ∷ a) b = once_packets-append a b
  once_packets-append (transmit_beacon p ∷ a) b = once_packets-append a b
  once_packets-append (set_tx_power level ∷ a) b = once_packets-append a b
  once_packets-append (send_radio_cmd ∷ a) b = once_packets-append a b

  -- The calls to transmit for which the queue has room.
  abbrev pub accepts : Action P → Device P → ℕ
  accepts (called (transmit p)) d = if ltb (length d.radio.r_msgq) 4 then 1 else 0
  accepts _ d = 0

  abbrev pub accepted : List (Action P) → Device P → ℕ
  accepted [] d = 0
  accepted (a ∷ later) d = accepts a d + (elim (act a d) [ none ↦ 0 | some d' ↦ accepted later d' ])

  -- The transmissions made and to come are four for each of some requests, and there is a packet where
  -- there is something to transmit.
  pub record Accounts (n : ℕ) (d : Device P) : Type 0 where
    pub count : length (once_packets d.out) + due d.place + 4 * requests d.radio.r_msgq ≡ 4 * n
    pub packet : (d.radio.pkt_tx_once ≡ true) ⊎ ((due d.place ≡ 0) × (requests d.radio.r_msgq ≡ 0))

  abbrev pub Settles : ℕ → Option (Device P) → Type 0
  Settles n none = ⊥
  Settles n (some d) = Accounts n d

  -- More commands, of which some are transmissions.
  more :
      (a b : List (Command P))
      → length (once_packets (a ++ b)) ≡ length (once_packets a) + length (once_packets b)
  more a b = ap length (once_packets-append a b) ∙ length-append (once_packets a) (once_packets b)

  call-Accounts :
      (c : Call P) (d : Device P) (n : ℕ)
      → Accounts n d
      → Accounts (accepts (called c) d + n) (record d { radio = call c d.radio })
  unfolding call send_message
  call-Accounts (transmit p) d n h = record {
    count = grind (arith, h.count, requests-send r_msg_transmit d.radio.r_msgq);
    packet = inl refl;
  }
  call-Accounts (set_beacon_packet p) d n h = record {
    count = omega (arith, h.count);
    packet = h.packet;
  }
  call-Accounts clear_beacon_packet d n h = record {
    count = omega (arith, h.count);
    packet = h.packet;
  }
  call-Accounts (set_power_level level) d n h =
      let same = requests-send (r_msg_set_pwr level) d.radio.r_msgq in
      record {
        count = omega (arith, h.count, same);
        packet = elim h.packet [ inl e ↦ inl e | inr e ↦ inr (e.0, omega (arith, e.1, same)) ];
      }

  fetch_message-Accounts :
      (d : Device P) (n : ℕ) → due d.place ≡ 0 → Accounts n d → Accounts n (fetch_message d)
  unfolding fetch_message
  fetch_message-Accounts d n e h = split d.radio.r_msgq refl
    where
      split : (msgs : List RMsg) → d.radio.r_msgq ≡ msgs → Accounts n (fetch_message d)
      split [] q =
          rw (q, fetch_message)
            (record {
              count = omega (arith, h.count, e, ap requests q);
              packet = inr (refl, ap requests q);
            })
      split (r_msg_transmit ∷ msgs) q =
          rw (q, fetch_message)
            (record {
              count = omega (arith, h.count, e, ap requests q);
              packet = elim h.packet [
                | inl t ↦ inl t
                | inr z ↦ absurd (omega (arith, z.1, ap requests q))
              ];
            })
      split (r_msg_set_pwr level ∷ msgs) q =
          rw (q, fetch_message)
            (record {
              count =
                  omega (arith, h.count, e, ap requests q, more d.out (set_tx_power level ∷ []));
              packet = elim h.packet [
                | inl t ↦ inl t
                | inr z ↦ inr (refl, omega (arith, z.1, ap requests q))
              ];
            })

  send_packet-Accounts :
      (left : ℕ) (d : Device P) (n : ℕ)
      → due d.place ≡ suc left
      → Accounts n d
      → Settles n (send_packet left d)
  unfolding send_packet
  send_packet-Accounts left d n e h = elim h.packet [
    | inl t ↦ rw t (record {
      count = omega (
        arith,
        h.count,
        e,
        more d.out (recalibrate ∷ transmit_once d.radio.packet_to_send_once ∷ []),
      );
      packet = inl refl;
    })
    | inr z ↦ absurd (omega (arith, z.0, e))
  ]

  send_beacon-Accounts :
      (d : Device P) (n : ℕ) → due d.place ≡ 0 → Accounts n d → Accounts n (send_beacon d)
  unfolding send_beacon
  send_beacon-Accounts d n e h = elim (Bool-cases d.radio.pkt_tx_beacon) [
    | inl t ↦ rw t (record {
      count = omega (
        arith,
        h.count,
        e,
        more d.out (recalibrate ∷ transmit_beacon d.radio.packet_beacon ∷ []),
      );
      packet = elim h.packet [ inl t ↦ inl t | inr z ↦ inr (refl, z.1) ];
    })
    | inr f ↦ rw f (record {
      count = omega (arith, h.count, e);
      packet = elim h.packet [ inl t ↦ inl t | inr z ↦ inr (refl, z.1) ];
    })
  ]

  receive-Accounts :
      (air : Option (P × ℕ)) (d : Device P) (n : ℕ)
      → due d.place ≡ 0
      → Accounts n d
      → Accounts n (receive air d)
  unfolding receive
  receive-Accounts none d n e h = record {
    count = omega (arith, h.count, e, more d.out (recalibrate ∷ []));
    packet = elim h.packet [ inl t ↦ inl t | inr z ↦ inr (refl, z.1) ];
  }
  receive-Accounts (some p) d n e h = record {
    count = omega (arith, h.count, e, more d.out (recalibrate ∷ send_radio_cmd ∷ []));
    packet = elim h.packet [ inl t ↦ inl t | inr z ↦ inr (refl, z.1) ];
  }

  thread-Settles :
      (air : Option (P × ℕ)) (d : Device P) (n : ℕ) → Accounts n d → Settles n (thread air d)
  unfolding thread
  thread-Settles air d n h = split d.place refl
    where
      split : (place : Place) → d.place ≡ place → Settles n (thread air d)
      split at_fetch q = rw (q, thread) (fetch_message-Accounts d n (ap due q) h)
      split (sending zero) q =
          rw (q, thread)
            (record {
              count = omega (arith, h.count, ap due q);
              packet = elim h.packet [ inl t ↦ inl t | inr z ↦ inr (refl, z.1) ];
            })
      split (sending (suc left)) q = rw (q, thread) (send_packet-Accounts left d n (ap due q) h)
      split at_beacon q = rw (q, thread) (send_beacon-Accounts d n (ap due q) h)
      split at_receive q = rw (q, thread) (receive-Accounts air d n (ap due q) h)

  pub act-Settles :
      (a : Action P) (d : Device P) (n : ℕ) → Accounts n d → Settles (accepts a d + n) (act a d)
  unfolding act fetch_received
  act-Settles (called c) d n h = call-Accounts c d n h
  act-Settles fetched d n h = record { count = omega (arith, h.count); packet = h.packet }
  act-Settles (stepped air) d n h =
      let e : 0 + n ≡ n = omega arith in rw e (thread-Settles air d n h)

  run_on :
      (o : Option (Device P)) (later : List (Action P)) (n : ℕ)
      → Settles n o
      → ((d : Device P) → Accounts n d → Settles (accepted later d + n) (run later d))
      → Settles ((elim o [ none ↦ 0 | some d ↦ accepted later d ]) + n) (o >>= run later)
  run_on none later n h k = h
  run_on (some d) later n h k = k d h

  run-Settles :
      (later : List (Action P)) (d : Device P) (n : ℕ)
      → Accounts n d
      → Settles (accepted later d + n) (run later d)
  unfolding run
  run-Settles [] d n h = let e : 0 + n ≡ n = omega arith in rw e h
  run-Settles (a ∷ later) d n h =
      subst (λ m. Settles m (run (a ∷ later) d)) (omega arith)
        (run_on (act a d) later (accepts a d + n) (act-Settles a d n h)
          (λ d' h'. run-Settles later d' (accepts a d + n) h'))

  -- Whatever the two threads do, in any order, the radio never transmits from a null pointer, and each
  -- call to transmit for which the queue has room stands for four transmissions: those that were made,
  -- those that are left in the thread's loop and four for each request in the queue come to four for
  -- each such call.
  pub run-initial :
      (actions : List (Action P)) (blank : P)
      → Settles (accepted actions (initial blank)) (run actions (initial blank))
  run-initial actions blank =
      let e : accepted actions (initial blank) + 0 ≡ accepted actions (initial blank) =
        omega arith in
      subst (λ m. Settles m (run actions (initial blank))) e
        (run-Settles actions (initial blank) 0 (record { count = refl; packet = inr (refl, refl) }))
