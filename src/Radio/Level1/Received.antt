-- ===== src/Radio/Level1/Received.antt =====
-- What the main thread fetches from the simple radio, and what the chip receives
-- (embedded/Radio/radio_lvl1.h).
use native.Mathlib.Omega.{arith}
use locket_api.Prelude.{
  ℕ, zero, suc, ◌+◌, ◌≡◌, refl, sym, ap, ◌∙◌, Option, none, some, List, [], ◌∷◌, ◌++◌, length,
  append-append, append-nil, ltb, get_elem?, drop, if◌then◌else◌, ◌>>=◌, Bool-cases, inl, inr,
}
use locket_api.Radio.Level1.{
  RMsg, r_msg_set_pwr, r_msg_transmit, Place, at_fetch, sending, at_beacon, at_receive, Device,
  Call, transmit, set_beacon_packet, clear_beacon_packet, set_power_level, send_message, call,
  fetch_received, fetch_message, send_packet, send_beacon, receive, thread, Action, called, fetched,
  stepped, initial, act, run,
}
use locket_api.Radio.Level1.Once.{due, Accounts, Settles, accepts, act-Settles}

module _ {P : Type 0} where
  -- What an action gives the main thread, and what it takes from the air: what the chip receives when
  -- the queue of packets has room.
  abbrev pub given : Action P → Device P → List (P × ℕ)
  given fetched d = elim (fetch_received d.radio).0 [ none ↦ [] | some packet ↦ packet ∷ [] ]
  given _ d = []

  abbrev heard : Option (P × ℕ) → Place → List (P × ℕ) → List (P × ℕ)
  heard (some packet) at_receive queue = if ltb (length queue) 4 then packet ∷ [] else []
  heard _ _ queue = []

  abbrev pub taken : Action P → Device P → List (P × ℕ)
  taken (stepped air) d = heard air d.place d.radio.received_packets
  taken _ d = []

  abbrev pub all_given : List (Action P) → Device P → List (P × ℕ)
  all_given [] d = []
  all_given (a ∷ later) d =
      given a d ++ (elim (act a d) [ none ↦ [] | some d' ↦ all_given later d' ])

  abbrev pub all_taken : List (Action P) → Device P → List (P × ℕ)
  all_taken [] d = []
  all_taken (a ∷ later) d =
      taken a d ++ (elim (act a d) [ none ↦ [] | some d' ↦ all_taken later d' ])

  -- What was given and what is left in the queue.
  abbrev pub Delivers : Option (Device P) → List (P × ℕ) → List (P × ℕ) → Type 0
  Delivers none gs ts = ⊥
  Delivers (some d) gs ts = gs ++ d.radio.received_packets ≡ ts

  received-call :
      (c : Call P) (d : Device P) → (call c d.radio).received_packets ≡ d.radio.received_packets
  unfolding call send_message
  received-call (transmit p) d = refl
  received-call (set_beacon_packet p) d = refl
  received-call clear_beacon_packet d = refl
  received-call (set_power_level level) d = refl

  received-fetch_message :
      (d : Device P) → (fetch_message d).radio.received_packets ≡ d.radio.received_packets
  unfolding fetch_message
  received-fetch_message d = split d.radio.r_msgq refl
    where
      split :
          (msgs : List RMsg)
          → d.radio.r_msgq ≡ msgs
          → (fetch_message d).radio.received_packets ≡ d.radio.received_packets
      split [] q = rw (q, fetch_message) refl
      split (r_msg_transmit ∷ msgs) q = rw (q, fetch_message) refl
      split (r_msg_set_pwr level ∷ msgs) q = rw (q, fetch_message) refl

  send_packet-Delivers :
      (left n : ℕ) (d : Device P)
      → due d.place ≡ suc left
      → Accounts n d
      → Delivers (send_packet left d) [] (d.radio.received_packets ++ [])
  unfolding send_packet
  send_packet-Delivers left n d e h = elim h.packet [
    | inl t ↦ rw t (sym (append-nil d.radio.received_packets))
    | inr z ↦ absurd (omega (arith, z.0, e))
  ]

  receive-Delivers :
      (air : Option (P × ℕ)) (d : Device P)
      → (receive air d).radio.received_packets
        ≡ d.radio.received_packets ++ heard air at_receive d.radio.received_packets
  unfolding receive
  receive-Delivers none d = sym (append-nil d.radio.received_packets)
  receive-Delivers (some packet) d = elim (Bool-cases (ltb (length d.radio.received_packets) 4)) [
    | inl t ↦ rw t refl
    | inr f ↦ rw f (sym (append-nil d.radio.received_packets))
  ]

  thread-Delivers :
      (air : Option (P × ℕ)) (n : ℕ) (d : Device P)
      → Accounts n d
      → Delivers
          (thread air d)
          []
          (d.radio.received_packets ++ heard air d.place d.radio.received_packets)
  unfolding thread send_beacon
  thread-Delivers air n d h = split air d.place refl
    where
      same : d.radio.received_packets ≡ d.radio.received_packets ++ []
      same = sym (append-nil d.radio.received_packets)

      split :
          (air : Option (P × ℕ)) (at : Place)
          → d.place ≡ at
          → Delivers
              (thread air d)
              []
              (d.radio.received_packets ++ heard air d.place d.radio.received_packets)
      split none at_fetch e = rw (e, thread) (received-fetch_message d ∙ same)
      split (some x) at_fetch e = rw (e, thread) (received-fetch_message d ∙ same)
      split none (sending zero) e = rw (e, thread) same
      split (some x) (sending zero) e = rw (e, thread) same
      split none (sending (suc left)) e =
          rw (e, thread) (send_packet-Delivers left n d (ap due e) h)
      split (some x) (sending (suc left)) e =
          rw (e, thread) (send_packet-Delivers left n d (ap due e) h)
      split none at_beacon e = rw (e, thread) same
      split (some x) at_beacon e = rw (e, thread) same
      split none at_receive e = rw (e, thread) (receive-Delivers none d)
      split (some x) at_receive e = rw (e, thread) (receive-Delivers (some x) d)

  act-Delivers :
      (a : Action P) (n : ℕ) (d : Device P)
      → Accounts n d
      → Delivers (act a d) (given a d) (d.radio.received_packets ++ taken a d)
  unfolding act fetch_received
  act-Delivers (called c) n d h = received-call c d ∙ sym (append-nil d.radio.received_packets)
  act-Delivers fetched n d h = split d.radio.received_packets
    where
      split :
          (queue : List (P × ℕ))
          → (elim (get_elem? queue 0) [ none ↦ [] | some packet ↦ packet ∷ [] ]) ++ drop 1 queue
            ≡ queue ++ []
      split [] = refl
      split (x ∷ xs) = ap (λ l. x ∷ l) (sym (append-nil xs))
  act-Delivers (stepped air) n d h = thread-Delivers air n d h

  joined :
      (g g' r r' t t' q : List (P × ℕ))
      → g ++ r ≡ q ++ t
      → g' ++ r' ≡ r ++ t'
      → (g ++ g') ++ r' ≡ q ++ (t ++ t')
  joined g g' r r' t t' q e f =
      append-append g g' r'
      ∙ (ap (λ l. g ++ l) f
          ∙ (sym (append-append g r t') ∙ (ap (λ l. l ++ t') e ∙ append-append q t t')))

  run_on :
      (o : Option (Device P)) (later : List (Action P)) (n : ℕ) (g t q : List (P × ℕ))
      → Settles n o
      → Delivers o g (q ++ t)
      → ((d : Device P)
          → Accounts n d
          → Delivers
              (run later d)
              (all_given later d)
              (d.radio.received_packets ++ all_taken later d))
      → Delivers
          (o >>= run later)
          (g ++ (elim o [ none ↦ [] | some d ↦ all_given later d ]))
          (q ++ (t ++ (elim o [ none ↦ [] | some d ↦ all_taken later d ])))
  run_on none later n g t q s h k = s
  run_on (some d) later n g t q s h k =
      join (run later d) (all_given later d) d.radio.received_packets (all_taken later d) h (k d s)
    where
      join :
          (o : Option (Device P)) (g' r t' : List (P × ℕ))
          → g ++ r ≡ q ++ t
          → Delivers o g' (r ++ t')
          → Delivers o (g ++ g') (q ++ (t ++ t'))
      join none g' r t' e f = f
      join (some d') g' r t' e f = joined g g' r d'.radio.received_packets t t' q e f

  run-Delivers :
      (later : List (Action P)) (n : ℕ) (d : Device P)
      → Accounts n d
      → Delivers (run later d) (all_given later d) (d.radio.received_packets ++ all_taken later d)
  unfolding run
  run-Delivers [] n d h = sym (append-nil d.radio.received_packets)
  run-Delivers (a ∷ later) n d h =
      run_on (act a d) later (accepts a d + n) (given a d) (taken a d) d.radio.received_packets
        (act-Settles a d n h) (act-Delivers a n d h)
        (λ d' h'. run-Delivers later (accepts a d + n) d' h')

  -- Whatever the two threads do, in any order, the packets that the main thread has fetched, and behind
  -- them those that wait in the queue, are the packets that the chip has received while the queue had
  -- room, in their order.
  pub run-initial-Delivers :
      (actions : List (Action P)) (blank : P)
      → Delivers
          (run actions (initial blank))
          (all_given actions (initial blank))
          (all_taken actions (initial blank))
  run-initial-Delivers actions blank =
      run-Delivers actions 0 (initial blank) (record { count = refl; packet = inr (refl, refl) })
