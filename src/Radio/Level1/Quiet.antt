-- ===== src/Radio/Level1/Quiet.antt =====
-- Messages of the simple radio's queue, and actions that request nothing
-- (embedded/Radio/radio_lvl1.h).
use native.Mathlib.Omega.{arith}
use locket_api.Prelude.{
  ℕ, zero, suc, ◌+◌, ◌≡◌, ◌≤◌, refl, ap, ◌∙◌, Option, none, some, List, [], ◌∷◌, ◌++◌, length,
  append-nil, Bool-cases, inl, inr,
}
use locket_api.Radio.Level1.{
  RMsg, r_msg_set_pwr, r_msg_transmit, Place, at_fetch, sending, at_beacon, at_receive, Command,
  recalibrate, transmit_beacon, send_radio_cmd, Device, transmit, set_beacon_packet,
  clear_beacon_packet, set_power_level, send_beacon, receive, Action, called, fetched, stepped,
}
use locket_api.Radio.Level1.Once.{requests, once_packets, once_packets-append}

-- The messages before the first request of a queue.
unfoldable pub before : List RMsg → ℕ
before [] = 0
before (r_msg_transmit ∷ msgs) = 0
before (r_msg_set_pwr level ∷ msgs) = suc (before msgs)

pub before_first :
    (level : ℕ) (msgs : List RMsg) → before (r_msg_set_pwr level ∷ msgs) ≡ suc (before msgs)
unfolding before
before_first level msgs = refl

pub before-append : (a b : List RMsg) → requests a ≡ 1 → before (a ++ b) ≡ before a
unfolding before
before-append [] b h = absurd (omega (arith, h))
before-append (r_msg_transmit ∷ a) b h = refl
before-append (r_msg_set_pwr level ∷ a) b h = ap suc (before-append a b h)

pub before_last : (a : List RMsg) → requests a ≡ 0 → before (a ++ (r_msg_transmit ∷ [])) ≡ length a
unfolding before
before_last [] h = refl
before_last (r_msg_transmit ∷ a) h = absurd (omega (arith, h))
before_last (r_msg_set_pwr level ∷ a) h = ap suc (before_last a h) ∙ omega arith

-- The steps of the thread up to its next fetch.
abbrev pub ahead : Place → ℕ
ahead at_fetch = 0
ahead at_receive = 1
ahead at_beacon = 2
ahead (sending left) = 3

pub ahead_bound : (at : Place) → ahead at ≤ 3
ahead_bound at_fetch = omega arith
ahead_bound at_receive = omega arith
ahead_bound at_beacon = omega arith
ahead_bound (sending left) = omega arith

module _ {P : Type 0} where
  -- No action but the first is a call to transmit, in a list that goes on with them.
  abbrev pub Quiet : List (Action P) → Type 0
  Quiet [] = Unit
  Quiet (called (transmit p) ∷ later) = ⊥
  Quiet (_ ∷ later) = Quiet later

  -- The steps of the thread.
  abbrev pub steps : List (Action P) → ℕ
  steps [] = 0
  steps (stepped air ∷ later) = suc (steps later)
  steps (called c ∷ later) = steps later
  steps (fetched ∷ later) = steps later

  abbrev pub copies : ℕ → P → List P
  copies zero p = []
  copies (suc n) p = p ∷ copies n p

  pub silent :
      (d : Device P) (cs : List (Command P))
      → once_packets cs ≡ []
      → once_packets (d.out ++ cs) ≡ once_packets d.out
  silent d cs e =
      once_packets-append d.out cs ∙ (ap (λ l. once_packets d.out ++ l) e ∙ append-nil _)

  pub receive_quiet :
      (air : Option (P × ℕ)) (d : Device P) → once_packets (receive air d).out ≡ once_packets d.out
  unfolding receive
  receive_quiet none d = silent d (recalibrate ∷ []) refl
  receive_quiet (some q) d = silent d (recalibrate ∷ send_radio_cmd ∷ []) refl

  pub beacon_quiet : (d : Device P) → once_packets (send_beacon d).out ≡ once_packets d.out
  unfolding send_beacon
  beacon_quiet d = elim (Bool-cases d.radio.pkt_tx_beacon) [
    | inl t ↦ rw t (silent d (recalibrate ∷ transmit_beacon d.radio.packet_beacon ∷ []) refl)
    | inr f ↦ rw f refl
  ]

  pub first-Quiet : (a : Action P) (later : List (Action P)) → Quiet (a ∷ later) → Quiet (a ∷ [])
  first-Quiet (called (transmit q)) later u = u
  first-Quiet (called (set_beacon_packet q)) later u = tt
  first-Quiet (called clear_beacon_packet) later u = tt
  first-Quiet (called (set_power_level level)) later u = tt
  first-Quiet fetched later u = tt
  first-Quiet (stepped air) later u = tt

  pub rest-Quiet : (a : Action P) (later : List (Action P)) → Quiet (a ∷ later) → Quiet later
  rest-Quiet (called (transmit q)) later u = absurd u
  rest-Quiet (called (set_beacon_packet q)) later u = u
  rest-Quiet (called clear_beacon_packet) later u = u
  rest-Quiet (called (set_power_level level)) later u = u
  rest-Quiet fetched later u = u
  rest-Quiet (stepped air) later u = u

  pub steps-cons :
      (a : Action P) (later : List (Action P)) → steps (a ∷ later) ≡ steps (a ∷ []) + steps later
  steps-cons (called c) later = omega arith
  steps-cons fetched later = omega arith
  steps-cons (stepped air) later = omega arith
