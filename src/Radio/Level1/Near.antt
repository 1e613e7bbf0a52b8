-- ===== src/Radio/Level1/Near.antt =====
-- How a request to transmit goes on with each action, on the simple radio
-- (embedded/Radio/radio_lvl1.h).
use native.Mathlib.Omega.{arith}
use locket_api.Prelude.{
  ℕ, ◌+◌, ◌*◌, ◌≡◌, ◌≤◌, ◌∙◌, Bool, true, Option, none, some, List, [], ◌∷◌, ◌++◌, length, ltb,
  Bool-cases, inl, inr, ◌⊎◌,
}
use locket_api.Radio.Level1.{
  RMsg, r_msg_set_pwr, Place, Device, Call, transmit, set_beacon_packet, clear_beacon_packet,
  set_power_level, send_message, call, called,
}
use locket_api.Radio.Level1.Once.{due, requests, requests-append, requests-send, once_packets}
use locket_api.Radio.Level1.Quiet.{before, before-append, ahead, Quiet, copies}

module _ {P : Type 0} where
  module _ (p : P) (base : List P) where
    -- The request is in the queue, within some steps of its end.
    pub record IsQueued (k : ℕ) (tx : Bool) (q : P) (msgs : List RMsg) (at : Place) (made : List P)
        : Type 0 where
      pub pointer : tx ≡ true
      pub packet : q ≡ p
      pub one : requests msgs ≡ 1
      pub still : due at ≡ 0
      pub sent : made ≡ base
      pub near : 3 * before msgs + ahead at + 5 ≤ k

    -- The thread is at it, or through with it.
    pub record IsFlying (k : ℕ) (tx : Bool) (q : P) (msgs : List RMsg) (at : Place) (made : List P)
        : Type 0 where
      pub pointer : tx ≡ true
      pub packet : q ≡ p
      pub no_more : requests msgs ≡ 0
      pub sent : made ++ copies (due at) p ≡ base ++ copies 4 p
      pub near : due at ≤ k

    abbrev pub Queued : ℕ → Device P → Type 0
    Queued k d =
        IsQueued k d.radio.pkt_tx_once d.radio.packet_to_send_once d.radio.r_msgq d.place
          (once_packets d.out)

    abbrev pub Flying : ℕ → Device P → Type 0
    Flying k d =
        IsFlying k d.radio.pkt_tx_once d.radio.packet_to_send_once d.radio.r_msgq d.place
          (once_packets d.out)

    abbrev pub Nears : ℕ → Option (Device P) → Type 0
    Nears k none = ⊥
    Nears k (some d) = Queued k d ⊎ Flying k d

    pub call-Queued :
        (c : Call P) (k : ℕ) (d : Device P)
        → Quiet (called c ∷ [])
        → Queued k d
        → Queued k (record d { radio = call c d.radio })
    unfolding call send_message
    call-Queued (transmit q) k d u h = absurd u
    call-Queued (set_beacon_packet q) k d u h = h
    call-Queued clear_beacon_packet k d u h = h
    call-Queued (set_power_level level) k d u h =
        let msg = r_msg_set_pwr level in
        elim (Bool-cases (ltb (length d.radio.r_msgq) 4)) [
          | inl t ↦ rw t (record {
            pointer = h.pointer;
            packet = h.packet;
            still = h.still;
            sent = h.sent;
            one = requests-append d.radio.r_msgq (msg ∷ []) ∙ omega (arith, h.one);
            near =
                let same = before-append d.radio.r_msgq (msg ∷ []) h.one in
                omega (arith, h.near, same);
          })
          | inr f ↦ rw f h
        ]

    pub call-Flying :
        (c : Call P) (k : ℕ) (d : Device P)
        → Quiet (called c ∷ [])
        → Flying k d
        → Flying k (record d { radio = call c d.radio })
    unfolding call send_message
    call-Flying (transmit q) k d u h = absurd u
    call-Flying (set_beacon_packet q) k d u h = h
    call-Flying clear_beacon_packet k d u h = h
    call-Flying (set_power_level level) k d u h =
        let same = requests-send (r_msg_set_pwr level) d.radio.r_msgq in
        record {
          pointer = h.pointer;
          packet = h.packet;
          no_more = omega (arith, h.no_more, same);
          sent = h.sent;
          near = h.near;
        }
