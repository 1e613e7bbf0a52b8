-- ===== src/Radio/Level1/Steps.antt =====
-- The steps of the thread with a request to transmit, on the simple radio
-- (embedded/Radio/radio_lvl1.h).
use native.Mathlib.Omega.{arith}
use locket_api.Prelude.{
  ℕ, zero, suc, ◌-◌, ◌≡◌, refl, sym, ap, ◌∙◌, Option, some, List, [], ◌∷◌, ◌++◌, append-append, inl,
  inr,
}
use locket_api.Radio.Level1.{
  RMsg, r_msg_set_pwr, r_msg_transmit, Place, at_fetch, sending, at_beacon, at_receive, recalibrate,
  transmit_once, set_tx_power, Device, fetch_received, fetch_message, send_packet, send_beacon,
  receive, thread, Action, called, fetched, stepped, act,
}
use locket_api.Radio.Level1.Once.{due, requests, once_packets, once_packets-append}
use locket_api.Radio.Level1.Quiet.{
  before, before_first, ahead, Quiet, steps, copies, silent, receive_quiet, beacon_quiet,
}
use locket_api.Radio.Level1.Near.{Queued, Flying, Nears, call-Queued, call-Flying}

module _ {P : Type 0} where
  module _ (p : P) (base : List P) where
    fetch_message-Queued :
        (k : ℕ) (d : Device P)
        → d.place ≡ at_fetch
        → Queued p base k d
        → Nears p base (k - 1) (some (fetch_message d))
    unfolding fetch_message
    fetch_message-Queued k d e h = split d.radio.r_msgq refl
      where
        split :
            (msgs : List RMsg)
            → d.radio.r_msgq ≡ msgs
            → Nears p base (k - 1) (some (fetch_message d))
        split [] q = absurd (omega (arith, h.one, ap requests q))
        split (r_msg_transmit ∷ msgs) q =
            rw (q, fetch_message)
              (inr (record {
                pointer = h.pointer;
                packet = h.packet;
                no_more = omega (arith, h.one, ap requests q);
                sent = ap (λ l. l ++ copies 4 p) h.sent;
                near = omega (arith, h.near);
              }))
        split (r_msg_set_pwr level ∷ msgs) q =
            let told = silent d (set_tx_power level ∷ []) refl in
            rw (q, fetch_message)
              (inl (record {
                pointer = h.pointer;
                packet = h.packet;
                one = sym (ap requests q) ∙ h.one;
                still = refl;
                sent = told ∙ h.sent;
                near =
                    let counted : before d.radio.r_msgq ≡ suc (before msgs) =
                      ap before q ∙ before_first level msgs in
                    omega (arith, h.near, counted);
              }))

    fetch_message-Flying :
        (k : ℕ) (d : Device P)
        → d.place ≡ at_fetch
        → Flying p base k d
        → Flying p base (k - 1) (fetch_message d)
    unfolding fetch_message
    fetch_message-Flying k d e h = split d.radio.r_msgq refl
      where
        all_sent : once_packets d.out ++ [] ≡ base ++ copies 4 p
        all_sent = ap (λ at. once_packets d.out ++ copies (due at) p) (sym e) ∙ h.sent

        split : (msgs : List RMsg) → d.radio.r_msgq ≡ msgs → Flying p base (k - 1) (fetch_message d)
        split [] q =
            rw (q, fetch_message)
              (record {
                pointer = h.pointer;
                packet = h.packet;
                no_more = ap requests q;
                sent = all_sent;
                near = omega arith;
              })
        split (r_msg_transmit ∷ msgs) q = absurd (omega (arith, h.no_more, ap requests q))
        split (r_msg_set_pwr level ∷ msgs) q =
            rw (q, fetch_message)
              (record {
                pointer = h.pointer;
                packet = h.packet;
                no_more = sym (ap requests q) ∙ h.no_more;
                sent = ap (λ l. l ++ []) (silent d (set_tx_power level ∷ []) refl) ∙ all_sent;
                near = omega arith;
              })

    -- The thread goes on by a step that leaves the queue and transmits no packet of a call.
    step-Queued :
        (k : ℕ) (d d' : Device P)
        → d'.radio.pkt_tx_once ≡ d.radio.pkt_tx_once
        → d'.radio.packet_to_send_once ≡ d.radio.packet_to_send_once
        → d'.radio.r_msgq ≡ d.radio.r_msgq
        → once_packets d'.out ≡ once_packets d.out
        → due d'.place ≡ 0
        → ahead d.place ≡ suc (ahead d'.place)
        → Queued p base k d
        → Queued p base (k - 1) d'
    step-Queued k d d' t q m s z a h = record {
      pointer = t ∙ h.pointer;
      packet = q ∙ h.packet;
      one = ap requests m ∙ h.one;
      still = z;
      sent = s ∙ h.sent;
      near = omega (arith, h.near, a, ap before m);
    }

    step-Flying :
        (k : ℕ) (d d' : Device P)
        → d'.radio.pkt_tx_once ≡ d.radio.pkt_tx_once
        → d'.radio.packet_to_send_once ≡ d.radio.packet_to_send_once
        → d'.radio.r_msgq ≡ d.radio.r_msgq
        → once_packets d'.out ≡ once_packets d.out
        → due d'.place ≡ 0
        → due d.place ≡ 0
        → Flying p base k d
        → Flying p base (k - 1) d'
    step-Flying k d d' t q m s z y h = record {
      pointer = t ∙ h.pointer;
      packet = q ∙ h.packet;
      no_more = ap requests m ∙ h.no_more;
      sent =
          ap (λ l. l ++ copies (due d'.place) p) s
          ∙ (ap (λ n. once_packets d.out ++ copies n p) (z ∙ sym y) ∙ h.sent);
      near = omega (arith, z);
    }

    send_packet-Flying :
        (left k : ℕ) (d : Device P)
        → d.place ≡ sending (suc left)
        → Flying p base k d
        → Nears p base (k - 1) (send_packet left d)
    unfolding send_packet
    send_packet-Flying left k d e h =
        let q = d.radio.packet_to_send_once in
        let told = once_packets-append d.out (recalibrate ∷ transmit_once q ∷ []) in
        let shift : (once_packets d.out ++ (q ∷ [])) ++ copies left p
            ≡ once_packets d.out ++ copies (suc left) p =
          append-append (once_packets d.out) (q ∷ []) (copies left p)
          ∙ ap (λ x. once_packets d.out ++ (x ∷ copies left p)) h.packet in
        let due_now = ap due e in
        rw h.pointer (
          inr (record {
            pointer = refl;
            packet = h.packet;
            no_more = h.no_more;
            sent =
                ap (λ l. l ++ copies left p) told
                ∙ (shift ∙ (ap (λ at. once_packets d.out ++ copies (due at) p) (sym e) ∙ h.sent));
            near = omega (arith, h.near, due_now);
          }))

    thread-Queued :
        (air : Option (P × ℕ)) (k : ℕ) (d : Device P)
        → Queued p base k d
        → Nears p base (k - 1) (thread air d)
    unfolding thread send_beacon receive
    thread-Queued air k d h = split d.place refl
      where
        split : (at : Place) → d.place ≡ at → Nears p base (k - 1) (thread air d)
        split at_fetch e = rw (e, thread) (fetch_message-Queued k d e h)
        split (sending zero) e =
            rw (e, thread)
              (inl (
                step-Queued k d (record d { place = at_beacon }) refl refl refl refl refl
                  (ap ahead e) h))
        split (sending (suc left)) e = absurd (omega (arith, h.still, ap due e))
        split at_beacon e =
            rw (e, thread)
              (inl (
                step-Queued k d (send_beacon d) refl refl refl (beacon_quiet d) refl (ap ahead e)
                  h))
        split at_receive e =
            rw (e, thread)
              (inl (
                step-Queued k d (receive air d) refl refl refl (receive_quiet air d) refl
                  (ap ahead e) h))

    thread-Flying :
        (air : Option (P × ℕ)) (k : ℕ) (d : Device P)
        → Flying p base k d
        → Nears p base (k - 1) (thread air d)
    unfolding thread send_beacon receive
    thread-Flying air k d h = split d.place refl
      where
        split : (at : Place) → d.place ≡ at → Nears p base (k - 1) (thread air d)
        split at_fetch e = rw (e, thread) (inr (fetch_message-Flying k d e h))
        split (sending zero) e =
            rw (e, thread)
              (inr (
                step-Flying k d (record d { place = at_beacon }) refl refl refl refl refl (ap due e)
                  h))
        split (sending (suc left)) e = rw (e, thread) (send_packet-Flying left k d e h)
        split at_beacon e =
            rw (e, thread)
              (inr
                (step-Flying k d (send_beacon d) refl refl refl (beacon_quiet d) refl (ap due e) h))
        split at_receive e =
            rw (e, thread)
              (inr (
                step-Flying k d (receive air d) refl refl refl (receive_quiet air d) refl (ap due e)
                  h))

    pub act-Nears :
        (a : Action P) (k : ℕ) (d : Device P)
        → Quiet (a ∷ [])
        → Nears p base k (some d)
        → Nears p base (k - steps (a ∷ [])) (act a d)
    unfolding act fetch_received
    act-Nears (called c) k d u (inl h) =
        let z : k - 0 ≡ k = omega arith in rw z (inl (call-Queued p base c k d u h))
    act-Nears (called c) k d u (inr h) =
        let z : k - 0 ≡ k = omega arith in rw z (inr (call-Flying p base c k d u h))
    act-Nears fetched k d u h = let z : k - 0 ≡ k = omega arith in rw z h
    act-Nears (stepped air) k d u (inl h) = thread-Queued air k d h
    act-Nears (stepped air) k d u (inr h) = thread-Flying air k d h
