-- ===== src/Radio/Level1/Four.antt =====
-- A call to transmit that no other follows, on the simple radio (embedded/Radio/radio_lvl1.h).
use native.Mathlib.Omega.{arith}
use locket_api.Prelude.{
  ℕ, ◌+◌, ◌-◌, ◌*◌, ◌≡◌, ◌≤◌, ◌<◌, refl, sym, ap, subst, ◌∙◌, true, Option, none, some, List, [],
  ◌∷◌, ◌++◌, length, append-nil, ltb, ◌>>=◌, inl, inr,
}
use locket_api.Radio.Level1.{
  r_msg_transmit, Device, transmit, send_message, call, Action, called, act, run,
}
use locket_api.Radio.Level1.Once.{due, requests, requests-append, room, once_packets}
use locket_api.Radio.Level1.Quiet.{
  before_last, ahead_bound, Quiet, steps, copies, first-Quiet, rest-Quiet, steps-cons,
}
use locket_api.Radio.Level1.Steps.{act-Nears}
use locket_api.Radio.Level1.Near.{Queued, Nears}

module _ {P : Type 0} where
  -- The run survives, and has given the chip these packets of calls to transmit.
  abbrev pub Made : List P → Option (Device P) → Type 0
  Made ps none = ⊥
  Made ps (some d) = once_packets d.out ≡ ps

  module _ (p : P) (base : List P) where
    run_on :
        (o : Option (Device P)) (later : List (Action P)) (k m : ℕ)
        → Nears p base k o
        → ((d : Device P) → Nears p base k (some d) → Nears p base m (run later d))
        → Nears p base m (o >>= run later)
    run_on none later k m h f = h
    run_on (some d) later k m h f = f d h

    run-Nears :
        (later : List (Action P)) (k : ℕ) (d : Device P)
        → Quiet later
        → Nears p base k (some d)
        → Nears p base (k - steps later) (run later d)
    unfolding run
    run-Nears [] k d u h = let z : k - 0 ≡ k = omega arith in rw z h
    run-Nears (a ∷ later) k d u h =
        let k' = k - steps (a ∷ []) in
        let spent : k - steps (a ∷ later) ≡ k' - steps later = omega (arith, steps-cons a later) in
        rw spent (
          run_on (act a d) later k' (k' - steps later)
            (act-Nears p base a k d (first-Quiet a later u) h)
            (λ d' h'. run-Nears later k' d' (rest-Quiet a later u) h'))

    reached : (o : Option (Device P)) → Nears p base 0 o → Made (base ++ copies 4 p) o
    reached none h = h
    reached (some d) (inl h) = absurd (omega (arith, h.near))
    reached (some d) (inr h) =
        let over : due d.place ≡ 0 = omega (arith, h.near) in
        sym (append-nil (once_packets d.out))
        ∙ (ap (λ n. once_packets d.out ++ copies n p) (sym over) ∙ h.sent)

  -- A call to transmit, while no request is waiting or under way and the queue has room, makes the
  -- radio transmit the packet of the call exactly four times, with no other packet of a call, in as
  -- many steps of its thread as are three for each waiting message and eight more, whatever the main
  -- thread does meanwhile but transmit.
  pub run-transmit :
      (p : P) (later : List (Action P)) (d : Device P)
      → requests d.radio.r_msgq ≡ 0
      → due d.place ≡ 0
      → length d.radio.r_msgq < 4
      → Quiet later
      → 3 * length d.radio.r_msgq + 8 ≤ steps later
      → Made (once_packets d.out ++ (p ∷ p ∷ p ∷ p ∷ [])) (run (called (transmit p) ∷ later) d)
  unfolding run act call send_message
  run-transmit p later d none_waits still room u enough =
      let k = 3 * length d.radio.r_msgq + 8 in
      let base = once_packets d.out in
      let fits : ltb (length d.radio.r_msgq) 4 ≡ true = ground arith in
      let d' : Device P = record d { radio = call (transmit p) d.radio } in
      let added = requests-append d.radio.r_msgq (r_msg_transmit ∷ []) in
      let last = before_last d.radio.r_msgq none_waits in
      let first : Queued p base k d' = rw fits (record {
        pointer = refl;
        packet = refl;
        one = added ∙ omega (arith, none_waits);
        still = still;
        sent = refl;
        near = omega (arith, last, ahead_bound d.place);
      }) in
      let spent : k - steps later ≡ 0 = omega (arith, enough) in
      reached p base (run later d') (
        subst (λ n. Nears p base n (run later d')) spent
          (run-Nears p base later k d' u (inl first)))
