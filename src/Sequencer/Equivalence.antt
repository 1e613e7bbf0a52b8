-- ===== src/Sequencer/Equivalence.antt =====
-- The emulator's player and the firmware's do the same: what the handler of
-- embedded/kl_lib/ChunkTypes.h does between two timers, rounds of emulator/sequenceable.h do.
use locket_api.Prelude.{
  ℕ, zero, suc, ◌≡◌, refl, sym, ◌⊎◌, inl, inr, Bool, true, false, Option, none, some, List, [], ◌∷◌,
  ◌++◌, ◌==◌, if◌then◌else◌, append-nil, subst, Bool-cases,
}
use locket_api.Sequencer.{Chunks, Effect, reset_timer, minus_one}
use locket_api.Sequencer.Emulator.{
  Sequenceable, Turn, goes, returns, lost, repeat_turn, process, actuate, run,
}
use locket_api.Sequencer.Firmware.{
  BaseSequencer, Round, proceeds, breaks, strays, round, loop, i_irq_handler, start_or_continue,
  start_or_restart,
}
use locket_api.Sequencer.Emulator
use locket_api.Sequencer.Mirror.{
  has_chunk, same_player, visible, visible-append, Mirrors, player, at, round-Mirrors,
}

module _ {C : Type 0} (chunks : Chunks C) where
  run_goes :
      (k : ℕ) (s s' : Sequenceable) (e : List (Effect C))
      → s.acting ≡ true
      → actuate chunks s ≡ goes e s'
      → run chunks (suc k) s
        ≡ elim (run chunks k s') [ none ↦ none | some r ↦ some (e ++ r.0, r.1) ]
  unfolding run
  run_goes k s s' e a h = rw (a, h, run) refl

  run_returns :
      (s s' : Sequenceable)
      → s.acting ≡ true
      → actuate chunks s ≡ returns s'
      → run chunks 1 s ≡ some ([], s')
  unfolding run
  run_returns s s' a h = rw (a, h, run) refl

  -- Some rounds of the emulator's thread do what a run of the handler did, and end where it ended.
  abbrev Reproduces : Sequenceable → Option (List (Effect C) × BaseSequencer) → Type 0
  Reproduces s none = Unit
  Reproduces s (some r) =
      (k : ℕ) × (e : List (Effect C)) × (run chunks k s ≡ some (e, same_player r.1))
      × (visible e ≡ visible r.0)

  acting_lem :
      (start current : Option ℕ) (r id : ℕ)
      → (has_chunk current ≡ true) ⊎ (round chunks (player start current r id) ≡ strays)
  unfolding round
  acting_lem start (some i) r id = inl refl
  acting_lem none none r id = inr refl
  acting_lem (some sequence) none r id = inr refl

  proceeds-Reproduces :
      (q q' : BaseSequencer) (out e : List (Effect C))
      → has_chunk q.ip_current_chunk ≡ true
      → actuate chunks (same_player q) ≡ goes e (same_player q')
      → visible e ≡ visible out
      → (o : Option (List (Effect C) × BaseSequencer)) → Reproduces (same_player q') o
      → Reproduces (same_player q) (elim o [ none ↦ none | some r ↦ some (out ++ r.0, r.1) ])
  proceeds-Reproduces q q' out e a g v none m = tt
  proceeds-Reproduces q q' out e a g v (some r) (k, d, run_k, w) = (
    suc k,
    e ++ d,
    rw (run_goes k (same_player q) (same_player q') e a g, run_k) refl,
    rw (visible-append e d, visible-append out r.0, v, w) refl,
  )

  round-Reproduces :
      (n : ℕ) (q : BaseSequencer) (x : Round C)
      → round chunks q ≡ x
      → (has_chunk q.ip_current_chunk ≡ true) ⊎ (round chunks q ≡ strays)
      → Mirrors x (actuate chunks (same_player q))
      → ((q' : BaseSequencer) → Reproduces (same_player q') (loop chunks n q'))
      → Reproduces (same_player q) (loop chunks (suc n) q)
  unfolding loop run
  round-Reproduces n q x h (inr s) m rec = rw (s, loop) tt
  round-Reproduces n q (proceeds out q') h (inl a) (e, g, v) rec =
      rw (h, loop) (proceeds-Reproduces q q' out e a g v (loop chunks n q') (rec q'))
  round-Reproduces n q (breaks out q') h (inl a) (inl (e, g, v)) rec =
      rw (h, loop)
        (
          1,
          e ++ [],
          rw (run_goes 0 (same_player q) (same_player q') e a g, run) refl,
          rw (append-nil e) v,
        )
  round-Reproduces n q (breaks out q') h (inl a) (inr (g, v)) rec =
      rw (h, loop) (1, [], run_returns (same_player q) (same_player q') a g, sym v)
  round-Reproduces n q strays h a m rec = rw (h, loop) tt

  loop-Reproduces : (n : ℕ) (q : BaseSequencer) → Reproduces (same_player q) (loop chunks n q)
  unfolding loop
  loop-Reproduces zero q = tt
  loop-Reproduces (suc n) q =
      round-Reproduces n q (round chunks q) refl
        (acting_lem q.ip_start_chunk q.ip_current_chunk q.repeat_counter q.i_evt_msg)
        (round-Mirrors chunks q) (loop-Reproduces n)

  with_reset :
      (s : Sequenceable) (armed : Bool) (o : Option (List (Effect C) × BaseSequencer))
      → Reproduces s o
      → Reproduces s (elim o [
        | none ↦ none
        | some r ↦ some ((if armed then reset_timer ∷ [] else []) ++ r.0, r.1)
      ])
  with_reset s armed none m = tt
  with_reset s false (some r) m = m
  with_reset s true (some r) m = m

  i_irq_handler-Reproduces :
      (n : ℕ) (armed : Bool) (q : BaseSequencer)
      → Reproduces (same_player q) (i_irq_handler chunks n armed q)
  unfolding i_irq_handler
  i_irq_handler-Reproduces n armed q =
      with_reset (same_player q) armed (loop chunks n q) (loop-Reproduces n q)

  -- What a run of the timer's handler does, some rounds of the emulator's thread do as well, from
  -- the same place in the sequence to the same place.
  pub i_irq_handler-run :
      (n : ℕ) (armed : Bool) (q q' : BaseSequencer) (out : List (Effect C))
      → i_irq_handler chunks n armed q ≡ some (out, q')
      → (k : ℕ) × (e : List (Effect C)) × (run chunks k (same_player q) ≡ some (e, same_player q'))
        × (visible e ≡ visible out)
  i_irq_handler-run n armed q q' out h =
      subst (λ x. Reproduces (same_player q) x) h (i_irq_handler-Reproduces n armed q)

  continue-Reproduces :
      (n : ℕ) (armed : Bool) (sequence : ℕ) (start current : Option ℕ) (r id : ℕ)
      → Reproduces
          (Emulator.start_or_continue sequence (same_player (player start current r id)))
          (start_or_continue chunks n armed sequence (player start current r id))
  unfolding start_or_continue start_or_restart Emulator.start_or_continue Emulator.start_or_restart
      Emulator.start_thread Emulator.stop_thread run
  continue-Reproduces n armed sequence none current r id =
      i_irq_handler-Reproduces n armed (at sequence 0 minus_one id)
  continue-Reproduces n armed sequence (some s) current r id = elim (Bool-cases (sequence == s)) [
    | inl h ↦ rw (h, start_or_continue, Emulator.start_or_continue) (0, [], refl, refl)
    | inr h ↦
        rw (h, start_or_continue, Emulator.start_or_continue)
          (i_irq_handler-Reproduces n armed (at sequence 0 minus_one id))
  ]

  -- What a call of the firmware's `StartOrContinue` does at once, the emulator's call and some rounds
  -- of its thread do as well, from the same place in the same sequence to the same place.
  pub start_or_continue-run :
      (n : ℕ) (armed : Bool) (sequence : ℕ) (q q' : BaseSequencer) (out : List (Effect C))
      → start_or_continue chunks n armed sequence q ≡ some (out, q')
      → (k : ℕ) × (e : List (Effect C)) × (run chunks k
            (Emulator.start_or_continue sequence (same_player q))
          ≡ some (e, same_player q'))
        × (visible e ≡ visible out)
  start_or_continue-run n armed sequence q q' out h =
      subst (λ x. Reproduces (Emulator.start_or_continue sequence (same_player q)) x) h
        (continue-Reproduces n armed sequence q.ip_start_chunk q.ip_current_chunk q.repeat_counter
          q.i_evt_msg)
