-- ===== src/Tests/Players.antt =====
-- The theorems on the players of sequences, applied to sequences of the vibration motor.
use native.Mathlib.Omega.{arith}
use locket_api.Prelude.{
  ℕ, ◌≡◌, refl, false, some, none, List, [], ◌∷◌, ◌==◌, if◌then◌else◌, inl, inr,
}
use locket_api.Api.Sequences.{VibroChunk, vibro, brr, setup, wait, end, repeat}
use locket_api.Sequencer.{Chunks, Effect, set_up, sleep, minus_one}
use locket_api.Sequencer.Emulator
use locket_api.Sequencer.Emulator.{run}
use locket_api.Sequencer.Firmware.{
  BaseSequencer, i_irq_handler, start_or_continue, start_or_restart, loop, round, switch, i_setup,
  repeat_round,
}
use locket_api.Sequencer.Mirror.{visible, same_player, at}
use locket_api.Sequencer.Equivalence.{i_irq_handler-run, start_or_continue-run}
use locket_api.Sequencer.Returning.{loop-returns}
use locket_api.Sequencer.Repeat.{times, playing}
use locket_api.Sequencer.Passes.{run-times}

abbrev twice : List VibroChunk
twice = vibro setup 100 ∷ vibro wait 99 ∷ vibro repeat 1 ∷ vibro end 0 ∷ []

-- The motor's chunks, with two sequences at the addresses 0 and 1.
abbrev motor : Chunks VibroChunk
motor = record {
  type_of = λ c. c.type;
  value_of = λ c. c.value;
  flash = λ a. if a == 0 then brr else twice;
}

abbrev quiet : BaseSequencer
quiet = record {
  ip_start_chunk = none;
  ip_current_chunk = none;
  repeat_counter = minus_one;
  i_evt_msg = 0;
}

start_or_continue-run_example :
    (k : ℕ) × (e : List (Effect VibroChunk)) × (run motor k
        (Emulator.start_or_continue 1 (same_player quiet))
      ≡ some (e, same_player (at 1 2 minus_one 0)))
    × (visible e ≡ visible (set_up (vibro setup 100) ∷ sleep 99 ∷ []))
unfolding start_or_continue start_or_restart i_irq_handler loop round switch i_setup
start_or_continue-run_example =
    start_or_continue-run motor 9 false 1 quiet (at 1 2 minus_one 0)
      (set_up (vibro setup 100) ∷ sleep 99 ∷ []) refl

i_irq_handler-run_example :
    (k : ℕ) × (e : List (Effect VibroChunk)) × (run motor k (same_player (at 1 2 minus_one 0))
      ≡ some (e, same_player (at 1 2 0 0)))
    × (visible e ≡ visible (set_up (vibro setup 100) ∷ sleep 99 ∷ []))
unfolding i_irq_handler loop round switch i_setup repeat_round
i_irq_handler-run_example =
    i_irq_handler-run motor 9 false (at 1 2 minus_one 0) (at 1 2 0 0)
      (set_up (vibro setup 100) ∷ sleep 99 ∷ []) refl

loop-returns_example :
    (out : List (Effect VibroChunk)) × (q : BaseSequencer) × (loop motor 5 (at 0 0 minus_one 0)
      ≡ some (out, q))
loop-returns_example = loop-returns motor 0 [] brr minus_one 0 refl refl

run-times_example :
    run motor 6 (playing 1 0 minus_one)
    ≡ some (
      times 2 (set_up (vibro setup 100) ∷ sleep 0 ∷ sleep 99 ∷ sleep 0 ∷ []),
      playing 1 3 minus_one,
    )
run-times_example =
    run-times motor 1 (vibro setup 100 ∷ vibro wait 99 ∷ []) (vibro end 0 ∷ []) (vibro repeat 1)
      refl (inl refl, (inr refl, tt)) refl (omega arith)
