-- ===== src/Sequencer/Emulator.antt =====
-- The emulator's player: emulator/sequenceable.h. A chunk's address is its index in the current
-- sequence, a null pointer is `none`, and a turn of the thread is one round of its loop.
use locket_api.Prelude.{
  ℕ, zero, suc, ◌+◌, ◌%◌, Bool, true, false, Option, none, some, List, [], ◌∷◌, ◌++◌, get_elem?,
  ◌==◌, if◌then◌else◌,
}
use locket_api.Api.Sequences.{ChunkType}
use locket_api.Sequencer.{Chunks, Effect, set_up, sleep, switch_off, minus_one}

-- `acting` says that the thread runs; the words of `repeat_counter` are those of an `int32_t`.
pub record Sequenceable : Type 0 where
  pub current_sequence : Option ℕ
  pub current_chunk : Option ℕ
  pub repeat_counter : ℕ
  pub acting : Bool

-- A turn goes on to the next, or ends the thread, or reads outside the array.
pub data Turn (C : Type 0) : Type 0 where
  goes : List (Effect C) → Sequenceable → Turn C
  returns : Sequenceable → Turn C
  lost : Turn C

unfoldable pub stop_thread : Sequenceable → Sequenceable
stop_thread s = record s { acting = false }

unfoldable pub start_thread : Sequenceable → Sequenceable
start_thread s = record s { acting = true }

unfoldable pub start_or_restart : ℕ → Sequenceable → Sequenceable
unfolding stop_thread start_thread
start_or_restart sequence s = start_thread (record (stop_thread s) {
  current_sequence = some sequence;
  current_chunk = some 0;
  repeat_counter = minus_one;
})

-- The pointers are compared, a null pointer being different from every sequence.
unfoldable pub start_or_continue : ℕ → Sequenceable → Sequenceable
unfolding start_or_restart
start_or_continue sequence s = elim s.current_sequence [
  | none ↦ start_or_restart sequence s
  | some current ↦ if sequence == current then s else start_or_restart sequence s
]

unfoldable pub stop : {C : Type 0} → Sequenceable → List (Effect C) × Sequenceable
unfolding stop_thread
stop s = (switch_off ∷ [], record (stop_thread s) { current_sequence = none; current_chunk = none })

module _ {C : Type 0} (chunks : Chunks C) where
  unfoldable pub repeat_turn : ℕ → ℕ → Sequenceable → Turn C
  repeat_turn i count s =
      let left = if s.repeat_counter == minus_one then count else s.repeat_counter in
      if left == 0
      then goes (sleep 0 ∷ [])
          (record s { repeat_counter = minus_one; current_chunk = some (suc i) })
      else goes (sleep 0 ∷ [])
          (record s { current_chunk = some 0; repeat_counter = (left + minus_one) % 4294967296 })

  -- The switch of the loop, at the chunk with an index.
  unfoldable pub process : ℕ → C → Sequenceable → Turn C
  unfolding repeat_turn
  process i chunk s = elim (chunks.type_of chunk) [
    | ChunkType.setup ↦
        goes (set_up chunk ∷ sleep 0 ∷ []) (record s { current_chunk = some (suc i) })
    | ChunkType.wait ↦
        goes (sleep (chunks.value_of chunk) ∷ []) (record s { current_chunk = some (suc i) })
    | ChunkType.goto ↦
        goes (sleep 1 ∷ []) (record s { current_chunk = some (chunks.value_of chunk) })
    | ChunkType.end ↦
        returns (record s { current_sequence = none; current_chunk = none; acting = false })
    | ChunkType.repeat ↦ repeat_turn i (chunks.value_of chunk) s
  ]

  -- One round of `Actuate`; with a null pointer it does nothing.
  unfoldable pub actuate : Sequenceable → Turn C
  unfolding process
  actuate s = elim s.current_sequence [
    | none ↦ goes [] s
    | some sequence ↦ elim s.current_chunk [
      | none ↦ goes [] s
      | some i ↦ elim (get_elem? (chunks.flash sequence) i) [
        | none ↦ lost
        | some chunk ↦ process i chunk s
      ]
    ]
  ]

  -- The thread's first rounds: what they do and the player after them. A thread that has ended, or
  -- has been told to stop, does no more; `none` is a read outside the array.
  unfoldable pub run : ℕ → Sequenceable → Option (List (Effect C) × Sequenceable)
  unfolding actuate
  run zero s = some ([], s)
  run (suc rounds) s = elim s.acting [
    | false ↦ some ([], s)
    | true ↦ elim (actuate s) [
      | goes out s' ↦ elim (run rounds s') [ none ↦ none | some r ↦ some (out ++ r.0, r.1) ]
      | returns s' ↦ some ([], s')
      | lost ↦ none
    ]
  ]
