-- ===== src/Sequencer/Firmware.antt =====
-- The firmware's player: embedded/kl_lib/ChunkTypes.h, with the `ISetup` of the beeper
-- (embedded/kl_lib/beeper.h) and of the vibration motor (embedded/kl_lib/vibro.h). The timer and
-- the event queue are the operating system's: their calls are effects, and what
-- `chVTIsArmedI` answers is an argument. A chunk's address is its index in the sequence.
use locket_api.Prelude.{
  ℕ, zero, suc, ◌+◌, ◌%◌, Bool, true, false, Option, none, some, List, [], ◌∷◌, ◌++◌, get_elem?,
  ◌==◌, if◌then◌else◌,
}
use locket_api.Api.Sequences.{ChunkType}
use locket_api.Sequencer.{Chunks, Effect, set_up, sleep, notify, reset_timer, switch_off, minus_one}

pub record BaseSequencer : Type 0 where
  pub ip_start_chunk : Option ℕ
  pub ip_current_chunk : Option ℕ
  pub repeat_counter : ℕ
  pub i_evt_msg : ℕ

abbrev pub evt_id_none : ℕ
evt_id_none = 0

-- A round of the handler's loop stays in the loop, leaves the handler, or reads outside the array.
pub data Round (C : Type 0) : Type 0 where
  proceeds : List (Effect C) → BaseSequencer → Round C
  breaks : List (Effect C) → BaseSequencer → Round C
  strays : Round C

-- The event of the sequence's end, if one is set up.
unfoldable pub send_evt : {C : Type 0} → BaseSequencer → List (Effect C)
send_evt q = if q.i_evt_msg == evt_id_none then [] else notify q.i_evt_msg ∷ []

unfoldable pub setup_seq_end_evt : ℕ → BaseSequencer → BaseSequencer
setup_seq_end_evt id q = record q { i_evt_msg = id }

unfoldable pub is_idle : BaseSequencer → Bool
is_idle q = elim q.ip_start_chunk [
  | none ↦ elim q.ip_current_chunk [ none ↦ true | some i ↦ false ]
  | some sequence ↦ false
]

module _ {C : Type 0} (chunks : Chunks C) where
  -- The device is set up by the chunk, and the loop proceeds at the next one.
  unfoldable pub i_setup : ℕ → C → BaseSequencer → Round C
  i_setup i chunk q = proceeds (set_up chunk ∷ []) (record q { ip_current_chunk = some (suc i) })

  unfoldable pub repeat_round : ℕ → ℕ → BaseSequencer → Round C
  repeat_round i count q =
      let left = if q.repeat_counter == minus_one then count else q.repeat_counter in
      if left == 0
      then proceeds [] (record q { repeat_counter = minus_one; ip_current_chunk = some (suc i) })
      else proceeds []
          (record q { ip_current_chunk = some 0; repeat_counter = (left + minus_one) % 4294967296 })

  -- The switch of the loop, at the chunk with an index.
  unfoldable pub switch : ℕ → C → BaseSequencer → Round C
  unfolding i_setup repeat_round send_evt
  switch i chunk q = elim (chunks.type_of chunk) [
    | ChunkType.setup ↦ i_setup i chunk q
    | ChunkType.wait ↦
        let next = record q { ip_current_chunk = some (suc i) } in
        if chunks.value_of chunk == 0
        then proceeds [] next
        else breaks (sleep (chunks.value_of chunk) ∷ []) next
    | ChunkType.goto ↦
        breaks (send_evt q ++ (sleep 1 ∷ []))
          (record q { ip_current_chunk = some (chunks.value_of chunk) })
    | ChunkType.end ↦
        breaks (send_evt q) (record q { ip_start_chunk = none; ip_current_chunk = none })
    | ChunkType.repeat ↦ repeat_round i (chunks.value_of chunk) q
  ]

  unfoldable pub round : BaseSequencer → Round C
  unfolding switch
  round q = elim q.ip_start_chunk [
    | none ↦ strays
    | some sequence ↦ elim q.ip_current_chunk [
      | none ↦ strays
      | some i ↦ elim (get_elem? (chunks.flash sequence) i) [
        | none ↦ strays
        | some chunk ↦ switch i chunk q
      ]
    ]
  ]

  -- The handler's loop. `none` is a read outside the array, or no return in that many rounds.
  unfoldable pub loop : ℕ → BaseSequencer → Option (List (Effect C) × BaseSequencer)
  unfolding round
  loop zero q = none
  loop (suc rounds) q = elim (round q) [
    | proceeds out q' ↦ elim (loop rounds q') [ none ↦ none | some r ↦ some (out ++ r.0, r.1) ]
    | breaks out q' ↦ some (out, q')
    | strays ↦ none
  ]

  unfoldable pub i_irq_handler : ℕ → Bool → BaseSequencer → Option (List (Effect C) × BaseSequencer)
  unfolding loop
  i_irq_handler rounds armed q = elim (loop rounds q) [
    | none ↦ none
    | some r ↦ some ((if armed then reset_timer ∷ [] else []) ++ r.0, r.1)
  ]

  unfoldable pub start_or_restart :
      ℕ → Bool → ℕ → BaseSequencer → Option (List (Effect C) × BaseSequencer)
  unfolding i_irq_handler
  start_or_restart rounds armed sequence q = i_irq_handler rounds armed (record q {
    repeat_counter = minus_one;
    ip_start_chunk = some sequence;
    ip_current_chunk = some 0;
  })

  unfoldable pub start_or_continue :
      ℕ → Bool → ℕ → BaseSequencer → Option (List (Effect C) × BaseSequencer)
  unfolding start_or_restart
  start_or_continue rounds armed sequence q = elim q.ip_start_chunk [
    | none ↦ start_or_restart rounds armed sequence q
    | some current ↦
        if sequence == current then some ([], q) else start_or_restart rounds armed sequence q
  ]

  unfoldable pub stop : Bool → BaseSequencer → List (Effect C) × BaseSequencer
  stop armed q = elim q.ip_start_chunk [
    | none ↦ (switch_off ∷ [], q)
    | some sequence ↦ (
      (if armed then reset_timer ∷ [] else []) ++ (switch_off ∷ []),
      record q { ip_start_chunk = none; ip_current_chunk = none },
    )
  ]
