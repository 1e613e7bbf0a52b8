-- ===== src/Sequencer/Mirror.antt =====
-- A turn of the emulator's thread (emulator/sequenceable.h) against a round of the firmware's
-- handler (embedded/kl_lib/ChunkTypes.h).
use native.Mathlib.Omega.{arith}
use locket_api.Prelude.{
  ℕ, zero, suc, ◌≡◌, refl, sym, ap, ◌⊎◌, inl, inr, Bool, true, false, Option, none, some, List, [],
  ◌∷◌, ◌++◌, get_elem?, ◌==◌, if◌then◌else◌, Option-cases,
}
use locket_api.Api.Sequences.{ChunkType}
use locket_api.Sequencer.{Chunks, Effect, set_up, sleep, notify, reset_timer, switch_off, minus_one}
use locket_api.Sequencer.Emulator.{Sequenceable, Turn, goes, returns, repeat_turn, process, actuate}
use locket_api.Sequencer.Firmware.{
  BaseSequencer, Round, proceeds, breaks, strays, send_evt, i_setup, repeat_round, switch, round,
}

abbrev pub has_chunk : Option ℕ → Bool
has_chunk none = false
has_chunk (some i) = true

-- The emulator's player at the same chunk, its thread running unless the sequence has ended.
abbrev pub same_player : BaseSequencer → Sequenceable
same_player q = record {
  current_sequence = q.ip_start_chunk;
  current_chunk = q.ip_current_chunk;
  repeat_counter = q.repeat_counter;
  acting = has_chunk q.ip_current_chunk;
}

module _ {C : Type 0} where
  -- What can be seen of a device: no waits of no time, no events and no resets of timers.
  abbrev pub visible : List (Effect C) → List (Effect C)
  visible [] = []
  visible (set_up c ∷ out) = set_up c ∷ visible out
  visible (sleep zero ∷ out) = visible out
  visible (sleep (suc n) ∷ out) = sleep (suc n) ∷ visible out
  visible (notify id ∷ out) = visible out
  visible (reset_timer ∷ out) = visible out
  visible (switch_off ∷ out) = switch_off ∷ visible out

  pub visible-append : (a b : List (Effect C)) → visible (a ++ b) ≡ visible a ++ visible b
  visible-append [] b = refl
  visible-append (set_up c ∷ a) b = ap (λ o. set_up c ∷ o) (visible-append a b)
  visible-append (sleep zero ∷ a) b = visible-append a b
  visible-append (sleep (suc n) ∷ a) b = ap (λ o. sleep (suc n) ∷ o) (visible-append a b)
  visible-append (notify id ∷ a) b = visible-append a b
  visible-append (reset_timer ∷ a) b = visible-append a b
  visible-append (switch_off ∷ a) b = ap (λ o. switch_off ∷ o) (visible-append a b)

  -- A turn of the thread does what a round of the handler does.
  abbrev pub Mirrors : Round C → Turn C → Type 0
  Mirrors (proceeds out q) turn =
      (e : List (Effect C)) × (turn ≡ goes e (same_player q)) × (visible e ≡ visible out)
  Mirrors (breaks out q) turn =
      ((e : List (Effect C)) × (turn ≡ goes e (same_player q)) × (visible e ≡ visible out))
      ⊎ ((turn ≡ returns (same_player q)) × (visible out ≡ []))
  Mirrors strays turn = Unit

  visible-send_evt :
      (q : BaseSequencer) (out : List (Effect C)) → visible (send_evt q ++ out) ≡ visible out
  unfolding send_evt
  visible-send_evt q out =
      elim (q.i_evt_msg == 0)
        as (λ b. visible ((if b then [] else notify q.i_evt_msg ∷ []) ++ out) ≡ visible out) [
          | true ↦ refl
          | false ↦ refl
        ]

  visible-notify : (q : BaseSequencer) → visible (send_evt q) ≡ []
  unfolding send_evt
  visible-notify q =
      elim (q.i_evt_msg == 0) as (λ b. visible (if b then [] else notify q.i_evt_msg ∷ []) ≡ []) [
        | true ↦ refl
        | false ↦ refl
      ]

abbrev pub player : Option ℕ → Option ℕ → ℕ → ℕ → BaseSequencer
player start current count id = record {
  ip_start_chunk = start;
  ip_current_chunk = current;
  repeat_counter = count;
  i_evt_msg = id;
}

-- The firmware's player at a chunk of a sequence.
abbrev pub at : ℕ → ℕ → ℕ → ℕ → BaseSequencer
at sequence i count id = player (some sequence) (some i) count id

module _ {C : Type 0} (chunks : Chunks C) where
  if-Mirrors :
      (b : Bool) (x y : Round C) (t u : Turn C)
      → Mirrors x t
      → Mirrors y u
      → Mirrors (if b then x else y) (if b then t else u)
  if-Mirrors true x y t u m n = m
  if-Mirrors false x y t u m n = n

  repeat_turn-Mirrors :
      (i count sequence r id : ℕ)
      → Mirrors
          (repeat_round chunks i count (at sequence i r id))
          (repeat_turn chunks i count (same_player (at sequence i r id)))
  unfolding repeat_round repeat_turn
  repeat_turn-Mirrors i count sequence r id =
      if-Mirrors ((if r == minus_one then count else r) == 0) _ _ _ _ (sleep 0 ∷ [], refl, refl)
        (sleep 0 ∷ [], refl, refl)

  wait-Mirrors :
      (n i sequence r id : ℕ)
      → Mirrors {C = C}
          (if n == 0
            then proceeds [] (at sequence (suc i) r id)
            else breaks (sleep n ∷ []) (at sequence (suc i) r id))
          (goes (sleep n ∷ []) (same_player (at sequence (suc i) r id)))
  wait-Mirrors zero i sequence r id = (sleep 0 ∷ [], refl, refl)
  wait-Mirrors (suc n) i sequence r id =
      let h : (suc n == 0) ≡ false = ground arith in rw (h) (inl (sleep (suc n) ∷ [], refl, refl))

  process-Mirrors :
      (t : ChunkType) (i : ℕ) (chunk : C) (sequence r id : ℕ)
      → chunks.type_of chunk ≡ t
      → Mirrors
          (switch chunks i chunk (at sequence i r id))
          (process chunks i chunk (same_player (at sequence i r id)))
  unfolding switch i_setup process
  process-Mirrors ChunkType.setup i chunk sequence r id h =
      rw (h, switch, process) (set_up chunk ∷ sleep 0 ∷ [], refl, refl)
  process-Mirrors ChunkType.wait i chunk sequence r id h =
      rw (h, switch, process) (wait-Mirrors (chunks.value_of chunk) i sequence r id)
  process-Mirrors ChunkType.goto i chunk sequence r id h =
      rw (h, switch, process)
        (inl (sleep 1 ∷ [], refl, sym (visible-send_evt (at sequence i r id) (sleep 1 ∷ []))))
  process-Mirrors ChunkType.end i chunk sequence r id h =
      rw (h, switch, process) (inr (refl, visible-notify (at sequence i r id)))
  process-Mirrors ChunkType.repeat i chunk sequence r id h =
      rw (h, switch, process) (repeat_turn-Mirrors i (chunks.value_of chunk) sequence r id)

  round_at-Mirrors :
      (start current : Option ℕ) (r id : ℕ)
      → Mirrors
          (round chunks (player start current r id))
          (actuate chunks (same_player (player start current r id)))
  unfolding round actuate
  round_at-Mirrors none current r id = tt
  round_at-Mirrors (some sequence) none r id = tt
  round_at-Mirrors (some sequence) (some i) r id =
      elim (Option-cases (get_elem? (chunks.flash sequence) i)) [
        | inl h ↦ rw (h, round, actuate) tt
        | inr (chunk, h) ↦
            rw (h, round, actuate)
              (process-Mirrors (chunks.type_of chunk) i chunk sequence r id refl)
      ]

  pub round-Mirrors :
      (q : BaseSequencer) → Mirrors (round chunks q) (actuate chunks (same_player q))
  round-Mirrors q =
      round_at-Mirrors q.ip_start_chunk q.ip_current_chunk q.repeat_counter q.i_evt_msg
