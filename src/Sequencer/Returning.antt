-- ===== src/Sequencer/Returning.antt =====
-- Where the loop of the timer's handler returns: embedded/kl_lib/ChunkTypes.h.
use native.Mathlib.Omega.{arith}
use locket_api.Prelude.{
  ℕ, suc, ◌≡◌, refl, sym, ◌∙◌, Bool, true, false, Option, none, some, List, [], ◌∷◌, ◌++◌, length,
  length-append, append-append, get-append-cons, Bool-cases, inl, inr, ◌==◌, if◌then◌else◌, subst,
}
use locket_api.Api.Sequences.{ChunkType}
use locket_api.Sequencer.{Chunks, Effect, set_up}
use locket_api.Sequencer.Firmware.{BaseSequencer, i_setup, switch, round, loop}
use locket_api.Sequencer.Mirror.{at}

module _ {C : Type 0} (chunks : Chunks C) where
  -- The chunks come to a wait of some time, a goto or an end, with no repetition before it.
  abbrev pub pauses : List C → Bool
  pauses [] = false
  pauses (c ∷ cs) =
      let rest = pauses cs in
      elim (chunks.type_of c) [
        | ChunkType.setup ↦ rest
        | ChunkType.wait ↦ if chunks.value_of c == 0 then rest else true
        | ChunkType.goto ↦ true
        | ChunkType.end ↦ true
        | ChunkType.repeat ↦ false
      ]

  abbrev Returns : Option (List (Effect C) × BaseSequencer) → Type 0
  Returns o = (out : List (Effect C)) × (q : BaseSequencer) × (o ≡ some (out, q))

  after :
      (out : List (Effect C)) (o : Option (List (Effect C) × BaseSequencer))
      → Returns o
      → Returns (elim o [ none ↦ none | some r ↦ some (out ++ r.0, r.1) ])
  after out o (out', q, h) = rw (h) (out ++ out', q, refl)

  round-at :
      (sequence : ℕ) (before rest : List C) (c : C) (r id : ℕ)
      → chunks.flash sequence ≡ before ++ (c ∷ rest)
      → round chunks (at sequence (length before) r id)
        ≡ switch chunks (length before) c (at sequence (length before) r id)
  unfolding round
  round-at sequence before rest c r id h = rw (h, get-append-cons before c rest, round) refl

  length-snoc : (before : List C) (c : C) → length (before ++ (c ∷ [])) ≡ suc (length before)
  length-snoc before c = omega (arith, length-append before (c ∷ []))

  loop-returns_at :
      (t : ChunkType) (sequence : ℕ) (before rest : List C) (c : C) (r id : ℕ)
      → chunks.type_of c ≡ t
      → chunks.flash sequence ≡ before ++ (c ∷ rest)
      → (pauses rest ≡ true
          → Returns (loop chunks (length rest) (at sequence (suc (length before)) r id)))
      → pauses (c ∷ rest) ≡ true
      → Returns (loop chunks (suc (length rest)) (at sequence (length before) r id))
  unfolding loop switch i_setup
  loop-returns_at ChunkType.setup sequence before rest c r id t h rec =
      rw (round-at sequence before rest c r id h, t, loop, pauses)
        (λ p.
          after (set_up c ∷ []) (loop chunks (length rest) (at sequence (suc (length before)) r id))
            (rec p))
  loop-returns_at ChunkType.wait sequence before rest c r id t h rec =
      elim (Bool-cases (chunks.value_of c == 0)) [
        | inl z ↦
            rw (round-at sequence before rest c r id h, t, z, loop, pauses)
              (λ p.
                after [] (loop chunks (length rest) (at sequence (suc (length before)) r id))
                  (rec p))
        | inr z ↦
            rw (round-at sequence before rest c r id h, t, z, loop, pauses) (λ p. (_, _, refl))
      ]
  loop-returns_at ChunkType.goto sequence before rest c r id t h rec =
      rw (round-at sequence before rest c r id h, t, loop) (λ p. (_, _, refl))
  loop-returns_at ChunkType.end sequence before rest c r id t h rec =
      rw (round-at sequence before rest c r id h, t, loop) (λ p. (_, _, refl))
  loop-returns_at ChunkType.repeat sequence before rest c r id t h rec =
      rw (t, pauses) (λ p. ground arith)

  -- The handler's loop returns within as many rounds as there are chunks from the current one on, if
  -- these come to a wait of some time, a goto or an end with no repetition before it.
  pub loop-returns :
      (sequence : ℕ) (before rest : List C) (r id : ℕ)
      → chunks.flash sequence ≡ before ++ rest
      → pauses rest ≡ true
      → (out : List (Effect C)) × (q : BaseSequencer) × (loop chunks
            (length rest)
            (at sequence (length before) r id)
          ≡ some (out, q))
  loop-returns sequence before [] r id h p = ground arith
  loop-returns sequence before (c ∷ rest) r id h p =
      loop-returns_at (chunks.type_of c) sequence before rest c r id refl h
        (λ p'.
          subst (λ n. Returns (loop chunks (length rest) (at sequence n r id)))
            (length-snoc before c)
            (loop-returns sequence (before ++ (c ∷ [])) rest r id
              (h ∙ sym (append-append before (c ∷ []) rest)) p'))
        p
