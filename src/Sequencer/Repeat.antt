-- ===== src/Sequencer/Repeat.antt =====
-- How often a chunk that repeats lets the emulator's player (emulator/sequenceable.h) play what
-- stands before it.
use native.Mathlib.Omega.{arith}
use native.Mathlib.Nat.{suc-add, zero-add}
use locket_api.Prelude.{
  ℕ, zero, suc, ◌+◌, ◌%◌, ◌<◌, ◌≡◌, refl, sym, ap, ◌∙◌, ◌⊎◌, inl, inr, true, false, Option, none,
  some, List, [], ◌∷◌, ◌++◌, length, length-append, append-append, append-nil, get-append-cons,
  ◌==◌, if◌then◌else◌, subst,
}
use locket_api.Api.Sequences.{ChunkType}
use locket_api.Sequencer.{Chunks, Effect, set_up, sleep, minus_one}
use locket_api.Sequencer.Emulator.{Sequenceable, goes, repeat_turn, process, actuate, run}

-- The list some times over.
abbrev pub times {ℓ} : {A : Type ℓ} → ℕ → List A → List A
times zero xs = []
times (suc n) xs = xs ++ times n xs

-- The thread plays, at a chunk of a sequence.
abbrev pub playing : ℕ → ℕ → ℕ → Sequenceable
playing sequence i count = record {
  current_sequence = some sequence;
  current_chunk = some i;
  repeat_counter = count;
  acting = true;
}

module _ {C : Type 0} (chunks : Chunks C) where
  -- All chunks set up or wait.
  abbrev pub IsPlain : List C → Type 0
  IsPlain [] = Unit
  IsPlain (c ∷ cs) =
      ((chunks.type_of c ≡ ChunkType.setup) ⊎ (chunks.type_of c ≡ ChunkType.wait)) × IsPlain cs

  -- What such chunks do: each setup is followed by a wait of no time.
  abbrev pub played : List C → List (Effect C)
  played [] = []
  played (c ∷ cs) =
      let rest = played cs in
      elim (chunks.type_of c) [
        | ChunkType.setup ↦ set_up c ∷ sleep 0 ∷ rest
        | _ ↦ sleep (chunks.value_of c) ∷ rest
      ]

  abbrev pub after :
      List (Effect C)
      → Option (List (Effect C) × Sequenceable)
      → Option (List (Effect C) × Sequenceable)
  after out none = none
  after out (some r) = some (out ++ r.0, r.1)

  pub after-nil : (o : Option (List (Effect C) × Sequenceable)) → after [] o ≡ o
  after-nil none = refl
  after-nil (some r) = refl

  pub after-after :
      (a b : List (Effect C)) (o : Option (List (Effect C) × Sequenceable))
      → after a (after b o) ≡ after (a ++ b) o
  after-after a b none = refl
  after-after a b (some r) = ap (λ l. some (l, r.1)) (sym (append-append a b r.0))

  to_after :
      (e : List (Effect C)) (o : Option (List (Effect C) × Sequenceable))
      → elim o [ none ↦ none | some r ↦ some (e ++ r.0, r.1) ] ≡ after e o
  to_after e none = refl
  to_after e (some r) = refl

  actuate_at :
      (sequence : ℕ) (before rest : List C) (c : C) (r : ℕ)
      → chunks.flash sequence ≡ before ++ (c ∷ rest)
      → actuate chunks (playing sequence (length before) r)
        ≡ process chunks (length before) c (playing sequence (length before) r)
  unfolding actuate
  actuate_at sequence before rest c r h = rw (h, get-append-cons before c rest, actuate) refl

  run_turn :
      (k : ℕ) (s s' : Sequenceable) (e : List (Effect C))
      → s.acting ≡ true
      → actuate chunks s ≡ goes e s'
      → run chunks (suc k) s ≡ after e (run chunks k s')
  unfolding run
  run_turn k s s' e a h = rw (a, h, run) (to_after e (run chunks k s'))

  run-cons :
      (k sequence : ℕ) (before rest : List C) (c : C) (r : ℕ)
      → chunks.flash sequence ≡ before ++ (c ∷ rest)
      → (chunks.type_of c ≡ ChunkType.setup) ⊎ (chunks.type_of c ≡ ChunkType.wait)
      → run chunks (suc k) (playing sequence (length before) r)
        ≡ after (played (c ∷ [])) (run chunks k (playing sequence (suc (length before)) r))
  unfolding process
  run-cons k sequence before rest c r h (inl t) =
      rw (t, played)
        (run_turn k (playing sequence (length before) r) (playing sequence (suc (length before)) r)
          (set_up c ∷ sleep 0 ∷ []) refl
          (actuate_at sequence before rest c r h ∙ rw (t, process) refl))
  run-cons k sequence before rest c r h (inr t) =
      rw (t, played)
        (run_turn k (playing sequence (length before) r) (playing sequence (suc (length before)) r)
          (sleep (chunks.value_of c) ∷ []) refl
          (actuate_at sequence before rest c r h ∙ rw (t, process) refl))

  played-cons : (c : C) (cs : List C) → played (c ∷ cs) ≡ played (c ∷ []) ++ played cs
  played-cons c cs =
      elim (chunks.type_of c)
        as (λ t.
          elim t [
            | ChunkType.setup ↦ set_up c ∷ sleep 0 ∷ played cs
            | _ ↦ sleep (chunks.value_of c) ∷ played cs
          ]
          ≡ elim t [
            | ChunkType.setup ↦ set_up c ∷ sleep 0 ∷ []
            | _ ↦ sleep (chunks.value_of c) ∷ []
          ]
            ++ played cs) [
              | ChunkType.setup ↦ refl
              | ChunkType.wait ↦ refl
              | ChunkType.goto ↦ refl
              | ChunkType.end ↦ refl
              | ChunkType.repeat ↦ refl
            ]

  length-snoc : (before : List C) (c : C) → length (before ++ (c ∷ [])) ≡ suc (length before)
  length-snoc before c = omega (arith, length-append before (c ∷ []))

  pub run-plain :
      (k sequence : ℕ) (before body rest : List C) (r : ℕ)
      → chunks.flash sequence ≡ before ++ (body ++ rest)
      → IsPlain body
      → run chunks (length body + k) (playing sequence (length before) r)
        ≡ after (played body) (run chunks k (playing sequence (length (before ++ body)) r))
  run-plain k sequence before [] rest r h p =
      rw (zero-add, append-nil before)
        (sym (after-nil (run chunks k (playing sequence (length before) r))))
  run-plain k sequence before (c ∷ body) rest r h (p, ps) =
      rw (suc-add, played-cons c body)
        (run-cons (length body + k) sequence before (body ++ rest) c r h p
          ∙ ap (λ o. after (played (c ∷ [])) o)
              (subst
                (λ i.
                  run chunks (length body + k) (playing sequence i r)
                  ≡ after (played body)
                      (run chunks k (playing sequence (length (before ++ (c ∷ body))) r)))
                (length-snoc before c)
                (subst
                  (λ l.
                    run chunks (length body + k) (playing sequence (length (before ++ (c ∷ []))) r)
                    ≡ after (played body) (run chunks k (playing sequence (length l) r)))
                  (append-append before (c ∷ []) body)
                  (run-plain k sequence (before ++ (c ∷ [])) body rest r
                    (h ∙ sym (append-append before (c ∷ []) (body ++ rest))) ps)))
          ∙ after-after (played (c ∷ [])) (played body)
              (run chunks k (playing sequence (length (before ++ (c ∷ body))) r)))

  -- A repeating chunk that has none left goes on, and otherwise goes back with one less.
  pub run_last :
      (k sequence : ℕ) (body rest : List C) (c : C) (r : ℕ)
      → chunks.flash sequence ≡ body ++ (c ∷ rest)
      → chunks.type_of c ≡ ChunkType.repeat
      → (if r == minus_one then chunks.value_of c else r) ≡ 0
      → run chunks (suc k) (playing sequence (length body) r)
        ≡ after (sleep 0 ∷ []) (run chunks k (playing sequence (suc (length body)) minus_one))
  unfolding process repeat_turn
  run_last k sequence body rest c r h t z =
      run_turn k (playing sequence (length body) r) (playing sequence (suc (length body)) minus_one)
        (sleep 0 ∷ []) refl
        (actuate_at sequence body rest c r h ∙ rw (t, process, repeat_turn, z) refl)

  pub run_again :
      (k sequence : ℕ) (body rest : List C) (c : C) (r left : ℕ)
      → chunks.flash sequence ≡ body ++ (c ∷ rest)
      → chunks.type_of c ≡ ChunkType.repeat
      → (if r == minus_one then chunks.value_of c else r) ≡ suc left
      → left < minus_one
      → run chunks (suc k) (playing sequence (length body) r)
        ≡ after (sleep 0 ∷ []) (run chunks k (playing sequence 0 left))
  unfolding process repeat_turn
  run_again k sequence body rest c r left h t z l =
      let some_left : (suc left == 0) ≡ false = ground arith in
      let one_less : (suc left + minus_one) % 4294967296 ≡ left = omega arith in
      run_turn k (playing sequence (length body) r) (playing sequence 0 left) (sleep 0 ∷ []) refl (
        actuate_at sequence body rest c r h
        ∙ rw (t, process, repeat_turn, z, some_left, one_less) refl)
