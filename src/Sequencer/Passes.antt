-- ===== src/Sequencer/Passes.antt =====
-- The passes of the emulator's player (emulator/sequenceable.h) over a sequence that repeats.
use native.Mathlib.Omega.{arith}
use native.Mathlib.Nat.{zero-add, add-zero}
use locket_api.Prelude.{
  ℕ, zero, suc, ◌+◌, ◌<◌, ◌≡◌, refl, ap, ◌∙◌, some, List, [], ◌∷◌, ◌++◌, length, length-append,
  append-nil, ◌==◌, if◌then◌else◌, subst,
}
use locket_api.Api.Sequences.{ChunkType}
use locket_api.Sequencer.{Chunks, sleep, minus_one}
use locket_api.Sequencer.Emulator.{run}
use locket_api.Sequencer.Repeat.{
  times, playing, IsPlain, played, after, after-after, run-plain, run_last, run_again,
}

module _ {C : Type 0} (chunks : Chunks C) where
  -- The chunks of a pass, and what the pass does.
  abbrev pass : List C → C → List C
  pass body c = body ++ (c ∷ [])

  length-pass :
      (body rest : List C) (c : C) (k : ℕ)
      → length (pass body c ++ rest) + k ≡ length body + suc (length rest + k)
  length-pass body rest c k =
      omega (arith, length-append body (c ∷ []), length-append (pass body c) rest)

  passes :
      (m k sequence : ℕ) (body rest : List C) (c : C) (r : ℕ)
      → chunks.flash sequence ≡ body ++ (c ∷ rest)
      → IsPlain chunks body
      → chunks.type_of c ≡ ChunkType.repeat
      → (if r == minus_one then chunks.value_of c else r) ≡ m
      → m < minus_one
      → run chunks (length (times (suc m) (pass body c)) + k) (playing sequence 0 r)
        ≡ after chunks
            (times (suc m) (played chunks body ++ (sleep 0 ∷ [])))
            (run chunks k (playing sequence (suc (length body)) minus_one))
  passes zero k sequence body rest c r h p t z l =
      rw (length-pass body [] c k, append-nil (played chunks body ++ (sleep 0 ∷ [])), zero-add)
        (run-plain chunks (suc k) sequence [] body (c ∷ rest) r h p
          ∙ ap (λ o. after chunks (played chunks body) o)
              (run_last chunks k sequence body rest c r h t z)
          ∙ after-after chunks (played chunks body) (sleep 0 ∷ [])
              (run chunks k (playing sequence (suc (length body)) minus_one)))
  passes (suc m) k sequence body rest c r h p t z l =
      let left : (if m == minus_one then chunks.value_of c else m) ≡ m = ground arith in
      let outs = times (suc m) (played chunks body ++ (sleep 0 ∷ [])) in
      let last = run chunks k (playing sequence (suc (length body)) minus_one) in
      let tail = length (times (suc m) (pass body c)) + k in
      rw (length-pass body (times (suc m) (pass body c)) c k) (
        run-plain chunks (suc tail) sequence [] body (c ∷ rest) r h p
        ∙ ap (λ o. after chunks (played chunks body) o)
            (run_again chunks tail sequence body rest c r m h t z (omega arith)
              ∙ ap (λ o. after chunks (sleep 0 ∷ []) o)
                  (passes m k sequence body rest c m h p t left (omega arith)))
        ∙ after-after chunks (played chunks body) (sleep 0 ∷ []) (after chunks outs last)
        ∙ after-after chunks (played chunks body ++ (sleep 0 ∷ [])) outs last)

  -- From the start of a sequence of setups and waits before a repetition, counted by a 32-bit number
  -- other than the largest, the thread plays the setups and waits once more than that number, and
  -- goes on after the repetition, with its counter reset.
  pub run-times :
      (sequence : ℕ) (body rest : List C) (c : C)
      → chunks.flash sequence ≡ body ++ (c ∷ rest)
      → IsPlain chunks body
      → chunks.type_of c ≡ ChunkType.repeat
      → chunks.value_of c < minus_one
      → run chunks
          (length (times (suc (chunks.value_of c)) (body ++ (c ∷ []))))
          (playing sequence 0 minus_one)
        ≡ some (
          times (suc (chunks.value_of c)) (played chunks body ++ (sleep 0 ∷ [])),
          playing sequence (suc (length body)) minus_one,
        )
  unfolding run
  run-times sequence body rest c h p t l =
      let rounds = length (times (suc (chunks.value_of c)) (body ++ (c ∷ []))) in
      let outs = times (suc (chunks.value_of c)) (played chunks body ++ (sleep 0 ∷ [])) in
      subst
        (λ n.
          run chunks n (playing sequence 0 minus_one)
          ≡ some (outs, playing sequence (suc (length body)) minus_one))
        (add-zero rounds)
        (passes (chunks.value_of c) 0 sequence body rest c minus_one h p t refl l
          ∙ ap (λ o. some (o, playing sequence (suc (length body)) minus_one)) (append-nil outs))
