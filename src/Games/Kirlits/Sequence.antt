-- ===== src/Games/Kirlits/Sequence.antt =====
-- What the lockets of projects/kirlits_behavior show: `CreateSequence` of kirlits_behavior.cpp.
use native.Mathlib.Omega.{arith}
use mathlib.Core.Path.{fun_ext}
use mathlib.Core.List.{Permᴰ}
use locket_api.Prelude.{
  ℕ, suc, ◌+◌, ◌≡◌, ◌<◌, refl, ap, ◌∙◌, true, false, Option, none, some, List, [], ◌∷◌, ◌++◌,
  get_or, ltb, ◌==◌, if◌then◌else◌, ◌>>=◌, Bool-cases, inl, inr,
}
use locket_api.Api.Sequences.{LedRgbChunk, led, end}
use locket_api.Games.Kirlits.{
  types_num, IdAndTypeState, sequences, count_locket, count_lockets, push_chunks, push_types,
  create_sequence,
}

-- The lockets of a type.
abbrev pub near : ℕ → List IdAndTypeState → ℕ
near i [] = 0
near i (packet ∷ packets) = if i == packet.locket_type then suc (near i packets) else near i packets

abbrev pub AllTyped : List IdAndTypeState → Type 0
AllTyped [] = Unit
AllTyped (packet ∷ packets) = (packet.locket_type < types_num) × AllTyped packets

abbrev counted : ℕ → (ℕ → ℕ) → ℕ → ℕ
counted type f i = if i == type then f i + 1 else f i

count_locket_in :
    (type : ℕ) (f : ℕ → ℕ) → ltb type 6 ≡ true → count_locket type f ≡ some (counted type f)
unfolding count_locket
count_locket_in type f t = rw t refl

count_locket_out : (type : ℕ) (f : ℕ → ℕ) → ltb type 6 ≡ false → count_locket type f ≡ none
unfolding count_locket
count_locket_out type f t = rw t refl

counted_swap : (a b i : ℕ) (f : ℕ → ℕ) → counted b (counted a f) i ≡ counted a (counted b f) i
counted_swap a b i f = ground arith

bind_cong :
    (o : Option (ℕ → ℕ)) (g h : (ℕ → ℕ) → Option (ℕ → ℕ))
    → ((f : ℕ → ℕ) → g f ≡ h f)
    → (o >>= g) ≡ (o >>= h)
bind_cong none g h e = refl
bind_cong (some f) g h e = e f

-- Counting two lockets, and then whatever follows.
count_swap :
    (a b : ℕ) (f : ℕ → ℕ) (g : (ℕ → ℕ) → Option (ℕ → ℕ))
    → (count_locket a f >>= λ f'. count_locket b f' >>= g)
      ≡ (count_locket b f >>= λ f'. count_locket a f' >>= g)
count_swap a b f g = elim (Bool-cases (ltb a 6)) [
  | inl s ↦ elim (Bool-cases (ltb b 6)) [
    | inl t ↦
        rw
          (
            count_locket_in a f s,
            count_locket_in b f t,
            count_locket_in b (counted a f) t,
            count_locket_in a (counted b f) s,
          )
          (ap g (fun_ext λ i. counted_swap a b i f))
    | inr t ↦
        rw (count_locket_in a f s, count_locket_out b f t, count_locket_out b (counted a f) t) refl
  ]
  | inr s ↦ elim (Bool-cases (ltb b 6)) [
    | inl t ↦
        rw (count_locket_out a f s, count_locket_in b f t, count_locket_out a (counted b f) s) refl
    | inr t ↦ rw (count_locket_out a f s, count_locket_out b f t) refl
  ]
]

count_lockets-Perm :
    (p q : List IdAndTypeState) (f : ℕ → ℕ) → Permᴰ p q → count_lockets p f ≡ count_lockets q f
unfolding count_lockets
count_lockets-Perm _ _ f Permᴰ.nil = refl
count_lockets-Perm (a ∷ p) (b ∷ q) f (Permᴰ.cons e d) =
    ap (λ x. count_lockets (x ∷ p) f) e
    ∙ bind_cong (count_locket b.locket_type f) _ _ (λ f'. count_lockets-Perm p q f' d)
count_lockets-Perm (a ∷ b ∷ p) (a' ∷ b' ∷ q) f (Permᴰ.swap e g) =
    count_swap a.locket_type b.locket_type f (count_lockets p)
    ∙ ap (λ x. count_lockets (x ∷ a ∷ p) f) g
    ∙ ap (λ x. count_lockets (a' ∷ x ∷ p) f) e
count_lockets-Perm p q f (Permᴰ.trans d e) = count_lockets-Perm _ _ f d ∙ count_lockets-Perm _ _ f e

-- The sequence does not depend on the order of the packets, nor does whether there is one.
pub create_sequence-Perm :
    (p q : List IdAndTypeState) → Permᴰ p q → create_sequence p ≡ create_sequence q
unfolding create_sequence
create_sequence-Perm p q d =
    ap (λ o. do near ← o; some (push_types 0 near sequences)) (count_lockets-Perm p q (λ i. 0) d)

-- The chunks of a type, as the array of sequences holds them.
abbrev flashes : ℕ → List LedRgbChunk
flashes i = get_or sequences i []

-- The chunks for so many lockets of each type.
abbrev pub shown : (ℕ → ℕ) → List LedRgbChunk
shown count =
    push_chunks (count 0) (flashes 0)
    ++ (push_chunks (count 1) (flashes 1)
        ++ (push_chunks (count 2) (flashes 2)
            ++ (push_chunks (count 3) (flashes 3)
                ++ (push_chunks (count 4) (flashes 4) ++ (led end 0 ∷ [])))))
