-- ===== src/Buffers/Ring.antt =====
-- The slots of a circular buffer of embedded/kl_lib/kl_buf.h, from an index on, around its array.
use native.Mathlib.Omega.{arith}
use locket_api.Prelude.{
  ℕ, zero, suc, ◌+◌, ◌-◌, ◌<◌, ◌≤◌, ◌≡◌, ◌≢◌, refl, ap, ◌∙◌, Option, some, List, [], ◌∷◌, ◌++◌,
  get_elem?, set, length, ltb, leb, if◌then◌else◌,
}
use locket_api.Buffers.CircBuf.{circulate, circulate_past}

module _ {T : Type 0} where
  pub get_elem?-set_same :
      (xs : List T) (i : ℕ) (v : T) → i < length xs → get_elem? (set xs i v) i ≡ some v
  get_elem?-set_same [] i v h = ground arith
  get_elem?-set_same (x ∷ xs) zero v h = refl
  get_elem?-set_same (x ∷ xs) (suc i) v h = get_elem?-set_same xs i v (omega arith)

  pub get_elem?-set_other :
      (xs : List T) (i j : ℕ) (v : T) → i ≢ j → get_elem? (set xs i v) j ≡ get_elem? xs j
  get_elem?-set_other [] i j v h = refl
  get_elem?-set_other (x ∷ xs) zero zero v h = ground arith
  get_elem?-set_other (x ∷ xs) zero (suc j) v h = refl
  get_elem?-set_other (x ∷ xs) (suc i) zero v h = refl
  get_elem?-set_other (x ∷ xs) (suc i) (suc j) v h =
      get_elem?-set_other xs i j v (λ e. h (ap suc e))

module _ (sz : ℕ) where
  -- The index some steps further.
  abbrev pub advance : ℕ → ℕ → ℕ
  advance n i = if ltb (i + n) sz then i + n else i + n - sz

  pub circulate-advance :
      (i n : ℕ) → i < sz → suc n ≤ sz → advance n (circulate sz i) ≡ advance (suc n) i
  circulate-advance i n h l = ground arith

  pub past-circulate : (i : ℕ) → i < sz → circulate_past sz (i + 1) ≡ circulate sz i
  past-circulate i h = ground arith

  pub circulate-bound : (i : ℕ) → i < sz → circulate sz i < sz
  circulate-bound i h = ground arith

  pub advance-zero : (i : ℕ) → i < sz → advance 0 i ≡ i
  advance-zero i h = ground arith

  -- How far an index is ahead of another.
  abbrev ahead : ℕ → ℕ → ℕ
  ahead i j = if leb i j then j - i else j + sz - i

  ahead-circulate : (n i j : ℕ) → i < sz → j < sz → suc n ≤ ahead i j → n ≤ ahead (circulate sz i) j
  ahead-circulate n i j hi hj h = ground arith

  ahead-ne : (n i j : ℕ) → suc n ≤ ahead i j → j ≢ i
  ahead-ne n i j h e = ground arith

  ahead-advance : (n i : ℕ) → i < sz → n < sz → n ≤ ahead i (advance n i)
  ahead-advance n i h l = ground arith

  pub advance-bound : (n i : ℕ) → i < sz → n ≤ sz → advance n i < sz
  advance-bound n i h l = ground arith

  pub advance-suc : (n i : ℕ) → i < sz → n < sz → circulate sz (advance n i) ≡ advance (suc n) i
  advance-suc n i h l = ground arith

module _ {T : Type 0} (sz : ℕ) where
  -- The elements of some slots from an index on.
  abbrev pub slots : ℕ → List T → ℕ → List (Option T)
  slots zero buf i = []
  slots (suc n) buf i = get_elem? buf i ∷ slots n buf (circulate sz i)

  slots-set :
      (n i j : ℕ) (buf : List T) (v : T)
      → i < sz
      → j < sz
      → n ≤ ahead sz i j
      → slots n (set buf j v) i ≡ slots n buf i
  slots-set zero i j buf v hi hj h = refl
  slots-set (suc n) i j buf v hi hj h =
      rw
        (
          get_elem?-set_other buf j i v (ahead-ne sz n i j h),
          slots-set n (circulate sz i) j buf v (circulate-bound sz i hi) hj
              (ahead-circulate sz n i j hi hj h),
        )
        refl

  slots-suc :
      (n i : ℕ) (buf : List T)
      → i < sz
      → suc n ≤ sz
      → slots (suc n) buf i ≡ slots n buf i ++ (get_elem? buf (advance sz n i) ∷ [])
  slots-suc zero i buf hi h = rw (advance-zero sz i hi) refl
  slots-suc (suc n) i buf hi h =
      ap (λ l. get_elem? buf i ∷ l)
        (slots-suc n (circulate sz i) buf (circulate-bound sz i hi) (omega arith)
          ∙ ap (λ j. slots n buf (circulate sz i) ++ (get_elem? buf j ∷ []))
              (circulate-advance sz i n hi (omega arith)))

  pub slots-written :
      (n i : ℕ) (buf : List T) (v : T)
      → i < sz
      → n < sz
      → length buf ≡ sz
      → slots (suc n) (set buf (advance sz n i) v) i ≡ slots n buf i ++ (some v ∷ [])
  slots-written n i buf v h l e =
      let there : advance sz n i < length buf = rw e (advance-bound sz n i h (omega arith)) in
      rw
        (
          slots-suc n i (set buf (advance sz n i) v) h (omega arith),
          get_elem?-set_same buf (advance sz n i) v there,
          slots-set n i (advance sz n i) buf v h (advance-bound sz n i h (omega arith))
              (ahead-advance sz n i h l),
        )
        refl
