-- ===== src/Buffers/Slots.antt =====
-- The storage with validity of embedded/kl_lib/kl_buf.h, `StorageWValidity_t`. An array is a list
-- of its fixed length, and a pointer into it an index.
use native.Mathlib.Omega.{arith}
use locket_api.Prelude.{
  ℕ, zero, suc, ◌+◌, ◌-◌, ◌<◌, ◌≤◌, ◌≡◌, refl, ap, ◌∙◌, Bool, true, false, Option, none, some, List,
  [], ◌∷◌, get_elem?, get_or, set, length, ltb, leb, if◌then◌else◌, length-set, Bool-cases, inl,
  inr,
}

-- `IBuf` is left out: the storage gives pointers to its elements, and no call reads one.
pub record StorageWValidity : Type 0 where
  pub is_valid : List Bool
  pub cnt : ℕ

-- The loop of `GetValidByIndx` from an index on, `f_indx` being what is still to be passed over.
unfoldable pub valid_from : List Bool → ℕ → ℕ → ℕ
valid_from [] i f_indx = 0
valid_from (true ∷ vs) i zero = i
valid_from (true ∷ vs) i (suc f_indx) = valid_from vs (i + 1) f_indx
valid_from (false ∷ vs) i f_indx = valid_from vs (i + 1) f_indx

unfoldable pub get_valid_by_indx : ℕ → StorageWValidity → ℕ
unfolding valid_from
get_valid_by_indx indx s = valid_from s.is_valid 0 indx

-- The first free place; `none` is a read past the array.
unfoldable pub first_free : List Bool → Option ℕ
first_free [] = none
first_free (false ∷ vs) = some 0
first_free (true ∷ vs) = elim (first_free vs) [ none ↦ none | some i ↦ some (suc i) ]

-- The pointer that a call gives, the outer `none` being a run that leaves the array.
unfoldable pub storage_add : ℕ → StorageWValidity → Option (Option ℕ × StorageWValidity)
unfolding first_free
storage_add sz s = if leb sz s.cnt then some (none, s) else elim (first_free s.is_valid) [
  | none ↦ none
  | some i ↦ some (some i, record { is_valid = set s.is_valid i true; cnt = s.cnt + 1 })
]

unfoldable pub storage_at : ℕ → StorageWValidity → Option ℕ
unfolding get_valid_by_indx
storage_at indx s = if leb s.cnt indx then none else some (get_valid_by_indx indx s)

-- A valid place made free.
unfoldable pub free : ℕ → StorageWValidity → StorageWValidity
free i s =
    if get_or s.is_valid i false
    then record { is_valid = set s.is_valid i false; cnt = s.cnt - 1 }
    else s

unfoldable pub storage_remove : ℕ → StorageWValidity → StorageWValidity
unfolding get_valid_by_indx free
storage_remove indx s = if ltb indx s.cnt then free (get_valid_by_indx indx s) s else s

-- How many places are valid.
abbrev pub valid_count : List Bool → ℕ
valid_count [] = 0
valid_count (true ∷ vs) = suc (valid_count vs)
valid_count (false ∷ vs) = valid_count vs

first_free-lem :
    (vs : List Bool)
    → valid_count vs < length vs
    → (i : ℕ) × (first_free vs ≡ some i)
      × (get_elem? vs i ≡ some false)
      × (valid_count (set vs i true) ≡ suc (valid_count vs))
unfolding first_free
first_free-lem [] h = ground arith
first_free-lem (false ∷ vs) h = (0, refl, refl, refl)
first_free-lem (true ∷ vs) h =
    let (i, e, g, c) = first_free-lem vs (omega (arith, h)) in
    (suc i, rw (e, first_free) refl, g, ap suc c)

-- As many places are counted as are valid, of an array of the fixed length.
pub record IsStorage (sz : ℕ) (s : StorageWValidity) : Type 0 where
  pub count : s.cnt ≡ valid_count s.is_valid
  pub array : length s.is_valid ≡ sz

-- What an addition gives: a null pointer exactly if the storage is full, and else a place that was
-- free and is valid after.
abbrev pub Adds : ℕ → StorageWValidity → Option (Option ℕ × StorageWValidity) → Type 0
Adds sz s none = ⊥
Adds sz s (some (none, s')) = (sz ≤ s.cnt) × (s' ≡ s)
Adds sz s (some (some i, s')) =
    (s.cnt < sz)
    × (get_elem? s.is_valid i ≡ some false)
    × (s'.is_valid ≡ set s.is_valid i true)
    × IsStorage sz s'

-- Adding to a storage never leaves the array; it gives a null pointer and changes nothing if the
-- storage is full, and else it makes a free place valid and counts it.
pub storage_add-Adds :
    (sz : ℕ) (s : StorageWValidity) → IsStorage sz s → Adds sz s (storage_add sz s)
unfolding storage_add
storage_add-Adds sz s h = elim (Bool-cases (leb sz s.cnt)) [
  | inl f ↦ rw (f, storage_add) (ground arith, refl)
  | inr f ↦
      let room : valid_count s.is_valid < length s.is_valid =
        rw (h.array, ← h.count) (ground arith) in
      let (i, e, g, c) = first_free-lem s.is_valid room in
      rw (f, e, storage_add)
        (
          ground arith,
          g,
          refl,
          record {
            count = omega (arith, h.count, c);
            array = length-set s.is_valid i true ∙ h.array;
          },
        )
]

valid_from-lem :
    (vs : List Bool) (i f : ℕ)
    → f < valid_count vs
    → (k : ℕ) × (valid_from vs i f ≡ i + k) × (get_or vs k false ≡ true)
unfolding valid_from
valid_from-lem [] i f h = ground arith
valid_from-lem (true ∷ vs) i zero h = (0, omega arith, refl)
valid_from-lem (true ∷ vs) i (suc f) h =
    let (k, e, g) = valid_from-lem vs (i + 1) f (omega arith) in (suc k, omega (arith, e), g)
valid_from-lem (false ∷ vs) i f h =
    let (k, e, g) = valid_from-lem vs (i + 1) f h in (suc k, omega (arith, e), g)

valid_count-set :
    (vs : List Bool) (k : ℕ)
    → get_or vs k false ≡ true
    → suc (valid_count (set vs k false)) ≡ valid_count vs
valid_count-set [] k h = ground arith
valid_count-set (true ∷ vs) zero h = refl
valid_count-set (false ∷ vs) zero h = ground arith
valid_count-set (true ∷ vs) (suc k) h = ap suc (valid_count-set vs k h)
valid_count-set (false ∷ vs) (suc k) h = valid_count-set vs k h

-- Removing by a number below the count makes one valid place free, and counts one less.
pub storage_remove-IsStorage :
    (sz indx : ℕ) (s : StorageWValidity)
    → IsStorage sz s
    → indx < s.cnt
    → (suc (storage_remove indx s).cnt ≡ s.cnt) × IsStorage sz (storage_remove indx s)
unfolding storage_remove get_valid_by_indx free
storage_remove-IsStorage sz indx s h l =
    let (k, e, g) = valid_from-lem s.is_valid 0 indx (omega (arith, h.count)) in
    let l' : ltb indx s.cnt ≡ true = ground arith in
    let e' : valid_from s.is_valid 0 indx ≡ k = omega (arith, e) in
    let less = valid_count-set s.is_valid k g in
    rw (l', e', g, storage_remove, get_valid_by_indx, free)
      (
        omega (arith, h.count, less),
        record {
          count = omega (arith, h.count, less);
          array = length-set s.is_valid k false ∙ h.array;
        },
      )
