-- ===== src/Buffers/IdList.antt =====
-- The list of ids of embedded/kl_lib/kl_buf.h: `IdList_t`, over a type with a comparison. Its numbers
-- are `uint32_t`, with their wrap-around.
use native.Mathlib.Omega.{arith}
use locket_api.Prelude.{
  ℕ, zero, suc, ◌+◌, ◌-◌, ◌%◌, ◌<◌, ◌≤◌, ◌≡◌, refl, Bool, true, false, Option, none, some, List, [],
  ◌∷◌, get_elem?, set, take, length, ltb, leb, if◌then◌else◌,
}
use locket_api.Buffers.{Retv, ok, overflow}

pub record IdList (T : Type 0) : Type 0 where
  pub i_buf : List T
  pub cnt : ℕ
  pub curr_indx : ℕ

-- A number less one.
abbrev pub decrement : ℕ → ℕ
decrement n = (n + 4294967295) % 4294967296

module _ {T : Type 0} (same : T → T → Bool) where
  unfoldable pub clear_ids : IdList T → IdList T
  clear_ids l = record l { cnt = 0; curr_indx = 0 }

  unfoldable pub add_id : ℕ → T → IdList T → Retv × IdList T
  add_id sz value l =
      if ltb l.cnt sz
      then (ok, record l { i_buf = set l.i_buf l.cnt value; cnt = l.cnt + 1 })
      else (overflow, l)

  unfoldable pub occurs : T → List T → Bool
  occurs value [] = false
  occurs value (x ∷ xs) = let rest = occurs value xs in if same x value then true else rest

  -- The whole array is searched.
  unfoldable pub add_if_not_yet : ℕ → T → IdList T → Retv × IdList T
  unfolding occurs add_id
  add_if_not_yet sz value l = if occurs value l.i_buf then (ok, l) else add_id sz value l

  -- The first of some elements that is the value.
  unfoldable pub position : ℕ → T → List T → Option ℕ
  position zero value xs = none
  position (suc n) value [] = none
  position (suc n) value (x ∷ xs) =
      let rest = position n value xs in
      if same x value then some 0 else elim rest [ none ↦ none | some i ↦ some (suc i) ]

  -- Some elements after an index, each moved one place down.
  unfoldable pub shift : ℕ → ℕ → List T → List T
  shift zero f xs = xs
  shift (suc n) f xs = elim (get_elem? xs (suc f)) [
    | none ↦ shift n (suc f) xs
    | some x ↦ shift n (suc f) (set xs f x)
  ]

  unfoldable pub remove_id : T → IdList T → IdList T
  unfolding position shift
  remove_id value l = elim (position l.cnt value l.i_buf) [
    | none ↦ l
    | some f ↦
        let left = decrement l.cnt in
        record {
          i_buf = shift (l.cnt - suc f) f l.i_buf;
          cnt = left;
          curr_indx = if leb left l.curr_indx then decrement left else l.curr_indx;
        }
  ]

  unfoldable pub get_current : IdList T → Option T
  get_current l = get_elem? l.i_buf l.curr_indx

  unfoldable pub move_to_next : IdList T → IdList T
  move_to_next l =
      let next = (l.curr_indx + 1) % 4294967296 in
      record l { curr_indx = if leb l.cnt next then 0 else next }

  -- A list without its first element that is the value.
  abbrev pub erase : T → List T → List T
  erase value [] = []
  erase value (x ∷ xs) = let rest = erase value xs in if same x value then xs else x ∷ rest

  abbrev pub ids : IdList T → List T
  ids l = take l.cnt l.i_buf

  -- What is left of some elements when the one found is moved over.
  abbrev Leaves : ℕ → T → List T → Option ℕ → Type 0
  Leaves n value xs none = Unit
  Leaves n value xs (some f) =
      (f < n) × (take (n - 1) (shift (n - suc f) f xs) ≡ erase value (take n xs))

  -- The list's numbers are 32-bit, and its elements are in the array.
  pub record IsIdList (sz : ℕ) (l : IdList T) : Type 0 where
    pub array : length l.i_buf ≡ sz
    pub fits : l.cnt ≤ sz
    pub word : l.cnt < 4294967296

  -- Removing the only value of a list leaves 2³² - 1 as its current index.
  curr-remove_id :
      (sz f : ℕ) (value : T) (l : IdList T)
      → IsIdList sz l
      → l.cnt ≡ 1
      → position l.cnt value l.i_buf ≡ some f
      → (ids (remove_id value l) ≡ []) × ((remove_id value l).curr_indx ≡ 4294967295)
  unfolding remove_id
  curr-remove_id sz f value l h c p =
      let none_left : decrement l.cnt ≡ 0 = rw (c) refl in
      let past : leb 0 l.curr_indx ≡ true = ground arith in
      rw (p, remove_id, none_left, past) (refl, refl)
