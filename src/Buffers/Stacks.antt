-- ===== src/Buffers/Stacks.antt =====
-- The stack `LifoNumber_t` of embedded/kl_lib/kl_buf.h, whose array is a list.
use native.Mathlib.Omega.{arith}
use locket_api.Prelude.{
  ℕ, ◌+◌, ◌-◌, ◌<◌, ◌≤◌, ◌≡◌, ◌≢◌, refl, ap, ◌∙◌, true, false, Option, none, some, List, [], ◌∷◌,
  get_elem?, set, length, ◌==◌, if◌then◌else◌, length-set, Bool-cases, inl, inr,
}
use locket_api.Buffers.{Retv, ok, empty, overflow}
use locket_api.Buffers.Ring.{get_elem?-set_same, get_elem?-set_other}

pub record LifoNumber (T : Type 0) : Type 0 where
  pub cnt : ℕ
  pub i_buf : List T

module _ {T : Type 0} (sz : ℕ) where
  unfoldable pub put : T → LifoNumber T → Retv × LifoNumber T
  put value b =
      if b.cnt == sz
      then (overflow, b)
      else (ok, record b { i_buf = set b.i_buf b.cnt value; cnt = b.cnt + 1 })

  unfoldable pub get : LifoNumber T → Retv × Option T × LifoNumber T
  get b =
      if b.cnt == 0
      then (empty, none, b)
      else (ok, get_elem? b.i_buf (b.cnt - 1), record b { cnt = b.cnt - 1 })

  unfoldable pub get_and_do_not_remove : LifoNumber T → Retv × Option T
  get_and_do_not_remove b =
      if b.cnt == 0 then (empty, none) else (ok, get_elem? b.i_buf (b.cnt - 1))

  -- The buffer holds the stack, the top first.
  abbrev pub Stacked : List T → List T → Type 0
  Stacked buf [] = Unit
  Stacked buf (x ∷ xs) = (get_elem? buf (length xs) ≡ some x) × Stacked buf xs

  pub record IsStack (b : LifoNumber T) (xs : List T) : Type 0 where
    pub count : b.cnt ≡ length xs
    pub array : length b.i_buf ≡ sz
    pub fits : length xs ≤ sz
    pub items : Stacked b.i_buf xs

  Stacked-set :
      (buf xs : List T) (i : ℕ) (v : T) → length xs ≤ i → Stacked buf xs → Stacked (set buf i v) xs
  Stacked-set buf [] i v l h = tt
  Stacked-set buf (x ∷ xs) i v l (e, h) =
      let apart : i ≢ length xs = λ e. ground arith in
      (get_elem?-set_other buf i (length xs) v apart ∙ e, Stacked-set buf xs i v (omega arith) h)

  -- A put into a stack that is not full gives the stack with the value on top, and on a full one it
  -- changes nothing.
  pub put-IsStack :
      (v : T) (b : LifoNumber T) (xs : List T)
      → IsStack b xs
      → ((put v b).0 ≡ (if length xs == sz then overflow else ok))
        × IsStack (put v b).1 (if length xs == sz then xs else v ∷ xs)
  unfolding put
  put-IsStack v b xs h = elim (Bool-cases (length xs == sz)) [
    | inl e ↦ let e' : (b.cnt == sz) ≡ true = rw (h.count) e in rw (e, e', put) (refl, h)
    | inr e ↦
        let e' : (b.cnt == sz) ≡ false = rw (h.count) e in
        let room : length xs < sz = ground (arith, h.fits) in
        let here : length xs < length b.i_buf = rw (h.array) room in
        rw (e, e', put)
          (
            refl,
            record {
              count = omega (arith, h.count);
              array = length-set b.i_buf b.cnt v ∙ h.array;
              fits = omega arith;
              items = (
                ap (λ i. get_elem? (set b.i_buf i v) (length xs)) h.count
                    ∙ get_elem?-set_same b.i_buf (length xs) v here,
                Stacked-set b.i_buf xs b.cnt v (omega (arith, h.count)) h.items,
              );
            },
          )
  ]

  -- What is taken off a stack.
  abbrev pub Gives : LifoNumber T → List T → Type 0
  Gives b [] = get b ≡ (empty, none, b)
  Gives b (x ∷ xs) = ((get b).0 ≡ ok) × ((get b).1 ≡ some x) × IsStack (get b).2 xs

  -- Taking from a stack gives its top and leaves the rest, and from an empty one it gives nothing and
  -- changes nothing.
  pub get-Gives : (b : LifoNumber T) (xs : List T) → IsStack b xs → Gives b xs
  unfolding get
  get-Gives b [] h = let e : (b.cnt == 0) ≡ true = rw (h.count) refl in rw (e, get) refl
  get-Gives b (x ∷ xs) h =
      let e : (b.cnt == 0) ≡ false = rw (h.count) (ground arith) in
      let below : b.cnt - 1 ≡ length xs = omega (arith, h.count) in
      rw (e, get)
        (
          refl,
          ap (λ i. get_elem? b.i_buf i) below ∙ h.items.0,
          record {
            count = below;
            array = h.array;
            fits = omega (arith, h.fits);
            items = h.items.1;
          },
        )
