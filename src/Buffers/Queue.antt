-- ===== src/Buffers/Queue.antt =====
-- What the circular buffers of embedded/kl_lib/kl_buf.h promise: a queue of bounded length.
use native.Mathlib.Omega.{arith}
use locket_api.Prelude.{
  drop, ℕ, zero, suc, ◌+◌, ◌-◌, ◌<◌, ◌≤◌, ◌≡◌, refl, sym, ap, ◌∙◌, subst, true, false, Option, none,
  some, List, [], ◌∷◌, ◌++◌, get_elem?, get_or, set, length, length-set, length-append, take, map,
  ltb, ◌==◌, if◌then◌else◌, Bool-cases, inl, inr,
}
use locket_api.Buffers.{Retv, ok, empty, overflow}
use locket_api.Buffers.CircBuf.{
  CircBuf, circulate, circulate_past, get, put_if_not_overflow, put_i, get_many,
}
use locket_api.Buffers.Ring.{
  advance, circulate-bound, circulate-advance, past-circulate, advance-suc, slots, slots-written,
  get_elem?-set_same,
}

-- Calls of a buffer and what they give.
pub data Call (T : Type 0) : Type 0 where
  put_call : T → Call T
  get_call : Call T

pub data Answer (T : Type 0) : Type 0 where
  put_answer : Retv → Answer T
  get_answer : Retv → Option T → Answer T

module _ {T : Type 0} (sz : ℕ) where
  -- The buffer holds the queue: as many slots are full, and these are the slots from the read index
  -- up to the write index.
  pub record Holds (b : CircBuf T) (xs : List T) : Type 0 where
    pub count : b.i_full_slots_count ≡ length xs
    pub array : length b.i_buf ≡ sz
    pub fits : length xs ≤ sz
    pub read_bound : b.p_read < sz
    pub write_next : b.p_write ≡ advance sz (length xs) b.p_read
    pub items : slots sz (length xs) b.i_buf b.p_read ≡ map some xs

  map-snoc : (xs : List T) (v : T) → map some (xs ++ (v ∷ [])) ≡ map some xs ++ (some v ∷ [])
  map-snoc [] v = refl
  map-snoc (x ∷ xs) v = ap (λ l. some x ∷ l) (map-snoc xs v)

  -- The buffer after the value is written to the next slot.
  abbrev pub written : T → CircBuf T → CircBuf T
  written value b = record b {
    i_buf = set b.i_buf b.p_write value;
    p_write = circulate sz b.p_write;
    i_full_slots_count = b.i_full_slots_count + 1;
  }

  pub written-Holds :
      (v : T) (b : CircBuf T) (xs : List T)
      → Holds b xs
      → length xs < sz
      → Holds (written v b) (xs ++ (v ∷ []))
  written-Holds v b xs h l =
      let more : length (xs ++ (v ∷ [])) ≡ suc (length xs) =
        omega (arith, length-append xs (v ∷ [])) in
      record {
        count = omega (arith, h.count);
        array = length-set b.i_buf b.p_write v ∙ h.array;
        fits = omega arith;
        read_bound = h.read_bound;
        write_next =
            ap (λ i. circulate sz i) h.write_next
            ∙ advance-suc sz (length xs) b.p_read h.read_bound l
            ∙ ap (λ n. advance sz n b.p_read) (sym more);
        items =
            rw (more, h.write_next, map-snoc xs v)
              (slots-written sz (length xs) b.p_read b.i_buf v h.read_bound l h.array
                ∙ ap (λ l. l ++ (some v ∷ [])) h.items);
      }

  -- The buffer after a slot is read.
  abbrev pub read_on : CircBuf T → CircBuf T
  read_on b = record b {
    p_read = circulate sz b.p_read;
    i_full_slots_count = b.i_full_slots_count - 1;
  }

  pub read_on-Holds :
      (x : T) (b : CircBuf T) (xs : List T) → Holds b (x ∷ xs) → Holds (read_on b) xs
  read_on-Holds x b xs h = record {
    count = omega (arith, h.count);
    array = h.array;
    fits = omega (arith, h.fits);
    read_bound = circulate-bound sz b.p_read h.read_bound;
    write_next = h.write_next ∙ sym (circulate-advance sz b.p_read (length xs) h.read_bound h.fits);
    items = ap (λ l. drop 1 l) h.items;
  }

  -- What a read of the queue gives.
  abbrev Serves : CircBuf T → List T → Type 0
  Serves b [] = get sz b ≡ (empty, none, b)
  Serves b (x ∷ xs) = (b' : CircBuf T) × (get sz b ≡ (ok, some x, b')) × Holds b' xs

  get-Serves : (b : CircBuf T) (xs : List T) → Holds b xs → Serves b xs
  unfolding get
  get-Serves b [] h = rw (h.count, get) refl
  get-Serves b (x ∷ xs) h =
      let full : (b.i_full_slots_count == 0) ≡ false = rw (h.count) (ground arith) in
      let first : get_elem? b.i_buf b.p_read ≡ some x = ap (λ l. get_or l 0 none) h.items in
      (read_on b, rw (full, first, get) refl, read_on-Holds x b xs h)

  -- A queue of at most `sz` elements: what a call gives, and the queue after it.
  abbrev pub enqueue : T → List T → Retv × List T
  enqueue v xs = if ltb (length xs) sz then (ok, xs ++ (v ∷ [])) else (overflow, xs)

  abbrev pub dequeue : List T → Retv × Option T × List T
  dequeue [] = (empty, none, [])
  dequeue (x ∷ xs) = (ok, some x, xs)

  -- What calls give, of a buffer and of a queue.
  abbrev pub calls : List (Call T) → CircBuf T → List (Answer T)
  calls [] b = []
  calls (put_call v ∷ cs) b = let r = put_if_not_overflow sz v b in put_answer r.0 ∷ calls cs r.1
  calls (get_call ∷ cs) b = let r = get sz b in get_answer r.0 r.1 ∷ calls cs r.2

  abbrev pub queue_calls : List (Call T) → List T → List (Answer T)
  queue_calls [] xs = []
  queue_calls (put_call v ∷ cs) xs = let r = enqueue v xs in put_answer r.0 ∷ queue_calls cs r.1
  queue_calls (get_call ∷ cs) xs = let r = dequeue xs in get_answer r.0 r.1 ∷ queue_calls cs r.2

  put-Holds :
      (v : T) (b : CircBuf T) (xs : List T)
      → Holds b xs
      → (((put_if_not_overflow sz v b).0 ≡ (enqueue v xs).0))
        × Holds (put_if_not_overflow sz v b).1 (enqueue v xs).1
  unfolding put_if_not_overflow
  put-Holds v b xs h = elim (Bool-cases (ltb (length xs) sz)) [
    | inl l ↦
        let l' : ltb b.i_full_slots_count sz ≡ true = rw (h.count) l in
        rw (l, l', put_if_not_overflow) (refl, written-Holds v b xs h (ground arith))
    | inr l ↦
        let l' : ltb b.i_full_slots_count sz ≡ false = rw (h.count) l in
        rw (l, l', put_if_not_overflow) (refl, h)
  ]

  -- A buffer that holds a queue answers every sequence of puts and gets as the queue of bounded
  -- length does.
  pub calls-queue_calls :
      (cs : List (Call T)) (b : CircBuf T) (xs : List T)
      → Holds b xs
      → calls cs b ≡ queue_calls cs xs
  calls-queue_calls [] b xs h = refl
  calls-queue_calls (put_call v ∷ cs) b xs h =
      let r = put-Holds v b xs h in
      rw (r.0, calls-queue_calls cs (put_if_not_overflow sz v b).1 (enqueue v xs).1 r.1) refl
  calls-queue_calls (get_call ∷ cs) b [] h =
      rw (get-Serves b [] h, calls-queue_calls cs b [] h) refl
  calls-queue_calls (get_call ∷ cs) b (x ∷ xs) h =
      let (b', g, h') = get-Serves b (x ∷ xs) h in rw (g, calls-queue_calls cs b' xs h') refl

  -- Reading many elements gives the first ones of the queue, as many as asked for or all of them, and
  -- leaves the others.
  pub get_many-Holds :
      (n : ℕ) (b : CircBuf T) (xs : List T)
      → Holds b xs
      → ((get_many sz n b).0 ≡ map some (take n xs)) × Holds (get_many sz n b).1 (drop n xs)
  unfolding get_many
  get_many-Holds zero b xs h = (refl, h)
  get_many-Holds (suc n) b [] h =
      let none_full : (b.i_full_slots_count == 0) ≡ true = rw (h.count) refl in
      rw (none_full, get_many) (refl, h)
  get_many-Holds (suc n) b (x ∷ xs) h =
      let full : (b.i_full_slots_count == 0) ≡ false = rw (h.count) (ground arith) in
      let first : get_elem? b.i_buf b.p_read ≡ some x = ap (λ l. get_or l 0 none) h.items in
      let b' : CircBuf T = record b {
        p_read = circulate_past sz (b.p_read + 1);
        i_full_slots_count = b.i_full_slots_count - 1;
      } in
      let rest = get_many-Holds n b' xs (
        subst
          (λ i. Holds (record b { p_read = i; i_full_slots_count = b.i_full_slots_count - 1 }) xs)
          (sym (past-circulate sz b.p_read h.read_bound)) (read_on-Holds x b xs h)) in
      rw (full, first, get_many) (ap (λ l. some x ∷ l) rest.0, rest.1)

  -- A value that is put anyway into a full buffer is read next, before the older ones.
  pub get-put_i_full :
      (v : T) (b : CircBuf T) (xs : List T)
      → Holds b xs
      → length xs ≡ sz
      → (get sz (put_i sz v b)).1 ≡ some v
  unfolding get put_i
  get-put_i_full v b xs h l =
      let full : (b.i_full_slots_count == 0) ≡ false = ground (arith, h.count, h.read_bound) in
      let more : ltb b.i_full_slots_count sz ≡ false = ground (arith, h.count) in
      let here : b.p_write ≡ b.p_read = h.write_next ∙ ground (arith, h.read_bound) in
      let there : b.p_read < length b.i_buf = rw (h.array) h.read_bound in
      rw (more, full, get, put_i, here, get_elem?-set_same b.i_buf b.p_read v there) refl
