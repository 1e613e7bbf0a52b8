-- ===== src/Buffers/CircBuf.antt =====
-- The circular buffers of embedded/kl_lib/kl_buf.h: `CircBuf_t`, `CircBufMemcpy_t` and
-- `CircPtrBuf_t`. A pointer into the array is an index, `sz` is the array's length, and an array
-- is a list. What a call writes through its pointer argument is an optional value, `none` for nothing.
use locket_api.Prelude.{
  drop, ℕ, zero, suc, ◌+◌, ◌-◌, Bool, Option, none, some, List, [], ◌∷◌, get_elem?, set, length,
  take, ltb, leb, ◌==◌, if◌then◌else◌,
}
use locket_api.Buffers.{Retv, ok, empty, overflow}

pub record CircBuf (T : Type 0) : Type 0 where
  pub i_full_slots_count : ℕ
  pub i_buf : List T
  pub p_read : ℕ
  pub p_write : ℕ

module _ (sz : ℕ) where
  -- An index moved on by one: `if(++p > (IBuf + Sz - 1)) p = IBuf`.
  abbrev pub circulate : ℕ → ℕ
  circulate i = if ltb (sz - 1) (i + 1) then 0 else i + 1

  -- As `GetMany` and `PutMany` have it: `if(p >= (IBuf + Sz)) p = IBuf`.
  abbrev pub circulate_past : ℕ → ℕ
  circulate_past i = if leb sz i then 0 else i

module _ {T : Type 0} (sz : ℕ) where
  unfoldable pub get_empty_count : CircBuf T → ℕ
  get_empty_count b = sz - b.i_full_slots_count

  unfoldable pub get_full_count : CircBuf T → ℕ
  get_full_count b = b.i_full_slots_count

  unfoldable pub is_empty : CircBuf T → Bool
  is_empty b = b.i_full_slots_count == 0

  unfoldable pub flush : CircBuf T → CircBuf T
  flush b = record b { i_full_slots_count = 0; p_read = b.p_write }

  -- `Get`, `GetI` and the `Get` of `CircBufMemcpy_t`.
  unfoldable pub get : CircBuf T → Retv × Option T × CircBuf T
  get b = if b.i_full_slots_count == 0 then (empty, none, b) else (
    ok,
    get_elem? b.i_buf b.p_read,
    record b { p_read = circulate sz b.p_read; i_full_slots_count = b.i_full_slots_count - 1 },
  )

  unfoldable pub get_and_do_not_remove : CircBuf T → Retv × Option T
  get_and_do_not_remove b =
      if b.i_full_slots_count == 0 then (empty, none) else (ok, get_elem? b.i_buf b.p_read)

  unfoldable pub get_many : ℕ → CircBuf T → List (Option T) × CircBuf T
  get_many zero b = ([], b)
  get_many (suc n) b =
      let rest = get_many n (record b {
        p_read = circulate_past sz (b.p_read + 1);
        i_full_slots_count = b.i_full_slots_count - 1;
      }) in
      if b.i_full_slots_count == 0 then ([], b) else (get_elem? b.i_buf b.p_read ∷ rest.0, rest.1)

  -- Put anyway: `PutI`, and the `PutAnyway` of `CircBufMemcpy_t`.
  unfoldable pub put_i : T → CircBuf T → CircBuf T
  put_i value b = record b {
    i_buf = set b.i_buf b.p_write value;
    p_write = circulate sz b.p_write;
    i_full_slots_count =
        if ltb b.i_full_slots_count sz then b.i_full_slots_count + 1 else b.i_full_slots_count;
  }

  -- `PutIfNotOverflow` and `PutPIfNotOverflow`.
  unfoldable pub put_if_not_overflow : T → CircBuf T → Retv × CircBuf T
  put_if_not_overflow value b =
      if ltb b.i_full_slots_count sz
      then (
        ok,
        record b {
          i_buf = set b.i_buf b.p_write value;
          p_write = circulate sz b.p_write;
          i_full_slots_count = b.i_full_slots_count + 1;
        },
      )
      else (overflow, b)

  -- The `Put` of `CircBufMemcpy_t`.
  unfoldable pub put : T → CircBuf T → Retv × CircBuf T
  unfolding put_i
  put value b = if leb sz b.i_full_slots_count then (overflow, b) else (ok, put_i value b)

  -- `memcpy` of a list to an index of the array.
  abbrev pub memcpy : List T → ℕ → List T → List T
  memcpy buf i [] = buf
  memcpy buf i (x ∷ xs) = memcpy (set buf i x) (i + 1) xs

  unfoldable pub put_many : List T → CircBuf T → Retv × CircBuf T
  unfolding get_empty_count
  put_many p b =
      let n = length p in
      let part_sz = sz - b.p_write in
      let count = b.i_full_slots_count + n in
      if leb n (get_empty_count b)
      then (
        ok,
        (if ltb part_sz n
            then record b {
              i_full_slots_count = count;
              i_buf = memcpy (memcpy b.i_buf b.p_write (take part_sz p)) 0 (drop part_sz p);
              p_write = circulate_past sz (n - part_sz);
            }
            else record b {
              i_full_slots_count = count;
              i_buf = memcpy b.i_buf b.p_write p;
              p_write = circulate_past sz (b.p_write + n);
            }),
      )
      else (overflow, b)

  -- `CircBufMemcpy_t::Flush` of a number of elements.
  unfoldable pub flush_many : ℕ → CircBuf T → CircBuf T
  flush_many a_length b =
      let n = if ltb b.i_full_slots_count a_length then b.i_full_slots_count else a_length in
      let part_sz = sz - b.p_read in
      record b {
        i_full_slots_count = b.i_full_slots_count - n;
        p_read = if leb part_sz n then n - part_sz else b.p_read + n;
      }

  -- The pointers of `CircPtrBuf_t`, `none` for a null pointer.
  unfoldable pub get_read_ptr : CircBuf T → Option ℕ
  get_read_ptr b = if b.i_full_slots_count == 0 then none else some b.p_read

  unfoldable pub move_read_ptr : CircBuf T → CircBuf T
  move_read_ptr b = record b {
    p_read = circulate sz b.p_read;
    i_full_slots_count =
        if b.i_full_slots_count == 0 then b.i_full_slots_count else b.i_full_slots_count - 1;
  }

  unfoldable pub get_write_ptr : CircBuf T → Option ℕ
  get_write_ptr b = if leb sz b.i_full_slots_count then none else some b.p_write

  unfoldable pub move_write_ptr : CircBuf T → CircBuf T
  move_write_ptr b = record b {
    p_write = circulate sz b.p_write;
    i_full_slots_count =
        if ltb b.i_full_slots_count sz then b.i_full_slots_count + 1 else b.i_full_slots_count;
  }
