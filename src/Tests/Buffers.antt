-- ===== src/Tests/Buffers.antt =====
-- The theorems on the circular buffers, applied to a buffer of three places.
use native.Mathlib.Omega.{arith}
use locket_api.Prelude.{◌==◌, ℕ, ◌≡◌, refl, some, [], ◌∷◌}
use locket_api.Buffers.{ok, overflow}
use locket_api.Buffers.CircBuf.{CircBuf}
use locket_api.Buffers.IdList.{IdList, IsIdList}
use locket_api.Buffers.Queue.{
  Holds, put_call, get_call, put_answer, get_answer, calls, calls-queue_calls,
}

-- Two values stand across the end of the array.
abbrev around : CircBuf ℕ
around = record { i_full_slots_count = 2; i_buf = 8 ∷ 0 ∷ 7 ∷ []; p_read = 2; p_write = 1 }

around-Holds : Holds 3 around (7 ∷ 8 ∷ [])
around-Holds = record {
  count = refl;
  array = refl;
  fits = omega arith;
  read_bound = omega arith;
  write_next = refl;
  items = refl;
}

abbrev filled : CircBuf ℕ
filled = record { i_full_slots_count = 3; i_buf = 8 ∷ 9 ∷ 7 ∷ []; p_read = 2; p_write = 2 }

filled-Holds : Holds 3 filled (7 ∷ 8 ∷ 9 ∷ [])
filled-Holds = record {
  count = refl;
  array = refl;
  fits = omega arith;
  read_bound = omega arith;
  write_next = refl;
  items = refl;
}

calls-queue_calls_example :
    calls 3 (put_call 9 ∷ put_call 5 ∷ get_call ∷ get_call ∷ []) around
    ≡ put_answer ok ∷ put_answer overflow ∷ get_answer ok (some 7) ∷ get_answer ok (some 8) ∷ []
calls-queue_calls_example =
    calls-queue_calls 3 (put_call 9 ∷ put_call 5 ∷ get_call ∷ get_call ∷ []) around (7 ∷ 8 ∷ [])
      around-Holds

abbrev neighbours : IdList ℕ
neighbours = record { i_buf = 6 ∷ 7 ∷ 8 ∷ 0 ∷ []; cnt = 3; curr_indx = 1 }

abbrev alone : IdList ℕ
alone = record { i_buf = 6 ∷ 0 ∷ []; cnt = 1; curr_indx = 0 }

alone-IsIdList : IsIdList ◌==◌ 2 alone
alone-IsIdList = record { array = refl; fits = omega arith; word = omega arith }
