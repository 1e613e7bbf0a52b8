-- ===== src/Tests/Queues.antt =====
-- The theorem on the event queue, applied to semaphores that are counters.
use native.Mathlib.Omega.{arith}
use locket_api.Prelude.{ℕ, ◌+◌, ◌-◌, ◌≡◌, ◌<◌, refl, [], ◌∷◌, ltb, if◌then◌else◌}
use locket_api.Buffers.{ok, timeout}
use locket_api.MsgQ.{Msg, msg_ok, msg_timeout, Semaphores, EvtMsgQ, init}
use locket_api.MsgQ.Laws.{
  send_call, send_waiting_call, fetch_call, count_call, send_answer, fetch_answer, count_answer,
  calls, calls-init,
}

wait : ℕ → ℕ → Msg × ℕ
wait t s = if ltb 0 s then (msg_ok, s - 1) else (msg_timeout, s)

wait-passes : (t s : ℕ) → 0 < s → ((wait t s).0 ≡ msg_ok) × ((wait t s).1 + 1 ≡ s)
unfolding wait
wait-passes t s h = ground arith

wait-gives_up : (s : ℕ) → s ≡ 0 → wait 0 s ≡ (msg_timeout, s)
unfolding wait
wait-gives_up s h = ground arith

abbrev counters : Semaphores
counters = record {
  Sem = ℕ;
  sem_init = λ n. n;
  get_counter = λ s. s;
  fast_wait = λ s. s - 1;
  signal = λ s. s + 1;
  wait_timeout = wait;
  counter_init = λ n. refl;
  counter_signal = λ s. refl;
  counter_fast_wait = λ s h. omega arith;
  wait_passes = wait-passes;
  wait_gives_up = wait-gives_up;
}

abbrev queue_of_two : EvtMsgQ ℕ ℕ
queue_of_two = record {
  i_buf = 0 ∷ 0 ∷ [];
  read_ptr = 1;
  write_ptr = 0;
  full_sem = 0;
  empty_sem = 0;
}

calls-init_example :
    calls counters 2 0
      (send_call 7
        ∷ send_waiting_call 8
        ∷ send_call 9
        ∷ count_call
        ∷ fetch_call
        ∷ fetch_call
        ∷ fetch_call
        ∷ [])
      (init counters 2 queue_of_two)
    ≡ send_answer ok
      ∷ send_answer ok
      ∷ send_answer timeout
      ∷ count_answer 2
      ∷ fetch_answer 7
      ∷ fetch_answer 8
      ∷ fetch_answer 0
      ∷ []
calls-init_example =
    calls-init counters 2 0
      (send_call 7
        ∷ send_waiting_call 8
        ∷ send_call 9
        ∷ count_call
        ∷ fetch_call
        ∷ fetch_call
        ∷ fetch_call
        ∷ [])
      queue_of_two refl (omega arith)
