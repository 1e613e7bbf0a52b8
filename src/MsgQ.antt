-- ===== src/MsgQ.antt =====
-- The event queue between interrupts, threads and the main loop: embedded/kl_lib/MsgQ.h.
-- The semaphores are the operating system's and a parameter. Locking the system and rescheduling
-- have no effect of their own: a call between them is one step.
pub mod Laws
use locket_api.Prelude.{
  ℕ, ◌+◌, ◌≡◌, ◌<◌, Bool, true, false, Option, none, some, List, get_elem?, set, leb, if◌then◌else◌,
}
use locket_api.Buffers.{Retv, ok, fail, timeout}
use locket_api.Buffers.CircBuf.{circulate_past}

-- What `chSemWaitTimeoutS` answers.
pub data Msg : Type 0 where
  msg_ok msg_timeout msg_reset : Msg

abbrev pub main_evt_q_len : ℕ
main_evt_q_len = 18

abbrev pub time_immediate : ℕ
time_immediate = 0

-- A counting semaphore whose counter is not negative, since no thread is left waiting: a wait passes
-- where the counter is positive, and one that must not block gives up where it is not.
pub record Semaphores : Type 1 where
  pub Sem : Type 0
  pub sem_init : ℕ → Sem
  pub get_counter : Sem → ℕ
  pub fast_wait : Sem → Sem
  pub signal : Sem → Sem
  pub wait_timeout : ℕ → Sem → Msg × Sem
  pub counter_init : (n : ℕ) → get_counter (sem_init n) ≡ n
  pub counter_signal : (s : Sem) → get_counter (signal s) ≡ get_counter s + 1
  pub counter_fast_wait :
      (s : Sem) → 0 < get_counter s → get_counter (fast_wait s) + 1 ≡ get_counter s
  pub wait_passes :
      (t : ℕ) (s : Sem)
      → 0 < get_counter s
      → ((wait_timeout t s).0 ≡ msg_ok) × (get_counter (wait_timeout t s).1 + 1 ≡ get_counter s)
  pub wait_gives_up :
      (s : Sem) → get_counter s ≡ 0 → wait_timeout time_immediate s ≡ (msg_timeout, s)

pub record EvtMsgQ (S : Type 0) (T : Type 0) : Type 0 where
  pub i_buf : List T
  pub read_ptr : ℕ
  pub write_ptr : ℕ
  pub full_sem : S
  pub empty_sem : S

module _ (os : Semaphores) {T : Type 0} (sz : ℕ) where
  open os use {Sem, sem_init, get_counter, fast_wait, signal, wait_timeout}

  unfoldable pub init : EvtMsgQ Sem T → EvtMsgQ Sem T
  init q = record q { read_ptr = 0; write_ptr = 0; empty_sem = sem_init sz; full_sem = sem_init 0 }

  -- What is returned with no message is `blank`; the outer `none` is a read outside the array.
  unfoldable pub fetch : T → ℕ → EvtMsgQ Sem T → Option (T × EvtMsgQ Sem T)
  fetch blank t q =
      let waited = wait_timeout t q.full_sem in
      elim waited.0 [
        | msg_ok ↦ elim (get_elem? q.i_buf q.read_ptr) [
          | none ↦ none
          | some msg ↦ some (
            msg,
            record q {
              read_ptr = circulate_past sz (q.read_ptr + 1);
              full_sem = waited.1;
              empty_sem = signal q.empty_sem;
            },
          )
        ]
        | _ ↦ some (blank, record q { full_sem = waited.1 })
      ]

  -- `*WritePtr++ = Msg`, circulating the pointer, and the signal that follows.
  unfoldable pub post : T → EvtMsgQ Sem T → EvtMsgQ Sem T
  post msg q = record q {
    i_buf = set q.i_buf q.write_ptr msg;
    write_ptr = circulate_past sz (q.write_ptr + 1);
    full_sem = signal q.full_sem;
  }

  -- Also `SendNowOrExit`, which locks the system around this.
  unfoldable pub send_now_or_exit_i : T → EvtMsgQ Sem T → Retv × EvtMsgQ Sem T
  unfolding post
  send_now_or_exit_i msg q =
      if leb (get_counter q.empty_sem) 0
      then (timeout, q)
      else (ok, post msg (record q { empty_sem = fast_wait q.empty_sem }))

  unfoldable pub send_waiting_ability : T → ℕ → EvtMsgQ Sem T → Retv × EvtMsgQ Sem T
  unfolding post
  send_waiting_ability msg t q =
      let waited = wait_timeout t q.empty_sem in
      let q' = record q { empty_sem = waited.1 } in
      elim waited.0 [
        | msg_ok ↦ (ok, post msg q')
        | msg_timeout ↦ (timeout, q')
        | msg_reset ↦ (fail, q')
      ]

  unfoldable pub get_full_cnt : EvtMsgQ Sem T → ℕ
  get_full_cnt q = get_counter q.full_sem
