-- ===== src/MsgQ/Laws.antt =====
-- What the event queue of embedded/kl_lib/MsgQ.h promises: a queue of bounded length.
use native.Mathlib.Omega.{arith}
use locket_api.Prelude.{
  ℕ, suc, ◌+◌, ◌-◌, ◌<◌, ◌≡◌, refl, sym, ap, subst, true, false, none, some, List, [], ◌∷◌, ◌++◌,
  get_elem?, get_or, set, length, length-append, leb, ltb, if◌then◌else◌, Bool-cases, inl, inr,
}
use locket_api.Buffers.{Retv, ok, timeout}
use locket_api.Buffers.CircBuf.{CircBuf, circulate, circulate_past}
use locket_api.Buffers.Ring.{advance-zero, advance-bound, past-circulate}
use locket_api.Buffers.Queue.{Holds, written-Holds, read_on-Holds}
use locket_api.MsgQ.{
  time_immediate, Semaphores, EvtMsgQ, init, fetch, post, send_now_or_exit_i, send_waiting_ability,
  get_full_cnt,
}

-- Calls of a queue and what they give; a call never blocks, so a timeout is immediate where the queue
-- may be full or empty.
pub data Call (T : Type 0) : Type 0 where
  send_call : T → Call T
  send_waiting_call : T → Call T
  fetch_call : Call T
  count_call : Call T

pub data Answer (T : Type 0) : Type 0 where
  send_answer : Retv → Answer T
  fetch_answer : T → Answer T
  count_answer : ℕ → Answer T
  stray_answer : Answer T

-- A send to a queue of at most `sz` messages.
abbrev pub send {ℓ} : {T : Type ℓ} → ℕ → T → List T → Retv × List T
send sz v xs = if ltb (length xs) sz then (ok, xs ++ (v ∷ [])) else (timeout, xs)

module _ (os : Semaphores) {T : Type 0} (sz : ℕ) (blank : T) where
  open os use {
    Sem, sem_init, get_counter, fast_wait, signal, wait_timeout, counter_init, counter_signal,
    counter_fast_wait, wait_passes, wait_gives_up,
  }

  -- The ring of the queue, as the circular buffers have it.
  abbrev ring : ℕ → EvtMsgQ Sem T → CircBuf T
  ring n q = record {
    i_full_slots_count = n;
    i_buf = q.i_buf;
    p_read = q.read_ptr;
    p_write = q.write_ptr;
  }

  pub record IsQueue (q : EvtMsgQ Sem T) (xs : List T) : Type 0 where
    pub holds : Holds sz (ring (length xs) q) xs
    pub full : get_counter q.full_sem ≡ length xs
    pub empty : get_counter q.empty_sem + length xs ≡ sz

  abbrev slots_of : ℕ → List T → ℕ → ℕ → CircBuf T
  slots_of n buf r w = record { i_full_slots_count = n; i_buf = buf; p_read = r; p_write = w }

  post-IsQueue :
      (v : T) (q : EvtMsgQ Sem T) (xs : List T)
      → Holds sz (ring (length xs) q) xs
      → get_counter q.full_sem ≡ length xs
      → get_counter q.empty_sem + length xs + 1 ≡ sz
      → IsQueue (post os sz v q) (xs ++ (v ∷ []))
  unfolding post
  post-IsQueue v q xs h f e =
      let room : length xs < sz = omega (arith, e) in
      let more : length xs + 1 ≡ length (xs ++ (v ∷ [])) =
        omega (arith, length-append xs (v ∷ [])) in
      let write_bound : q.write_ptr < sz =
        subst (λ i. i < sz) (sym h.write_next)
          (advance-bound sz (length xs) q.read_ptr h.read_bound h.fits) in
      record {
        holds =
            subst
              (λ n.
                Holds sz
                  (slots_of n (set q.i_buf q.write_ptr v) q.read_ptr
                    (circulate_past sz (q.write_ptr + 1)))
                  (xs ++ (v ∷ [])))
              more
              (subst
                (λ i.
                  Holds sz (slots_of (length xs + 1) (set q.i_buf q.write_ptr v) q.read_ptr i)
                    (xs ++ (v ∷ [])))
                (sym (past-circulate sz q.write_ptr write_bound))
                (written-Holds sz v (ring (length xs) q) xs h room));
        full = omega (arith, counter_signal q.full_sem, f, more);
        empty = omega (arith, e, more);
      }

  -- What calls give, of the event queue and of a queue of at most `sz` messages. After a read outside
  -- the array nothing more is answered.
  abbrev pub calls : List (Call T) → EvtMsgQ Sem T → List (Answer T)
  calls [] q = []
  calls (send_call v ∷ cs) q =
      let r = send_now_or_exit_i os sz v q in send_answer r.0 ∷ calls cs r.1
  calls (send_waiting_call v ∷ cs) q =
      let r = send_waiting_ability os sz v time_immediate q in send_answer r.0 ∷ calls cs r.1
  calls (fetch_call ∷ cs) q = elim (fetch os sz blank time_immediate q) [
    | none ↦ stray_answer ∷ []
    | some r ↦ fetch_answer r.0 ∷ calls cs r.1
  ]
  calls (count_call ∷ cs) q = count_answer (get_full_cnt os sz q) ∷ calls cs q

  abbrev pub queue_calls : List (Call T) → List T → List (Answer T)
  queue_calls [] xs = []
  queue_calls (send_call v ∷ cs) xs = let r = send sz v xs in send_answer r.0 ∷ queue_calls cs r.1
  queue_calls (send_waiting_call v ∷ cs) xs =
      let r = send sz v xs in send_answer r.0 ∷ queue_calls cs r.1
  queue_calls (fetch_call ∷ cs) [] = fetch_answer blank ∷ queue_calls cs []
  queue_calls (fetch_call ∷ cs) (x ∷ xs) = fetch_answer x ∷ queue_calls cs xs
  queue_calls (count_call ∷ cs) xs = count_answer (length xs) ∷ queue_calls cs xs

  -- What a send gives, where the queue is refined.
  abbrev Sends : Retv × EvtMsgQ Sem T → Retv × List T → Type 0
  Sends r s = (r.0 ≡ s.0) × IsQueue r.1 s.1

  send-Sends :
      (v : T) (q : EvtMsgQ Sem T) (xs : List T)
      → IsQueue q xs
      → Sends (send_now_or_exit_i os sz v q) (send sz v xs)
  unfolding send_now_or_exit_i
  send-Sends v q xs h = elim (Bool-cases (ltb (length xs) sz)) [
    | inl l ↦
        let some_empty : 0 < get_counter q.empty_sem = ground (arith, h.empty) in
        let test : leb (get_counter q.empty_sem) 0 ≡ false = ground arith in
        rw (l, test, send_now_or_exit_i)
          (
            refl,
            post-IsQueue v (record q { empty_sem = fast_wait q.empty_sem }) xs h.holds h.full
                (omega (arith, h.empty, counter_fast_wait q.empty_sem some_empty)),
          )
    | inr l ↦
        let test : leb (get_counter q.empty_sem) 0 ≡ true = ground (arith, h.empty) in
        rw (l, test, send_now_or_exit_i) (refl, h)
  ]

  send_waiting-Sends :
      (v : T) (q : EvtMsgQ Sem T) (xs : List T)
      → IsQueue q xs
      → Sends (send_waiting_ability os sz v time_immediate q) (send sz v xs)
  unfolding send_waiting_ability
  send_waiting-Sends v q xs h = elim (Bool-cases (ltb (length xs) sz)) [
    | inl l ↦
        let some_empty : 0 < get_counter q.empty_sem = ground (arith, h.empty) in
        let (passes, less) = wait_passes time_immediate q.empty_sem some_empty in
        rw (l, passes, send_waiting_ability)
          (
            refl,
            post-IsQueue v (record q { empty_sem = (wait_timeout time_immediate q.empty_sem).1 }) xs
                h.holds h.full (omega (arith, h.empty, less)),
          )
    | inr l ↦
        let none_empty : get_counter q.empty_sem ≡ 0 = ground (arith, h.empty, h.holds.fits) in
        let w = wait_gives_up q.empty_sem none_empty in
        rw (l, ap (λ p. p.0) w, ap (λ p. p.1) w, send_waiting_ability) (refl, h)
  ]

  abbrev Fetches : EvtMsgQ Sem T → List T → Type 0
  Fetches q [] = fetch os sz blank time_immediate q ≡ some (blank, q)
  Fetches q (x ∷ xs) =
      (q' : EvtMsgQ Sem T) × (fetch os sz blank time_immediate q ≡ some (x, q')) × IsQueue q' xs

  fetch-Fetches : (q : EvtMsgQ Sem T) (xs : List T) → IsQueue q xs → Fetches q xs
  unfolding fetch
  fetch-Fetches q [] h =
      let w = wait_gives_up q.full_sem h.full in rw (ap (λ p. p.0) w, ap (λ p. p.1) w, fetch) refl
  fetch-Fetches q (x ∷ xs) h =
      let some_full : 0 < get_counter q.full_sem = omega (arith, h.full) in
      let (passes, less) = wait_passes time_immediate q.full_sem some_full in
      let first : get_elem? q.i_buf q.read_ptr ≡ some x = ap (λ l. get_or l 0 none) h.holds.items in
      let fetched : EvtMsgQ Sem T = record q {
        read_ptr = circulate_past sz (q.read_ptr + 1);
        full_sem = (wait_timeout time_immediate q.full_sem).1;
        empty_sem = signal q.empty_sem;
      } in
      let one_less : suc (length xs) - 1 ≡ length xs = omega arith in
      (
        fetched,
        rw (passes, first, fetch) refl,
        record {
          holds =
              subst (λ i. Holds sz (slots_of (length xs) q.i_buf i q.write_ptr) xs)
                (sym (past-circulate sz q.read_ptr h.holds.read_bound))
                (subst (λ n. Holds sz (slots_of n q.i_buf (circulate sz q.read_ptr) q.write_ptr) xs)
                  one_less (read_on-Holds sz x (ring (suc (length xs)) q) xs h.holds));
          full = omega (arith, h.full, less);
          empty = omega (arith, h.empty, counter_signal q.empty_sem);
        },
      )

  calls-queue_calls_lem :
      (cs : List (Call T)) (q : EvtMsgQ Sem T) (xs : List T)
      → IsQueue q xs
      → calls cs q ≡ queue_calls cs xs
  unfolding get_full_cnt
  calls-queue_calls_lem [] q xs h = refl
  calls-queue_calls_lem (send_call v ∷ cs) q xs h =
      let r = send-Sends v q xs h in
      rw (r.0, calls-queue_calls_lem cs (send_now_or_exit_i os sz v q).1 (send sz v xs).1 r.1) refl
  calls-queue_calls_lem (send_waiting_call v ∷ cs) q xs h =
      let r = send_waiting-Sends v q xs h in
      rw
        (
          r.0,
          calls-queue_calls_lem cs (send_waiting_ability os sz v time_immediate q).1
              (send sz v xs).1 r.1,
        )
        refl
  calls-queue_calls_lem (fetch_call ∷ cs) q [] h =
      rw (fetch-Fetches q [] h, calls, calls-queue_calls_lem cs q [] h) refl
  calls-queue_calls_lem (fetch_call ∷ cs) q (x ∷ xs) h =
      let (q', g, h') = fetch-Fetches q (x ∷ xs) h in
      rw (g, calls, calls-queue_calls_lem cs q' xs h') refl
  calls-queue_calls_lem (count_call ∷ cs) q xs h =
      rw (calls-queue_calls_lem cs q xs h) (ap (λ n. count_answer n ∷ queue_calls cs xs) h.full)

  init-IsQueue : (q : EvtMsgQ Sem T) → length q.i_buf ≡ sz → 0 < sz → IsQueue (init os sz q) []
  unfolding init
  init-IsQueue q e l = record {
    holds = record {
      count = refl;
      array = e;
      fits = omega arith;
      read_bound = l;
      write_next = sym (advance-zero sz 0 l);
      items = refl;
    };
    full = counter_init 0;
    empty = omega (arith, counter_init sz);
  }

  -- Once initialised, an event queue with an array of its length, which is not 0, answers every
  -- sequence of sends, fetches and counts that do not block as an empty queue of that length does,
  -- and never reads outside the array.
  pub calls-init :
      (cs : List (Call T)) (q : EvtMsgQ Sem T)
      → length q.i_buf ≡ sz
      → 0 < sz
      → calls cs (init os sz q) ≡ queue_calls cs []
  calls-init cs q e l = calls-queue_calls_lem cs (init os sz q) [] (init-IsQueue q e l)
