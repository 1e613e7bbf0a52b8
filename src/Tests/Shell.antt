-- ===== src/Tests/Shell.antt =====
-- The theorems on the shell, applied to numbers and messages, and runs of its code.
use locket_api.Prelude.{ℕ, ◌≡◌, refl, some, true, false, List, [], ◌∷◌, arith, zero, suc, ◌+◌}
use locket_api.Buffers.{Retv, ok}
use locket_api.Shell.Print.{num, printf_to_buf, skip_precision}
use locket_api.Shell.ByteCmd.{ByteUart, bytecmd_data_sz, i_rx_task}
use locket_api.Shell.Exchange.{exchange, exchange-messages}

-- `printf("%05u|%X|%d", 305, 171, -7)`.
printed_numbers :
    printf_to_buf
      (37 ∷ 48 ∷ 53 ∷ 117 ∷ 124 ∷ 37 ∷ 88 ∷ 124 ∷ 37 ∷ 100 ∷ [])
      (num 305 ∷ num 171 ∷ num 4294967289 ∷ [])
    ≡ some (48 ∷ 48 ∷ 51 ∷ 48 ∷ 53 ∷ 124 ∷ 65 ∷ 66 ∷ 124 ∷ 45 ∷ 55 ∷ [])
unfolding printf_to_buf skip_precision
printed_numbers = refl

zeros : ℕ → List ℕ
zeros zero = []
zeros (suc n) = 0 ∷ zeros n

abbrev idle_uart : ByteUart
unfolding zeros
idle_uart = record {
  cmd = record {
    completed = false;
    i_buf = zeros bytecmd_data_sz;
    first_half_of_byte = true;
    was_started = false;
    cmd_code = 0;
    cnt = 0;
  };
  cmd_process_in_progress = false;
}

abbrev count_event : ℕ → Retv × ℕ
count_event n = (ok, n + 1)

exchange-messages_example :
    exchange count_event ((1, 171 ∷ 2 ∷ []) ∷ (255, []) ∷ []) idle_uart 0
    ≡ some ((1, 171 ∷ 2 ∷ []) ∷ (255, []) ∷ [])
unfolding idle_uart
exchange-messages_example =
    exchange-messages count_event ((1, 171 ∷ 2 ∷ []) ∷ (255, []) ∷ []) idle_uart 0
      (
        record { bytes = (omega arith, (omega arith, (omega arith, tt))); fits = omega arith },
        (record { bytes = (omega arith, tt); fits = omega arith }, tt),
      )
      (λ q. refl) refl refl

-- A line feed behind the end of a command, in the same round, empties the command that is announced.
announced : (i_rx_task count_event (35 ∷ 48 ∷ 49 ∷ 65 ∷ 66 ∷ 13 ∷ []) idle_uart 0).0.cmd.cnt ≡ 1
unfolding i_rx_task idle_uart
announced = refl

emptied : (i_rx_task count_event (35 ∷ 48 ∷ 49 ∷ 65 ∷ 66 ∷ 13 ∷ 10 ∷ []) idle_uart 0).0.cmd.cnt ≡ 0
unfolding i_rx_task idle_uart
emptied = refl
