-- ===== src/Shell/Exchange.antt =====
-- Byte commands one after another: each is printed, received by `ByteUart_t::IRxTask` of
-- embedded/kl_lib/uart.cpp, and processed before the next arrives.
use locket_api.Prelude.{
  ℕ, ◌≡◌, refl, false, Option, some, List, [], ◌∷◌, length, ◌>>=◌, if◌then◌else◌,
}
use locket_api.Buffers.{Retv, ok}
use locket_api.Shell.ByteCmd.{ByteUart, bytecmd_data_sz, on_bytes, i_rx_task, signal_cmd_processed}
use locket_api.Shell.Messages.{
  Message, IsMessage, print_message, command, printed, print_message_lem, message-Arrives,
}

abbrev AreMessages : List Message → Type 0
AreMessages [] = Unit
AreMessages (m ∷ ms) = IsMessage m × AreMessages ms

module _ {Q : Type 0} (send_now_or_exit : Q → Retv × Q) where
  -- What the main loop takes: the command, where it has been told of one.
  heard : ByteUart → List Message → List Message
  heard uart rest = if uart.cmd_process_in_progress then command uart.cmd ∷ rest else rest

  pub exchange : List Message → ByteUart → Q → Option (List Message)
  unfolding heard
  exchange [] uart q = some []
  exchange (m ∷ ms) uart q = do
    text ← print_message m
    rest ←
        exchange ms (signal_cmd_processed (i_rx_task send_now_or_exit text uart q).0)
          (i_rx_task send_now_or_exit text uart q).1
    some (heard (i_rx_task send_now_or_exit text uart q).0 rest)

  rx_idle :
      (bs : List ℕ) (uart : ByteUart) (q : Q)
      → uart.cmd_process_in_progress ≡ false
      → i_rx_task send_now_or_exit bs uart q ≡ on_bytes send_now_or_exit bs uart q
  unfolding i_rx_task
  rx_idle bs uart q e = rw e refl

  -- Messages of a code and at most 98 bytes of data, each printed behind a `#` by `%A` and received
  -- while nothing is being processed, arrive as they were, whatever the receiver and its array held
  -- before, where the queue takes every event.
  pub exchange-messages :
      (ms : List Message) (uart : ByteUart) (q : Q)
      → AreMessages ms
      → ((q : Q) → (send_now_or_exit q).0 ≡ ok)
      → length uart.cmd.i_buf ≡ bytecmd_data_sz
      → uart.cmd_process_in_progress ≡ false
      → exchange ms uart q ≡ some ms
  unfolding exchange signal_cmd_processed
  exchange-messages [] uart q v a z i = refl
  exchange-messages (m ∷ ms) uart q v a z i =
      let r = message-Arrives send_now_or_exit m uart q v.0 (a q) z in
      let rest =
        exchange-messages ms (signal_cmd_processed (on_bytes send_now_or_exit (printed m) uart q).0)
          (on_bytes send_now_or_exit (printed m) uart q).1 v.1 a r.size refl in
      rw (print_message_lem m v.0)
        (rw (rx_idle (printed m) uart q i) (rw (rest, r.busy, r.reads) refl))
