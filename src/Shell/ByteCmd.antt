-- ===== src/Shell/ByteCmd.antt =====
-- The receiver of byte commands, `ByteCmd_t` of embedded/kl_lib/shell.h, and the task that feeds it,
-- `ByteUart_t::IRxTask` of embedded/kl_lib/uart.cpp.
use Prim.Native.Nat.{bit_or}
use locket_api.Prelude.{
  ℕ, ◌+◌, ◌-◌, ◌*◌, ◌%◌, Bool, true, false, ◌&&◌, ◌||◌, List, [], ◌∷◌, get_or, set, ltb, leb, ◌==◌,
  if◌then◌else◌,
}
use locket_api.Buffers.{Retv, ok}
use locket_api.Shell.{
  chr_backspace, chr_lf, chr_cr, chr_hash, chr_0, chr_9, chr_upper_a, chr_upper_f, chr_lower_a,
  chr_lower_f,
}

abbrev pub bytecmd_data_sz : ℕ
bytecmd_data_sz = 99

-- `ProcessDataResult_t`: go on, or a new command.
pub data ProcessDataResult : Type 0 where
  proceed new_cmd : ProcessDataResult

pub record ByteCmd : Type 0 where
  pub completed : Bool
  pub i_buf : List ℕ
  pub first_half_of_byte : Bool
  pub was_started : Bool
  pub cmd_code : ℕ
  pub cnt : ℕ

-- Where this is called, `Cnt` is in the array.
unfoldable pub add_half_of_byte : ℕ → ByteCmd → ByteCmd
add_half_of_byte half me =
    if me.first_half_of_byte
    then record me { i_buf = set me.i_buf me.cnt (half * 16 % 256); first_half_of_byte = false }
    else record me {
      i_buf = set me.i_buf me.cnt (bit_or (get_or me.i_buf me.cnt 0) half);
      cnt = me.cnt + 1;
      first_half_of_byte = true;
    }

-- The branch for a character that is neither of the special ones.
unfoldable pub other_char : ℕ → ByteCmd → ByteCmd
unfolding add_half_of_byte
other_char c me =
    if leb chr_0 c && leb c chr_9
    then add_half_of_byte (c - chr_0) me
    else if leb chr_upper_a c && leb c chr_upper_f
    then add_half_of_byte (c - chr_upper_a + 10) me
    else if leb chr_lower_a c && leb c chr_lower_f
    then add_half_of_byte (c - chr_lower_a + 10) me
    else me

-- A command that was completed is forgotten as the next character arrives.
unfoldable pub reset_completed : ByteCmd → ByteCmd
reset_completed me =
    if me.completed
    then record me { completed = false; cnt = 0; first_half_of_byte = true; was_started = false }
    else me

-- What `PutChar` does behind that.
unfoldable pub process_char : ℕ → ByteCmd → ProcessDataResult × ByteCmd
unfolding other_char
process_char c me =
    if c == chr_hash
    then (proceed, record me { cnt = 0; first_half_of_byte = true; was_started = true })
    else if me.was_started
    then (if c == chr_backspace
        then (proceed, if ltb 0 me.cnt then record me { cnt = me.cnt - 1 } else me)
        else if (c == chr_cr) || (c == chr_lf)
        then (if me.cnt == 0 then (proceed, me) else (
          new_cmd,
          record me { cmd_code = get_or me.i_buf 0 0; cnt = me.cnt - 1; completed = true },
        ))
        else (proceed, if ltb me.cnt bytecmd_data_sz then other_char c me else me))
    else (proceed, me)

unfoldable pub put_char : ℕ → ByteCmd → ProcessDataResult × ByteCmd
unfolding reset_completed process_char
put_char c me = process_char c (reset_completed me)

-- What `ByteUart_t` adds to its `BaseUart_t`: the receiver, and whether a command is being processed.
pub record ByteUart : Type 0 where
  pub cmd : ByteCmd
  pub cmd_process_in_progress : Bool

unfoldable pub signal_cmd_processed : ByteUart → ByteUart
signal_cmd_processed uart = record uart { cmd_process_in_progress = false }

-- `send_now_or_exit` is that of the main queue, for the message of a byte command.
module _ {Q : Type 0} (send_now_or_exit : Q → Retv × Q) where
  -- One turn of the loop, with the byte that was received.
  unfoldable pub on_byte : ℕ → ByteUart → Q → ByteUart × Q
  unfolding put_char
  on_byte b uart q =
      let put = put_char b uart.cmd in
      elim put.0 [
        | proceed ↦ (record uart { cmd = put.1 }, q)
        | new_cmd ↦ (
          record {
            cmd = put.1;
            cmd_process_in_progress = elim (send_now_or_exit q).0 [ ok ↦ true | _ ↦ false ];
          },
          (send_now_or_exit q).1,
        )
      ]

  unfoldable pub on_bytes : List ℕ → ByteUart → Q → ByteUart × Q
  unfolding on_byte
  on_bytes [] uart q = (uart, q)
  on_bytes (b ∷ bs) uart q = let next = on_byte b uart q in on_bytes bs next.0 next.1

  -- The bytes are those that `GetByte` gives until it has no more.
  unfoldable pub i_rx_task : List ℕ → ByteUart → Q → ByteUart × Q
  unfolding on_bytes
  i_rx_task bs uart q = if uart.cmd_process_in_progress then (uart, q) else on_bytes bs uart q
