-- ===== src/Shell/Messages.antt =====
-- Byte commands from the printer to the receiver: what `%A` of embedded/kl_lib/shell.cpp prints
-- behind a `#` arrives as the command of `ByteCmd_t` of embedded/kl_lib/shell.h.
use locket_api.Prelude.{
  ℕ, ◌+◌, ◌/◌, ◌%◌, ◌≡◌, ◌≤◌, ◌<◌, refl, ◌∙◌, ap, true, Option, some, List, [], ◌∷◌, ◌++◌, length,
  take, get_or, append-nil, append-append, length-append, ltb, arith,
}
use locket_api.Buffers.{Retv, ok}
use locket_api.Shell.{chr_cr, chr_hash}
use locket_api.Shell.Print.{
  int32_end, num, arr, char_of, put_to_buf, printf_to_buf, print_format, conversion, filler_of,
  number, skip_precision, directive_of, decode, i_vs_printf,
}
use locket_api.Shell.ByteCmd.{
  ByteCmd, ByteUart, proceed, new_cmd, bytecmd_data_sz, put_char, add_half_of_byte, process_char,
  reset_completed, on_byte, on_bytes,
}
use locket_api.Shell.Bytes.{Below256, hex_text, put_bytes, Got, absorb, absorb-Got, put_char-hexes}

-- A code and the data behind it.
abbrev pub Message : Type 0
Message = ℕ × List ℕ

pub record IsMessage (m : Message) : Type 0 where
  pub bytes : Below256 (m.0 ∷ m.1)
  pub fits : length m.1 < bytecmd_data_sz

-- `"#%A\\r"`.
abbrev pub message_format : List ℕ
message_format = chr_hash ∷ 37 ∷ 65 ∷ chr_cr ∷ []

pub print_message : Message → Option (List ℕ)
print_message m =
    printf_to_buf message_format (arr (m.0 ∷ m.1) ∷ num (length (m.0 ∷ m.1)) ∷ num 0 ∷ [])

abbrev pub behind_first : List ℕ → List ℕ
behind_first [] = []
behind_first (x ∷ xs) = xs

-- The code and the `Cnt` bytes at `Data`.
pub command : ByteCmd → Message
command me = (me.cmd_code, take me.cnt (behind_first me.i_buf))

abbrev pub printed : Message → List ℕ
printed m = chr_hash ∷ (hex_text (m.0 ∷ m.1) ++ (chr_cr ∷ []))

pub print_message_lem : (m : Message) → IsMessage m → print_message m ≡ some (printed m)
unfolding print_message printf_to_buf put_to_buf i_vs_printf print_format conversion filler_of
    number skip_precision directive_of decode
print_message_lem m v =
    let few : ltb (length (m.0 ∷ m.1)) int32_end ≡ true = ground (arith, v.fits) in
    rw (few, decode) (rw (put_bytes (m.0 ∷ m.1) [] (chr_hash ∷ []) v.bytes) refl)

absorb_all : List ℕ → ByteCmd → ByteCmd
absorb_all [] me = me
absorb_all (x ∷ xs) me = absorb_all xs (absorb x me)

absorb_all-Got :
    (xs pre : List ℕ) (me : ByteCmd)
    → Below256 xs
    → length pre + length xs ≤ bytecmd_data_sz
    → Got pre me
    → Got (pre ++ xs) (absorb_all xs me)
unfolding absorb_all
absorb_all-Got [] pre me v l g = rw (append-nil pre) g
absorb_all-Got (x ∷ xs) pre me v l g =
    let more : length (pre ++ (x ∷ [])) + length xs ≤ bytecmd_data_sz =
      omega (arith, length-append pre (x ∷ [])) in
    let rest =
      absorb_all-Got xs (pre ++ (x ∷ [])) (absorb x me) v.1 more
        (absorb-Got x pre me v.0 (omega arith) g) in
    simp (append-append pre (x ∷ []) xs) at rest

-- The end of the line completes the command.
command_end :
    (m : Message) (me : ByteCmd)
    → Got (m.0 ∷ m.1) me
    → (put_char chr_cr me ≡ (
      new_cmd,
      record me { completed = true; cmd_code = get_or me.i_buf 0 0; cnt = length m.1 },
    ))
unfolding put_char process_char reset_completed
command_end m me g = ground (arith, g.open_command, g.started, g.count)

command_of :
    (m : Message) (buf : List ℕ)
    → take (length (m.0 ∷ m.1)) buf ≡ m.0 ∷ m.1
    → (get_or buf 0 0, take (length m.1) (behind_first buf)) ≡ m
command_of m [] h = absurd (ground (arith, h))
command_of m (x ∷ buf) h = rw (ap (λ l. get_or l 0 0) h, ap behind_first h) refl

-- The start of a message behind one that is complete, or at the start.
command_start :
    (me : ByteCmd)
    → length me.i_buf ≡ bytecmd_data_sz
    → (me' : ByteCmd) × ((put_char chr_hash me ≡ (proceed, me')) × Got [] me')
unfolding put_char process_char reset_completed
command_start me h = (_, (refl, ground (arith, h)))

module _ {Q : Type 0} (send_now_or_exit : Q → Retv × Q) where
  proceeds :
      (b : ℕ) (bs : List ℕ) (uart : ByteUart) (q : Q) (me : ByteCmd)
      → put_char b uart.cmd ≡ (proceed, me)
      → on_bytes send_now_or_exit (b ∷ bs) uart q
        ≡ on_bytes send_now_or_exit bs (record uart { cmd = me }) q
  unfolding on_bytes on_byte
  proceeds b bs uart q me e = rw (e, on_bytes, on_byte) (rw e refl)

  takes :
      (xs pre rest : List ℕ) (uart : ByteUart) (q : Q)
      → Below256 xs
      → length pre + length xs ≤ bytecmd_data_sz
      → Got pre uart.cmd
      → on_bytes send_now_or_exit (hex_text xs ++ rest) uart q
        ≡ on_bytes send_now_or_exit rest (record uart { cmd = absorb_all xs uart.cmd }) q
  unfolding absorb_all
  takes [] pre rest uart q v l g = refl
  takes (x ∷ xs) pre rest uart q v l g =
      let two = put_char-hexes x pre uart.cmd v.0 (omega arith) g in
      let me = add_half_of_byte (x / 16) uart.cmd in
      let more : length (pre ++ (x ∷ [])) + length xs ≤ bytecmd_data_sz =
        omega (arith, length-append pre (x ∷ [])) in
      proceeds (char_of (x / 16)) _ uart q me two.0
      ∙ (proceeds (char_of (x % 16)) _ (record uart { cmd = me }) q (absorb x uart.cmd) two.1
          ∙ takes xs (pre ++ (x ∷ [])) rest (record uart { cmd = absorb x uart.cmd }) q v.1 more
              (absorb-Got x pre uart.cmd v.0 (omega arith) g))

  -- A message that the task is given arrives, and the main loop is told of it.
  pub record Arrives (m : Message) (told : Q) (r : ByteUart × Q) : Type 0 where
    pub reads : command r.0.cmd ≡ m
    pub size : length r.0.cmd.i_buf ≡ bytecmd_data_sz
    pub busy : r.0.cmd_process_in_progress ≡ true
    pub queue : r.1 ≡ told

  ends :
      (m : Message) (me : ByteCmd) (uart : ByteUart) (q : Q)
      → (send_now_or_exit q).0 ≡ ok
      → Got (m.0 ∷ m.1) me
      → Arrives m
          (send_now_or_exit q).1
          (on_bytes send_now_or_exit (chr_cr ∷ []) (record uart { cmd = me }) q)
  unfolding on_bytes on_byte command
  ends m me uart q a g =
      rw (command_end m me g, on_bytes, on_byte)
        (rw (command_end m me g, a)
          (record {
            reads = command_of m me.i_buf g.holds;
            size = g.size;
            busy = refl;
            queue = refl;
          }))

  pub message-Arrives :
      (m : Message) (uart : ByteUart) (q : Q)
      → IsMessage m
      → (send_now_or_exit q).0 ≡ ok
      → length uart.cmd.i_buf ≡ bytecmd_data_sz
      → Arrives m (send_now_or_exit q).1 (on_bytes send_now_or_exit (printed m) uart q)
  message-Arrives m uart q v a z =
      let start = command_start uart.cmd z in
      let begun = record uart { cmd = start.0 } in
      let done = absorb_all (m.0 ∷ m.1) start.0 in
      let got = absorb_all-Got (m.0 ∷ m.1) [] start.0 v.bytes (omega (arith, v.fits)) start.1.1 in
      rw
        (
          proceeds chr_hash _ uart q start.0 start.1.0,
          takes (m.0 ∷ m.1) [] (chr_cr ∷ []) begun q v.bytes (omega (arith, v.fits)) start.1.1,
        )
        (ends m (absorb_all (m.0 ∷ m.1) start.0) begun q a got)
