-- ===== src/Shell.antt =====
-- The shell: what prints and what receives commands, embedded/kl_lib/shell.h and shell.cpp. A
-- character is its code, below 256.
pub mod Print
pub mod ByteCmd
pub mod Numbers
pub mod Bytes
pub mod Messages
pub mod Exchange
use locket_api.Prelude.{ℕ, ◌*◌, ◌+◌}

abbrev pub chr_backspace : ℕ
chr_backspace = 8

abbrev pub chr_lf : ℕ
chr_lf = 10

abbrev pub chr_cr : ℕ
chr_cr = 13

abbrev pub chr_hash : ℕ
chr_hash = 35

abbrev pub chr_0 : ℕ
chr_0 = 48

abbrev pub chr_9 : ℕ
chr_9 = 57

abbrev pub chr_upper_a : ℕ
chr_upper_a = 65

abbrev pub chr_upper_f : ℕ
chr_upper_f = 70

abbrev pub chr_lower_a : ℕ
chr_lower_a = 97

abbrev pub chr_lower_f : ℕ
chr_lower_f = 102
