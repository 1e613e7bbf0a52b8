-- ===== src/Tests/Pill.antt =====
-- The theorems on pills, applied to a chip of 256 places that is busy for five milliseconds behind a
-- write.
use native.Mathlib.Omega.{arith}
use locket_api.Prelude.{
  ℕ, ◌-◌, ◌≡◌, ◌≤◌, refl, Bool, true, false, List, [], ◌∷◌, some, ◌==◌, if◌then◌else◌,
}
use locket_api.Pill.{I2c, PillMgr, no_change, write, wrapper_read, wrapper_write}
use locket_api.Pill.Overlay.{overlay}
use locket_api.Pill.Memory.{Chip, Outcome, write-Stores}
use locket_api.Pill.RoundTrip.{Quick, bytes_at, wrapper_read-wrapper_write}
use locket_api.Pill.Connection.{Leads, checks, checks-Leads}

record Eeprom : Type 0 where
  memory : ℕ → ℕ
  busy : ℕ

abbrev cycle : ℕ → List ℕ → Eeprom → Bool × Eeprom
cycle mem_addr page e =
    if e.busy == 0
    then (true, record { memory = overlay mem_addr page e.memory; busy = 5 })
    else (false, e)

abbrev wired : I2c
wired = record {
  Bus = Eeprom;
  resume = λ e. e;
  standby = λ e. e;
  sleep = λ ms e. record e { busy = e.busy - ms };
  check_address = λ addr e. (e.busy == 0, e);
  write_write = λ addr mem_addr page e. cycle mem_addr page e;
  write_read = λ addr mem_addr len e. (e.busy == 0, bytes_at e.memory mem_addr len, e);
}

cycle_stored :
    (mem_addr : ℕ) (page : List ℕ) (e : Eeprom)
    → (cycle mem_addr page e).0 ≡ true
    → (cycle mem_addr page e).1.memory ≡ overlay mem_addr page e.memory
cycle_stored mem_addr page e h = ground arith

cycle_refused :
    (mem_addr : ℕ) (page : List ℕ) (e : Eeprom)
    → (cycle mem_addr page e).0 ≡ false
    → (cycle mem_addr page e).1.memory ≡ e.memory
cycle_refused mem_addr page e h = ground arith

abbrev chip : Chip wired
chip = record {
  memory = λ e. e.memory;
  resumed = λ e. refl;
  stood_by = λ e. refl;
  slept = λ ms e. refl;
  checked = λ addr e. refl;
  stored = λ mem_addr page e h b p. cycle_stored mem_addr page e h;
  refused = λ mem_addr page e h. cycle_refused mem_addr page e h;
}

cycle_takes :
    (mem_addr : ℕ) (page : List ℕ) (e : Eeprom) → e.busy ≡ 0 → (cycle mem_addr page e).0 ≡ true
cycle_takes mem_addr page e h = ground arith

cycle_short :
    (mem_addr : ℕ) (page : List ℕ) (e : Eeprom)
    → (cycle mem_addr page e).0 ≡ true
    → (cycle mem_addr page e).1.busy ≤ 5
cycle_short mem_addr page e h = ground arith

cycle_undisturbed :
    (mem_addr : ℕ) (page : List ℕ) (e : Eeprom)
    → (cycle mem_addr page e).0 ≡ false
    → (cycle mem_addr page e).1.busy ≤ e.busy
cycle_undisturbed mem_addr page e h = ground arith

zero_test : (n : ℕ) → n ≡ 0 → (n == 0) ≡ true
zero_test n h = ground arith

test_zero : (n : ℕ) → (n == 0) ≡ true → n ≡ 0
test_zero n h = ground arith

abbrev quick : Quick chip
quick = record {
  busy = λ e. e.busy;
  resumed = λ e. omega arith;
  stood_by = λ e. omega arith;
  slept = λ ms e. omega arith;
  takes = cycle_takes;
  short = cycle_short;
  undisturbed = cycle_undisturbed;
  answers = λ e h. zero_test e.busy h;
  checked = λ e. omega arith;
  ready = λ e h. test_zero e.busy h;
  gives = λ mem_addr len e h. refl;
}

abbrev blank_pill : Eeprom
blank_pill = record { memory = λ a. 255; busy = 3 }

abbrev ten_bytes : List ℕ
ten_bytes = 1 ∷ 2 ∷ 3 ∷ 4 ∷ 5 ∷ 6 ∷ 7 ∷ 8 ∷ 9 ∷ 10 ∷ []

write-Stores_example : Outcome chip 16 ten_bytes (λ a. 255) (write wired 16 ten_bytes blank_pill)
write-Stores_example = write-Stores chip 16 ten_bytes blank_pill refl (omega arith)

wrapper_read-wrapper_write_example :
    (after : Eeprom) × (wrapper_write wired ten_bytes blank_pill ≡ some after)
    × ((wrapper_read wired 10 after).0 ≡ ten_bytes)
wrapper_read-wrapper_write_example =
    wrapper_read-wrapper_write quick ten_bytes blank_pill (omega arith) (omega arith)

abbrev looking : PillMgr
looking = record { is_connected_now = false; state = no_change; pill = [] }

checks-Leads_example :
    Leads false
      (checks wired 3 looking blank_pill).0
      (checks wired 3 looking blank_pill).1.is_connected_now
checks-Leads_example = checks-Leads wired 3 looking blank_pill
