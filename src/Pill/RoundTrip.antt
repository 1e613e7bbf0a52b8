-- ===== src/Pill/RoundTrip.antt =====
-- What is written on a pill is read from it: `PillManagerWrapper` of
-- embedded/wrappers/pill_manager_wrapper.h over `PillMgr_t`, with a chip whose write cycle is short.
use locket_api.Prelude.{
  ℕ, zero, suc, ◌+◌, ◌-◌, ◌*◌, ◌≡◌, ◌≤◌, ◌<◌, refl, sym, ap, ◌∙◌, inl, inr, Bool, true, false,
  Bool-cases, Option, none, some, List, [], ◌∷◌, ◌++◌, length, take, drop, take_bounds, append-nil,
  ◌==◌, if◌then◌else◌, ◌>>=◌, arith,
}
use locket_api.Buffers.{Retv, ok, timeout}
use locket_api.Pill.{
  I2c, pill_i2c_addr, pill_page_sz, try_page, write_pages, await, read, write, wrapper_read,
  wrapper_write,
}
use locket_api.Pill.Overlay.{overlay}
use locket_api.Pill.Memory.{Chip, Outcome, write-Stores}

-- The bytes of a memory from an address on.
abbrev pub bytes_at : (ℕ → ℕ) → ℕ → ℕ → List ℕ
bytes_at f start zero = []
bytes_at f start (suc n) = f start ∷ bytes_at f (suc start) n

bytes_at-local :
    (n start end : ℕ) (f g : ℕ → ℕ)
    → end < start
    → ((a : ℕ) → end < a → f a ≡ g a)
    → bytes_at f start n ≡ bytes_at g start n
bytes_at-local zero start end f g h e = refl
bytes_at-local (suc n) start end f g h e =
    rw (e start h, bytes_at-local n (suc start) end f g (omega arith) e) refl

bytes_at-overlay :
    (xs : List ℕ) (start : ℕ) (f : ℕ → ℕ) → bytes_at (overlay start xs f) start (length xs) ≡ xs
bytes_at-overlay [] start f = refl
bytes_at-overlay (x ∷ xs) start f =
    let here : (start == start) ≡ true = ground arith in
    let later =
      bytes_at-local (length xs) (suc start) start (overlay start (x ∷ xs) f)
        (overlay (suc start) xs f) (omega arith)
        (λ a h. let away : (a == start) ≡ false = ground arith in rw away refl) in
    rw (here, later, bytes_at-overlay xs (suc start) f) refl

-- What is relied on of a chip that is connected: for some milliseconds after a write it answers
-- nothing, at most for five, and then it takes writes, answers to its address and gives its memory.
pub record Quick {i2c : I2c} (chip : Chip i2c) : Type 0 where
  pub busy : i2c.Bus → ℕ
  pub resumed : (bus : i2c.Bus) → busy (i2c.resume bus) ≤ busy bus
  pub stood_by : (bus : i2c.Bus) → busy (i2c.standby bus) ≤ busy bus
  pub slept : (ms : ℕ) (bus : i2c.Bus) → busy (i2c.sleep ms bus) ≤ busy bus - ms
  pub takes :
      (mem_addr : ℕ) (page : List ℕ) (bus : i2c.Bus)
      → busy bus ≡ 0
      → (i2c.write_write pill_i2c_addr mem_addr page bus).0 ≡ true
  pub short :
      (mem_addr : ℕ) (page : List ℕ) (bus : i2c.Bus)
      → (i2c.write_write pill_i2c_addr mem_addr page bus).0 ≡ true
      → busy (i2c.write_write pill_i2c_addr mem_addr page bus).1 ≤ 5
  pub undisturbed :
      (mem_addr : ℕ) (page : List ℕ) (bus : i2c.Bus)
      → (i2c.write_write pill_i2c_addr mem_addr page bus).0 ≡ false
      → busy (i2c.write_write pill_i2c_addr mem_addr page bus).1 ≤ busy bus
  pub answers : (bus : i2c.Bus) → busy bus ≡ 0 → (i2c.check_address pill_i2c_addr bus).0 ≡ true
  pub checked : (bus : i2c.Bus) → busy (i2c.check_address pill_i2c_addr bus).1 ≤ busy bus
  pub ready : (bus : i2c.Bus) → (i2c.check_address pill_i2c_addr bus).0 ≡ true → busy bus ≡ 0
  pub gives :
      (mem_addr len : ℕ) (bus : i2c.Bus)
      → busy bus ≡ 0
      → (i2c.write_read pill_i2c_addr mem_addr len bus).1 ≡ bytes_at (chip.memory bus) mem_addr len

module _ {i2c : I2c} {chip : Chip i2c} (quick : Quick chip) where
  try_page-quick :
      (left mem_addr : ℕ) (page : List ℕ) (bus : i2c.Bus)
      → quick.busy bus ≤ 4 * left
      → ((try_page i2c (suc left) mem_addr page bus).0 ≡ true)
        × (quick.busy (try_page i2c (suc left) mem_addr page bus).1 ≤ 5)
  unfolding try_page
  try_page-quick zero mem_addr page bus h =
      let t = quick.takes mem_addr page bus (omega arith) in
      rw t (refl, quick.short mem_addr page bus t)
  try_page-quick (suc left) mem_addr page bus h =
      let r = i2c.write_write pill_i2c_addr mem_addr page bus in
      elim (Bool-cases r.0) [
        | inl t ↦ rw t (refl, quick.short mem_addr page bus t)
        | inr f ↦
            let less : quick.busy (i2c.sleep 4 r.1) ≤ 4 * left =
              omega (arith, quick.slept 4 r.1, quick.undisturbed mem_addr page bus f) in
            let again : (suc left == 0) ≡ false = ground arith in
            rw (f, again) (try_page-quick left mem_addr page (i2c.sleep 4 r.1) less)
      ]

  await-quick :
      (left : ℕ) (bus : i2c.Bus)
      → quick.busy bus ≤ suc left
      → ((await i2c (suc left) bus).0 ≡ true) × (quick.busy (await i2c (suc left) bus).1 ≡ 0)
  unfolding await
  await-quick zero bus h =
      let now : quick.busy (i2c.sleep 1 bus) ≡ 0 = omega (arith, quick.slept 1 bus) in
      rw (quick.answers (i2c.sleep 1 bus) now)
        (refl, omega (arith, quick.checked (i2c.sleep 1 bus)))
  await-quick (suc left) bus h =
      let slept = i2c.sleep 1 bus in
      let r = i2c.check_address pill_i2c_addr slept in
      elim (Bool-cases r.0) [
        | inl t ↦ rw t (refl, omega (arith, quick.checked slept, quick.ready slept t))
        | inr f ↦
            rw f (await-quick left r.1 (omega (arith, quick.checked slept, quick.slept 1 bus)))
      ]

  Pages : Option (Bool × i2c.Bus) → Type 0
  Pages none = ⊥
  Pages (some r) = (r.0 ≡ true) × (quick.busy r.1 ≤ 5)

  write_pages-quick :
      (fuel mem_addr : ℕ) (bytes : List ℕ) (bus : i2c.Bus)
      → length bytes < fuel
      → quick.busy bus ≤ 5
      → Pages (write_pages i2c fuel mem_addr bytes bus)
  unfolding write_pages Pages
  write_pages-quick zero mem_addr bytes bus f h = absurd (omega arith)
  write_pages-quick (suc fuel) mem_addr [] bus f h = (refl, h)
  write_pages-quick (suc fuel) mem_addr (b ∷ bs) bus f h =
      let page = take pill_page_sz (b ∷ bs) in
      let r = try_page-quick 4 mem_addr page bus (omega (arith, h)) in
      let fewer : length (drop pill_page_sz (b ∷ bs)) < fuel =
        omega (arith, take_bounds pill_page_sz (b ∷ bs)) in
      rw r.0 (write_pages-quick fuel _ _ _ fewer r.1)

  Written : Option (Retv × i2c.Bus) → Type 0
  Written none = ⊥
  Written (some r) = (r.0 ≡ ok) × (quick.busy r.1 ≡ 0)

  finishes :
      (o : Option (Bool × i2c.Bus))
      → Pages o
      → Written (do
        pages ← o
        let done = if pages.0 then await i2c 5 pages.1 else pages
        some (if done.0 then ok else timeout, i2c.standby done.1))
  unfolding Pages Written
  finishes none p = p
  finishes (some (true, bus)) p =
      let a = await-quick 4 bus p.1 in
      rw a.0 (refl, omega (arith, quick.stood_by (await i2c 5 bus).1, a.1))
  finishes (some (false, bus)) p = absurd (ground (arith, p.0))

  write-quick :
      (mem_addr : ℕ) (bytes : List ℕ) (bus : i2c.Bus)
      → quick.busy bus ≤ 5
      → Written (write i2c mem_addr bytes bus)
  unfolding write
  write-quick mem_addr bytes bus h = finishes _ (
      write_pages-quick (length bytes + 1) mem_addr bytes (i2c.resume bus) (omega arith)
        (omega (arith, quick.resumed bus)))

  reads_back :
      (state : List ℕ) (old : ℕ → ℕ) (o : Option (Retv × i2c.Bus))
      → Written o
      → Outcome chip 0 state old o
      → (bus : i2c.Bus) × ((do r ← o; some r.1) ≡ some bus)
        × ((wrapper_read i2c (length state) bus).0 ≡ state)
  unfolding Written wrapper_read read
  reads_back state old none w s = absurd w
  reads_back state old (some r) w s =
      let stored = s.1 in
      let nothing : stored.left ≡ [] = simp w.0 at stored.complete in
      let whole : state ≡ stored.done =
        stored.all ∙ (ap (λ l. stored.done ++ l) nothing ∙ append-nil stored.done) in
      let now : quick.busy (i2c.resume r.1) ≡ 0 = omega (arith, quick.resumed r.1, w.1) in
      let memory : chip.memory (i2c.resume r.1) ≡ overlay 0 state old =
        chip.resumed r.1 ∙ (stored.memory ∙ ap (λ l. overlay 0 l old) (sym whole)) in
      (
        r.1,
        refl,
        quick.gives 0 (length state) (i2c.resume r.1) now
            ∙ (ap (λ m. bytes_at m 0 (length state)) memory ∙ bytes_at-overlay state 0 old),
      )

  -- A state of at most 256 bytes that the wrapper writes, on a chip that is connected and at rest and
  -- whose write cycle takes at most five milliseconds, is what the wrapper then reads.
  pub wrapper_read-wrapper_write :
      (state : List ℕ) (bus : i2c.Bus)
      → length state ≤ 256
      → quick.busy bus ≤ 5
      → (after : i2c.Bus) × (wrapper_write i2c state bus ≡ some after)
        × ((wrapper_read i2c (length state) after).0 ≡ state)
  unfolding wrapper_write
  wrapper_read-wrapper_write state bus l h =
      reads_back state (chip.memory bus) (write i2c 0 state bus) (write-quick 0 state bus h)
        (write-Stores chip 0 state bus (omega arith) (omega arith))
