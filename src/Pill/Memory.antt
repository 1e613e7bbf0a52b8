-- ===== src/Pill/Memory.antt =====
-- What `PillMgr_t::Write` of embedded/Pill/pill_mgr.cpp leaves in the pill's memory, whether it
-- succeeds or gives up.
use locket_api.Prelude.{
  ℕ, zero, suc, ◌+◌, ◌%◌, ◌≡◌, ◌≤◌, ◌<◌, refl, sym, ap, ◌∙◌, ◌⊎◌, inl, inr, Bool, true, false,
  Bool-cases, Option, none, some, List, [], ◌∷◌, ◌++◌, length, take, drop, append-append,
  nil_of_length, take_bounds, take-drop, subst, ◌==◌, if◌then◌else◌, ◌>>=◌, arith,
}
use locket_api.Buffers.{Retv, ok, timeout}
use locket_api.Pill.Overlay.{overlay, overlay_after}
use locket_api.Pill.{I2c, pill_i2c_addr, pill_page_sz, try_page, write_pages, await, write}

-- The address behind a page of `p` bytes, with `m` bytes left.
next_page :
    (mem_addr p m : ℕ)
    → p ≤ pill_page_sz
    → (pill_page_sz ≤ p ⊎ (m ≡ 0))
    → mem_addr % pill_page_sz ≡ 0
    → mem_addr + (p + m) ≤ 256
    → (m ≡ 0 ⊎ (((mem_addr + p) % 256 ≡ mem_addr + p) × ((mem_addr + p) % 256 % pill_page_sz ≡ 0)))
      × ((mem_addr + p) % 256 + m ≤ 256)
next_page mem_addr p zero l full al h = (inl refl, omega arith)
next_page mem_addr p (suc m) l (inr z) al h = absurd (omega arith)
next_page mem_addr p (suc m) l (inl full) al h = (inr (omega arith, omega arith), omega arith)

-- What is relied on of the chip: a write within a page, of which the chip takes each byte, stores
-- them, and nothing else changes the memory.
pub record Chip (i2c : I2c) : Type 1 where
  pub memory : i2c.Bus → ℕ → ℕ
  pub resumed : (bus : i2c.Bus) → memory (i2c.resume bus) ≡ memory bus
  pub stood_by : (bus : i2c.Bus) → memory (i2c.standby bus) ≡ memory bus
  pub slept : (ms : ℕ) (bus : i2c.Bus) → memory (i2c.sleep ms bus) ≡ memory bus
  pub checked : (addr : ℕ) (bus : i2c.Bus) → memory (i2c.check_address addr bus).1 ≡ memory bus
  pub stored :
      (mem_addr : ℕ) (page : List ℕ) (bus : i2c.Bus)
      → (i2c.write_write pill_i2c_addr mem_addr page bus).0 ≡ true
      → mem_addr < 256
      → mem_addr % pill_page_sz + length page ≤ pill_page_sz
      → memory (i2c.write_write pill_i2c_addr mem_addr page bus).1
        ≡ overlay mem_addr page (memory bus)
  pub refused :
      (mem_addr : ℕ) (page : List ℕ) (bus : i2c.Bus)
      → (i2c.write_write pill_i2c_addr mem_addr page bus).0 ≡ false
      → memory (i2c.write_write pill_i2c_addr mem_addr page bus).1 ≡ memory bus

module _ {i2c : I2c} (chip : Chip i2c) where
  -- What a write of some bytes has done to a memory: it has stored the first of them, and all of them
  -- where it succeeded.
  pub record Stores (mem_addr : ℕ) (bytes : List ℕ) (old : ℕ → ℕ) (success : Bool) (bus : i2c.Bus)
      : Type 0 where
    pub done : List ℕ
    pub left : List ℕ
    pub all : bytes ≡ done ++ left
    pub memory : chip.memory bus ≡ overlay mem_addr done old
    pub complete : (if success then left else []) ≡ []

  Page : ℕ → List ℕ → (ℕ → ℕ) → Bool × i2c.Bus → Type 0
  Page mem_addr page old r =
      ((r.0 ≡ true) × (chip.memory r.1 ≡ overlay mem_addr page old))
      ⊎ ((r.0 ≡ false) × (chip.memory r.1 ≡ old))

  abbrev pub InPage : ℕ → List ℕ → Type 0
  InPage mem_addr page = (mem_addr < 256) × (mem_addr % pill_page_sz + length page ≤ pill_page_sz)

  try_page-Page :
      (left mem_addr : ℕ) (page : List ℕ) (bus : i2c.Bus) (old : ℕ → ℕ)
      → InPage mem_addr page
      → chip.memory bus ≡ old
      → Page mem_addr page old (try_page i2c left mem_addr page bus)
  unfolding try_page Page
  try_page-Page zero mem_addr page bus old h e = inr (refl, e)
  try_page-Page (suc left) mem_addr page bus old h e =
      let r = i2c.write_write pill_i2c_addr mem_addr page bus in
      elim (Bool-cases r.0) [
        | inl t ↦
            rw t
              (inl (refl, chip.stored mem_addr page bus t h.0 h.1 ∙ ap (overlay mem_addr page) e))
        | inr f ↦
            let kept : chip.memory r.1 ≡ old = chip.refused mem_addr page bus f ∙ e in
            rw f (
              try_page-Page left mem_addr page _ old h (elim (Bool-cases (left == 0)) [
                | inl z ↦ rw z kept
                | inr z ↦ rw z (chip.slept 4 r.1 ∙ kept)
              ]))
      ]

  AllStored : ℕ → List ℕ → (ℕ → ℕ) → Option (Bool × i2c.Bus) → Type 0
  AllStored mem_addr bytes old none = ⊥
  AllStored mem_addr bytes old (some r) = Stores mem_addr bytes old r.0 r.1

  -- What follows a page that is stored.
  after_page :
      (mem_addr next : ℕ) (page bytes : List ℕ) (old mid : ℕ → ℕ) (o : Option (Bool × i2c.Bus))
      → mid ≡ overlay mem_addr page old
      → (bytes ≡ [] ⊎ (next ≡ mem_addr + length page))
      → AllStored next bytes mid o
      → AllStored mem_addr (page ++ bytes) old o
  unfolding AllStored
  after_page mem_addr next page bytes old mid none e n s = s
  after_page mem_addr next page bytes old mid (some r) e n s = record {
    done = page ++ s.done;
    left = s.left;
    all = ap (λ l. page ++ l) s.all ∙ sym (append-append page s.done s.left);
    memory = s.memory ∙ overlay_after page bytes s.done s.left mem_addr next old mid e n s.all;
    complete = s.complete;
  }

  stored_step :
      (mem_addr next : ℕ) (page bytes : List ℕ) (old : ℕ → ℕ) (r : Bool × i2c.Bus)
      (rest : Option (Bool × i2c.Bus))
      → (bytes ≡ [] ⊎ (next ≡ mem_addr + length page))
      → Page mem_addr page old r
      → (chip.memory r.1 ≡ overlay mem_addr page old
          → AllStored next bytes (overlay mem_addr page old) rest)
      → AllStored mem_addr (page ++ bytes) old (if r.0 then rest else some r)
  unfolding Page AllStored
  stored_step mem_addr next page bytes old (true, bus) rest n (inl p) k =
      after_page mem_addr next page bytes old _ rest refl n (k p.1)
  stored_step mem_addr next page bytes old (false, bus) rest n (inl p) k =
      absurd (ground (arith, p.0))
  stored_step mem_addr next page bytes old (true, bus) rest n (inr p) k =
      absurd (ground (arith, p.0))
  stored_step mem_addr next page bytes old (false, bus) rest n (inr p) k = record {
    done = [];
    left = page ++ bytes;
    all = refl;
    memory = p.1;
    complete = refl;
  }

  write_pages-AllStored :
      (fuel mem_addr : ℕ) (bytes : List ℕ) (bus : i2c.Bus) (old : ℕ → ℕ)
      → length bytes < fuel
      → (bytes ≡ [] ⊎ (mem_addr % pill_page_sz ≡ 0))
      → mem_addr + length bytes ≤ 256
      → chip.memory bus ≡ old
      → AllStored mem_addr bytes old (write_pages i2c fuel mem_addr bytes bus)
  unfolding write_pages AllStored
  write_pages-AllStored zero mem_addr bytes bus old f al h e = absurd (omega arith)
  write_pages-AllStored (suc fuel) mem_addr [] bus old f al h e = record {
    done = [];
    left = [];
    all = refl;
    memory = e;
    complete = refl;
  }
  write_pages-AllStored (suc fuel) mem_addr (b ∷ bs) bus old f (inl z) h e =
      absurd (ground (arith, z))
  write_pages-AllStored (suc fuel) mem_addr (b ∷ bs) bus old f (inr al) h e =
      let page = take pill_page_sz (b ∷ bs) in
      let more = drop pill_page_sz (b ∷ bs) in
      let sizes = take_bounds pill_page_sz (b ∷ bs) in
      let m = length more in
      let numbers = next_page mem_addr (length page) m sizes.0 sizes.2 al (omega arith) in
      let addr = (mem_addr + length page) % 256 in
      let inside : InPage mem_addr page = omega (arith, sizes.0) in
      let next : more ≡ [] ⊎ (addr ≡ mem_addr + length page) = elim numbers.0 [
        | inl z ↦ inl (nil_of_length more z)
        | inr n ↦ inr n.0
      ] in
      let aligned : more ≡ [] ⊎ (addr % pill_page_sz ≡ 0) = elim numbers.0 [
        | inl z ↦ inl (nil_of_length more z)
        | inr n ↦ inr n.1
      ] in
      let stored =
        stored_step mem_addr addr page more old (try_page i2c 5 mem_addr page bus) _ next
          (try_page-Page 5 mem_addr page bus old inside e)
          (λ m.
            write_pages-AllStored fuel addr more _ (overlay mem_addr page old)
              (omega (arith, sizes.1)) aligned numbers.1 m) in
      subst (λ xs. AllStored mem_addr xs old (write_pages i2c (suc fuel) mem_addr (b ∷ bs) bus))
        (take-drop pill_page_sz (b ∷ bs)) stored

  await-memory : (left : ℕ) (bus : i2c.Bus) → chip.memory (await i2c left bus).1 ≡ chip.memory bus
  unfolding await
  await-memory zero bus = chip.slept 1 bus
  await-memory (suc left) bus =
      let r = i2c.check_address pill_i2c_addr (i2c.sleep 1 bus) in
      let kept : chip.memory r.1 ≡ chip.memory bus =
        chip.checked pill_i2c_addr (i2c.sleep 1 bus) ∙ chip.slept 1 bus in
      elim (Bool-cases r.0) [ inl t ↦ rw t kept | inr f ↦ rw f (await-memory left r.1 ∙ kept) ]

  abbrev pub is_ok : Retv → Bool
  is_ok ok = true
  is_ok _ = false

  abbrev pub Outcome : ℕ → List ℕ → (ℕ → ℕ) → Option (Retv × i2c.Bus) → Type 0
  Outcome mem_addr bytes old none = ⊥
  Outcome mem_addr bytes old (some (answer, bus)) =
      (answer ≡ ok ⊎ (answer ≡ timeout)) × Stores mem_addr bytes old (is_ok answer) bus

  finish :
      (mem_addr : ℕ) (bytes : List ℕ) (old : ℕ → ℕ) (pages : Bool × i2c.Bus)
      → Stores mem_addr bytes old pages.0 pages.1
      → Outcome mem_addr bytes old (
          let done = if pages.0 then await i2c 5 pages.1 else pages in
          some (if done.0 then ok else timeout, i2c.standby done.1))
  finish mem_addr bytes old (false, bus) s = (
    inr refl,
    record {
      done = s.done;
      left = s.left;
      all = s.all;
      memory = chip.stood_by bus ∙ s.memory;
      complete = refl;
    },
  )
  finish mem_addr bytes old (true, bus) s = elim (Bool-cases (await i2c 5 bus).0) [
    | inl t ↦ rw t (
      inl refl,
      record {
        done = s.done;
        left = s.left;
        all = s.all;
        memory = chip.stood_by _ ∙ (await-memory 5 bus ∙ s.memory);
        complete = s.complete;
      },
    )
    | inr f ↦ rw f (
      inr refl,
      record {
        done = s.done;
        left = s.left;
        all = s.all;
        memory = chip.stood_by _ ∙ (await-memory 5 bus ∙ s.memory);
        complete = refl;
      },
    )
  ]

  finishes :
      (mem_addr : ℕ) (bytes : List ℕ) (old : ℕ → ℕ) (o : Option (Bool × i2c.Bus))
      → AllStored mem_addr bytes old o
      → Outcome mem_addr bytes old (do
        pages ← o
        let done = if pages.0 then await i2c 5 pages.1 else pages
        some (if done.0 then ok else timeout, i2c.standby done.1))
  unfolding AllStored
  finishes mem_addr bytes old none s = s
  finishes mem_addr bytes old (some pages) s = finish mem_addr bytes old pages s

  -- Writing bytes from the start of a page on, not past the chip's 256 addresses, ends with success or
  -- a timeout, whatever the chip answers; the first of the bytes are then stored, in their places, all
  -- of them where it is a success, and no other place of the memory has changed.
  pub write-Stores :
      (mem_addr : ℕ) (bytes : List ℕ) (bus : i2c.Bus)
      → mem_addr % pill_page_sz ≡ 0
      → mem_addr + length bytes ≤ 256
      → Outcome mem_addr bytes (chip.memory bus) (write i2c mem_addr bytes bus)
  unfolding write
  write-Stores mem_addr bytes bus al h = finishes mem_addr bytes (chip.memory bus) _ (
      write_pages-AllStored (length bytes + 1) mem_addr bytes (i2c.resume bus) (chip.memory bus)
        (omega arith) (inr al) h (chip.resumed bus))
