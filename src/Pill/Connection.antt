-- ===== src/Pill/Connection.antt =====
-- The events of pills that come and go: `PillMgr_t::Check` of embedded/Pill/pill_mgr.cpp, over time.
use locket_api.Prelude.{
  ℕ, zero, suc, ◌≡◌, refl, Bool, true, false, Bool-cases, inl, inr, List, [], ◌∷◌, ◌++◌,
}
use locket_api.Pill.{
  I2c, PillMgr, PillEvent, connected, disconnected, look, check, read, pill_i2c_addr,
  pill_data_addr, pill_sz,
}

-- The events that take a connection from one state to another, one by one.
abbrev pub Leads : Bool → List PillEvent → Bool → Type 0
Leads from [] to = from ≡ to
Leads false (connected ∷ es) to = Leads true es to
Leads true (disconnected ∷ es) to = Leads false es to
Leads _ (_ ∷ es) to = ⊥

Leads-append :
    (es fs : List PillEvent) (a b c : Bool) → Leads a es b → Leads b fs c → Leads a (es ++ fs) c
Leads-append [] fs a b c h k = rw h k
Leads-append (connected ∷ es) fs false b c h k = Leads-append es fs true b c h k
Leads-append (disconnected ∷ es) fs true b c h k = Leads-append es fs false b c h k
Leads-append (disconnected ∷ es) fs false b c h k = h
Leads-append (connected ∷ es) fs true b c h k = h

module _ (i2c : I2c) where
  -- The events of some checks, one after another, with what is behind them.
  pub checks : ℕ → PillMgr → i2c.Bus → List PillEvent × PillMgr × i2c.Bus
  checks zero me bus = ([], me, bus)
  checks (suc n) me bus =
      let r = check i2c me bus in let rest = checks n r.1 r.2 in (r.0 ++ rest.0, rest.1, rest.2)

  check-Leads :
      (me : PillMgr) (bus : i2c.Bus)
      → Leads me.is_connected_now (check i2c me bus).0 (check i2c me bus).1.is_connected_now
  unfolding check look read
  check-Leads me bus = elim (Bool-cases me.is_connected_now) [
    | inl c ↦ elim (Bool-cases (i2c.check_address pill_i2c_addr (i2c.resume bus)).0) [
      | inl t ↦ rw (c, t, look) refl
      | inr f ↦ rw (c, f, look) refl
    ]
    | inr c ↦ elim (Bool-cases (read i2c pill_data_addr pill_sz (i2c.resume bus)).0) [
      | inl t ↦ rw (c, t, look) refl
      | inr f ↦ rw (c, f, look) refl
    ]
  ]

  -- However the bus answers, the events of any number of checks tell of a pill that comes and of one
  -- that goes in turns, from the connection before them to the connection after them.
  pub checks-Leads :
      (n : ℕ) (me : PillMgr) (bus : i2c.Bus)
      → Leads me.is_connected_now (checks n me bus).0 (checks n me bus).1.is_connected_now
  unfolding checks
  checks-Leads zero me bus = refl
  checks-Leads (suc n) me bus =
      let r = check i2c me bus in
      Leads-append r.0 (checks n r.1 r.2).0 me.is_connected_now r.1.is_connected_now _
        (check-Leads me bus) (checks-Leads n r.1 r.2)
