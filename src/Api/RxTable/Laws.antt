-- ===== src/Api/RxTable/Laws.antt =====
-- What a receive table promises: a map from ids to their latest packets, of bounded size.
use native.Mathlib.Omega.{arith}
use locket_api.Prelude.{
  ℕ, ◌≤◌, ◌≡◌, refl, ◌↔◌, false, none, some, List, [], ◌∷◌, ◌++◌, length, length-append, ◌==◌,
  ==_iff, Bool-cases, Option-cases, inl, inr,
}
use locket_api.Api.RxTable.{overwrite, add_packet, find_packet}

module _ {ℓ} {P : Type ℓ} (id : P → ℕ) where
  -- No packet of the table has the id.
  abbrev pub Lacks : ℕ → List P → Type 0
  Lacks i [] = Unit
  Lacks i (p ∷ table) = ((id p == i) ≡ false) × Lacks i table

  abbrev pub HasDistinctIds : List P → Type 0
  HasDistinctIds [] = Unit
  HasDistinctIds (p ∷ table) = Lacks (id p) table × HasDistinctIds table

  pub record IsTable (table_size : ℕ) (table : List P) : Type 0 where
    pub distinct : HasDistinctIds table
    pub fits : length table ≤ table_size

  overwrite-none :
      (p : P) (table : List P)
      → overwrite id p table ≡ none
      → (find_packet id (id p) table ≡ none) × Lacks (id p) table
  unfolding overwrite find_packet
  overwrite-none p [] h = (refl, tt)
  overwrite-none p (q ∷ table) h = ground (arith, overwrite-none p table)

  overwrite-absent :
      (p : P) (table : List P) → find_packet id (id p) table ≡ none → overwrite id p table ≡ none
  unfolding overwrite find_packet
  overwrite-absent p [] h = refl
  overwrite-absent p (q ∷ table) h = ground (arith, overwrite-absent p table)

  length-overwrite :
      (p : P) (table table' : List P)
      → overwrite id p table ≡ some table'
      → length table' ≡ length table
  unfolding overwrite
  length-overwrite p [] table' h = ground arith
  length-overwrite p (q ∷ table) table' h = elim (Option-cases (overwrite id p table)) [
    | inl n ↦ ground arith
    | inr (t, e) ↦ ground (arith, length-overwrite p table t e)
  ]

  Lacks-overwrite :
      (i : ℕ) (p : P) (table table' : List P)
      → overwrite id p table ≡ some table'
      → Lacks i table
      → Lacks i table'
  unfolding overwrite
  Lacks-overwrite i p [] table' h l = ground arith
  Lacks-overwrite i p (q ∷ table) table' h l = elim (Option-cases (overwrite id p table)) [
    | inl n ↦ ground arith
    | inr (t, e) ↦ ground (arith, Lacks-overwrite i p table t e l.1)
  ]

  Lacks-append :
      (i : ℕ) (p : P) (table : List P)
      → (id p == i) ≡ false
      → Lacks i table
      → Lacks i (table ++ (p ∷ []))
  Lacks-append i p [] n l = (n, tt)
  Lacks-append i p (q ∷ table) n l = (l.0, Lacks-append i p table n l.1)

  distinct-overwrite :
      (p : P) (table table' : List P)
      → overwrite id p table ≡ some table'
      → HasDistinctIds table
      → HasDistinctIds table'
  unfolding overwrite
  distinct-overwrite p [] table' h d = ground arith
  distinct-overwrite p (q ∷ table) table' h d = elim (Option-cases (overwrite id p table)) [
    | inl n ↦ elim (Bool-cases (id q == id p)) [
      | inl same ↦
          let e : id q ≡ id p = (==_iff (id q) (id p)).0 same in
          let t : table' ≡ p ∷ table = ground arith in rw (t, ← e) d
      | inr other ↦ ground arith
    ]
    | inr (t, e) ↦
        ground (arith, distinct-overwrite p table t e d.1, Lacks-overwrite (id q) p table t e d.0)
  ]

  distinct-append :
      (p : P) (table : List P)
      → Lacks (id p) table
      → HasDistinctIds table
      → HasDistinctIds (table ++ (p ∷ []))
  distinct-append p [] l d = (tt, tt)
  distinct-append p (q ∷ table) l d =
      (Lacks-append (id q) p table (ground arith) d.0, distinct-append p table l.1 d.1)

  -- A packet does not fit exactly when the table is full and has no packet of its id.
  add_packet_overflow :
      (table_size : ℕ) (p : P) (table : List P)
      → ((add_packet id table_size p table).1 ≡ false)
        ↔ ((table_size ≤ length table) × (find_packet id (id p) table ≡ none))
  unfolding add_packet
  add_packet_overflow table_size p table = elim (Option-cases (overwrite id p table)) [
    | inl n ↦ ground (arith, n, overwrite-none p table n)
    | inr (t, e) ↦ ground (arith, e, overwrite-absent p table)
  ]

  -- The ids stay distinct, and the table never outgrows its size.
  pub add_packet-IsTable :
      (table_size : ℕ) (p : P) (table : List P)
      → IsTable table_size table
      → IsTable table_size (add_packet id table_size p table).0
  unfolding add_packet
  add_packet-IsTable table_size p table v = elim (Option-cases (overwrite id p table)) [
    | inl n ↦ ground (
      arith,
      n,
      length-append table (p ∷ []),
      distinct-append p table (overwrite-none p table n).1 v.distinct,
    )
    | inr (t, e) ↦
        ground (arith, e, length-overwrite p table t e, distinct-overwrite p table t e v.distinct)
  ]
