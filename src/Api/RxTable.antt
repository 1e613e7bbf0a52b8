-- ===== src/Api/RxTable.antt =====
-- The table of received packets: api/rx_table.h. A packet type is any type with an `id`; the vector
-- is a list, in the order of its elements, and `table_size` is the template's `TableSize`.
pub mod Laws
use locket_api.Prelude.{
  ℕ, ◌%◌, ◌^◌, Bool, true, false, Option, none, some, List, [], ◌∷◌, ◌++◌, length, ltb, ◌==◌,
  if◌then◌else◌,
}

module _ {ℓ} {P : Type ℓ} (id : P → ℕ) where
  -- `std::find_if`, then an assignment through the iterator; `none` is `std::end(table)`.
  unfoldable pub overwrite : P → List P → Option (List P)
  overwrite packet [] = none
  overwrite packet (p ∷ table) =
      let rest = overwrite packet table in
      if id p == id packet
      then some (packet ∷ table)
      else elim rest [ none ↦ none | some table' ↦ some (p ∷ table') ]

  -- The vector after the call, and what the call returns.
  unfoldable pub add_packet : ℕ → P → List P → List P × Bool
  add_packet table_size packet table = elim (overwrite packet table) [
    | some table' ↦ (table', true)
    | none ↦
        if ltb (length table) table_size then (table ++ (packet ∷ []), true) else (table, false)
  ]

  -- The `std::find_if` of `GetPacketById`; `none` is `std::end(table)`.
  unfoldable pub find_packet : ℕ → List P → Option P
  find_packet i [] = none
  find_packet i (p ∷ table) = if id p == i then some p else find_packet i table

  -- The argument is a `uint8_t`, while an id need not be a byte.
  unfoldable pub get_packet_by_id : ℕ → List P → Option P
  unfolding find_packet
  get_packet_by_id i table = find_packet (i % 2 ^ 8) table

  unfoldable pub has_packet_with_id : ℕ → List P → Bool
  unfolding get_packet_by_id
  has_packet_with_id i table = elim (get_packet_by_id (i % 2 ^ 8) table) [
    | none ↦ false
    | some p ↦ true
  ]

abbrev pub clear {ℓ} : {P : Type ℓ} → List P → List P
clear table = []
