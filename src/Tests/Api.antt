-- ===== src/Tests/Api.antt =====
-- The interfaces' own code at concrete inputs.
use locket_api.Prelude.{ℕ, List, [], ◌∷◌}

-- Packets with a payload; the id comes first.
abbrev payload_id : ℕ × ℕ → ℕ
payload_id p = p.0

abbrev full : List (ℕ × ℕ)
full = (1, 10) ∷ (2, 20) ∷ []
