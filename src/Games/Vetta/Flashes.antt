-- ===== src/Games/Vetta/Flashes.antt =====
-- How often a locket of projects/vetta_behavior/vetta_behavior.cpp flashes.
use Prim.Native.Nat.{max}
use locket_api.Prelude.{ℕ, zero, suc, ◌+◌, ◌<◌, List, [], ◌∷◌, ◌==◌, if◌then◌else◌}
use locket_api.Api.Sequences.{LedRgbChunk, setup}
use locket_api.MariyEl.PlayerDevice.{IdOnlyState}
use locket_api.Games.Vetta.{Command, led_start, set_power, transmit, Vetta, every_second}

-- The times that a sequence lights the LED up.
abbrev lights : LedRgbChunk → ℕ
lights chunk = elim chunk.type [ setup ↦ if chunk.color.r == 255 then 1 else 0 | _ ↦ 0 ]

abbrev lit : List LedRgbChunk → ℕ
lit [] = 0
lit (chunk ∷ chunks) = lights chunk + lit chunks

abbrev pub flashes : List Command → ℕ
flashes [] = 0
flashes (led_start chunks ∷ cs) = lit chunks + flashes cs
flashes (set_power level ∷ cs) = flashes cs
flashes (transmit id ∷ cs) = flashes cs

abbrev pub largest : List IdOnlyState → ℕ
largest [] = 0
largest (p ∷ ps) = max p.id (largest ps)

abbrev pub AllBytes : List IdOnlyState → Type 0
AllBytes [] = Unit
AllBytes (p ∷ ps) = (p.id < 256) × AllBytes ps

-- Some seconds in which no packet comes.
pub seconds : ℕ → Vetta → Vetta
seconds zero v = v
seconds (suc n) v = seconds n (every_second v)
