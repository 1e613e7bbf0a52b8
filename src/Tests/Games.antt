-- ===== src/Tests/Games.antt =====
-- The behaviors of the games at concrete inputs.
use native.Mathlib.Omega.{arith}
use mathlib.Core.List.{Permᴰ}
use locket_api.Prelude.{ℕ, ◌≡◌, refl, inl, true, false, some, List, [], ◌∷◌}
use locket_api.Api.Utility.{minus_15_dbm}
use locket_api.Games.Winds.{Winds, player, idle, start_timer}
use locket_api.Games.Winds.Timer.{
  Event, second_passed, button, dip_switch, packet, handle_all, Winding, handle_all-Winding,
}
use locket_api.Games.Winds.Running.{timed, seconds, threshold_of, handle_all-timed}
use locket_api.Games.Vetta.{Vetta}
use locket_api.Games.Vetta.Flashes.{seconds as vetta_seconds}
use locket_api.Games.Kirlits.{IdAndTypeState, create_sequence}
use locket_api.Games.Kirlits.Sequence.{create_sequence-Perm}

abbrev winds : Winds
winds = record {
  seconds_counter = 0;
  current_threshold = 0;
  mode = player;
  state = idle;
  rx_table = [];
  range_level = minus_15_dbm;
  out = [];
}

-- A timer, a call for help and a change of the switches.
abbrev evening : List Event
evening =
    button 1 true
    ∷ second_passed
    ∷ dip_switch 2
    ∷ button 0 false
    ∷ second_passed
    ∷ packet (record { id = 2 })
    ∷ dip_switch 0
    ∷ second_passed
    ∷ []

handle_all-Winding_example : Winding (handle_all evening winds)
handle_all-Winding_example = handle_all-Winding evening winds (omega arith, inl refl)

abbrev short_wait : List Event
short_wait = second_passed ∷ packet (record { id = 2 }) ∷ button 2 false ∷ second_passed ∷ []

handle_all-timed_example :
    handle_all (button 1 true ∷ short_wait) winds
    ≡ some (timed (threshold_of 1) (seconds short_wait) (start_timer 1 winds))
handle_all-timed_example = handle_all-timed 1 short_wait winds (omega arith) refl tt

abbrev locket : ℕ → ℕ → IdAndTypeState
locket id type = record { id = id; locket_type = type }

abbrev meeting : List IdAndTypeState
meeting = locket 3 4 ∷ locket 1 0 ∷ locket 2 5 ∷ []

create_sequence-Perm_example :
    create_sequence meeting ≡ create_sequence (locket 1 0 ∷ locket 3 4 ∷ locket 2 5 ∷ [])
create_sequence-Perm_example =
    create_sequence-Perm meeting (locket 1 0 ∷ locket 3 4 ∷ locket 2 5 ∷ []) (Permᴰ.swap refl refl)

abbrev hearing : Vetta
hearing = record {
  rx_table = record { id = 2 } ∷ record { id = 7 } ∷ [];
  dip_value = 1;
  counter = 0;
  received_previous_second = false;
  out = [];
}
