-- ===== src/Tests/Machine.antt =====
-- The processor and the health machine at concrete inputs.
use native.Mathlib.Omega.{arith}
use locket_api.Prelude.{
  ℕ, ◌≡◌, ◌≢◌, refl, ap, Option, some, [], ◌∷◌, ◌==◌, if◌then◌else◌, map, ◌>>=◌,
}
use locket_api.Qhsm.{
  Handler, state, do_transition, init, q_tran, ctor, climb, cross, collect, meet, enter, dispatch,
  bubble, conclude,
}
use locket_api.Qhsm.Transition.{at, asked, do_transition_lem, do_transition_self, init_lem}
use locket_api.Api.Eeprom.{Eeprom}
use locket_api.Api.Device.{set_beacon}
use locket_api.MariyEl.SmData.{save_health_state, reset_count, reset_health}
use locket_api.MariyEl.Health.{
  HealthState, health_state_eq, initial, global, alive, god, mortal, god_ready, simple, dead,
  Health, handlers, health_ctor, Machine,
}
use locket_api.MariyEl.Health.Hierarchy.{follows, on_entry, on_exit}
use locket_api.MariyEl.Health.Player.{Mode, Player, minute, heal, radiation, god_button, react}
use locket_api.MariyEl.Health.Refine.{Plays, dispatch-react}
use locket_api.MariyEl.Health.Boot.{boot, revive}
use locket_api.MariyEl.Health.Life.{
  signal, power_cut, IsPlaying, PlaysOn, lives, run, proceed, send, boot-run,
}
use locket_api.MariyEl.Health.Promises.{Leads, dead_until_pill, god_after_pause}

-- A memory that stores 7 points of health and a pause of 2 minutes for the mode of the code.
abbrev memory : ℕ → Eeprom
memory code = λ a. if a == 0 then 2 else if a == 8 then 7 else if a == 16 then code else 0

abbrev mortal_player : Player
mortal_player = record { mode = Mode.god_ready; god_pause = 2; count = 0; health = 7 }

abbrev dead_player : Player
dead_player = record mortal_player { mode = Mode.dead }

abbrev members : ℕ → HealthState → Health
members code s = record {
  start_state = state s;
  vars = record { god_pause = 2; count = 0; health = 7; eeprom = memory code };
  out = [];
}

abbrev dead_machine : Machine
dead_machine = at (state dead) (members 3 dead)

abbrev ready_machine : Machine
ready_machine = at (state god_ready) (record (members 1 god_ready) { out = set_beacon 1 ∷ [] })

dead_machine-IsPlaying : IsPlaying dead_machine dead_player
dead_machine-IsPlaying = record {
  rests = refl;
  agrees = record {
    god_pause = refl;
    count = refl;
    health = refl;
    stored_god_pause = refl;
    stored_count = refl;
    stored_health = refl;
    stored_mode = refl;
    path = refl;
  };
  valid = omega arith;
}

ready_machine-IsPlaying : IsPlaying ready_machine mortal_player
ready_machine-IsPlaying = record {
  rests = refl;
  agrees = record {
    god_pause = refl;
    count = refl;
    health = refl;
    stored_god_pause = refl;
    stored_count = refl;
    stored_health = refl;
    stored_mode = refl;
    path = refl;
  };
  valid = omega arith;
}

boot-run_example :
    PlaysOn
      (do
        me ← boot (memory 1) []
        run (signal radiation ∷ power_cut ∷ signal radiation ∷ signal heal ∷ []) me)
      (lives
        (signal radiation ∷ power_cut ∷ signal radiation ∷ signal heal ∷ [])
        (revive mortal_player))
boot-run_example =
    boot-run (signal radiation ∷ power_cut ∷ signal radiation ∷ signal heal ∷ []) (memory 1)
      mortal_player (omega arith) (omega arith)

dispatch-react_example :
    Plays
      (dispatch handlers 8 12 (at (state god_ready) ready_machine.members))
      (react radiation mortal_player)
dispatch-react_example =
    dispatch-react radiation ready_machine.members mortal_player ready_machine-IsPlaying.valid
      ready_machine-IsPlaying.agrees

dead_until_pill_example :
    Leads (run (map signal (radiation ∷ god_button ∷ [])) dead_machine) (λ me'.
      (me'.current ≡ state dead) × (me'.members.vars.health ≡ 7) × (me'.members.vars.god_pause ≡ 2))
dead_until_pill_example =
    dead_until_pill (radiation ∷ god_button ∷ []) dead_machine dead_player dead_machine-IsPlaying
      refl (refl, (refl, tt))

god_after_pause_example :
    Leads
      (run (map signal (minute ∷ god_button ∷ [])) ready_machine)
      (λ me'. me'.current ≢ state god)
god_after_pause_example =
    god_after_pause (minute ∷ god_button ∷ []) ready_machine mortal_player ready_machine-IsPlaying
      (λ e. cc) ((λ e. cc), ((λ e. cc), tt)) (omega arith)

-- The dead button in the state `simple` leaves three states and enters one.
do_transition_lem_example :
    do_transition handlers 8 (asked (state simple) (state mortal) (state dead) (members 0 simple))
    ≡ some (
        at
          (state dead)
          (on_entry dead (on_exit alive (on_exit mortal (on_exit simple (members 0 simple))))))
do_transition_lem_example =
    do_transition_lem follows 8 (simple ∷ []) (mortal ∷ alive ∷ []) (dead ∷ []) (global ∷ [])
      (members 0 simple)
      (record {
        current_chain = (refl, refl, (refl, refl, (refl, refl, (refl, refl, tt))));
        source_chain = (refl, refl, (refl, refl, (refl, refl, tt)));
        target_chain = (refl, refl, (refl, refl, tt));
        below_apart = (refl, tt);
        source_apart = ((refl, (refl, tt)), ((refl, (refl, tt)), tt));
        target_apart = (refl, tt);
      })
      refl (omega arith) (omega arith)

do_transition_self_example :
    do_transition handlers 8 (asked (state simple) (state alive) (state alive) (members 0 simple))
    ≡ some (
        at
          (state alive)
          (on_entry alive (on_exit alive (on_exit mortal (on_exit simple (members 0 simple))))))
do_transition_self_example =
    do_transition_self follows 8 (simple ∷ mortal ∷ []) alive (global ∷ []) (members 0 simple)
      (refl, refl, (refl, refl, (refl, refl, (refl, refl, tt)))) (refl, (refl, tt)) (omega arith)

initial_asks :
    (sig : ℕ) (me : Machine)
    → me.members ≡ members 3 dead
    → handlers initial sig me ≡ q_tran (state dead) me
unfolding handlers
initial_asks sig me e = ap (λ h. q_tran h.start_state me) e

init_lem_example :
    init handlers 8 0 (ctor (state initial) (members 3 dead))
    ≡ some (at (state dead) (on_entry dead (on_entry global (members 3 dead))))
init_lem_example =
    init_lem follows 8 0 initial dead (global ∷ []) (members 3 dead) initial_asks
      (refl, refl, (refl, refl, tt)) (omega arith) (omega arith)

abbrev glance : Machine → Option (Handler HealthState × ℕ)
glance me = some (me.current, me.members.vars.health)

-- A machine that was dead when the power went starts dead, and a healing pill makes it simple.
healed_after_boot :
    (do me ← boot (memory 3) []; me' ← run (signal radiation ∷ signal heal ∷ []) me; glance me')
    ≡ some (state simple, 330)
unfolding boot run proceed send init dispatch bubble conclude do_transition climb cross collect meet
    enter handlers health_ctor reset_count save_health_state reset_health
healed_after_boot = refl
