-- ===== src/MariyEl/Health/Hierarchy.antt =====
-- The health machine as a statechart.
use locket_api.Prelude.{◌≡◌, refl, Bool, true, false}
use locket_api.Qhsm.{Handler, qhsm_top, state, qep_empty_sig, q_entry_sig, q_exit_sig}
use locket_api.Qhsm.Chart.{Chart, Follows}
use locket_api.Api.Color.{red, white}
use locket_api.MariyEl.SmData.{reset_god_pause, reset_count, get_health_color, save_health_state}
use locket_api.MariyEl.Show.{
  start_transmit_for_path, stop_transmit_for_path, set_color, flash, death_vibro, god_vibro,
}
use locket_api.MariyEl.Health.{
  HealthState, health_state_eq, initial, global, alive, god, mortal, god_ready, simple, dead,
  Health, Machine, handlers, god_code, god_ready_code, simple_code, dead_code,
}

abbrev pub parent : HealthState → Handler HealthState
parent initial = qhsm_top
parent global = qhsm_top
parent alive = state global
parent god = state alive
parent mortal = state alive
parent god_ready = state mortal
parent simple = state mortal
parent dead = state global

abbrev pub regular : HealthState → Bool
regular initial = false
regular _ = true

pub on_entry : HealthState → Health → Health
on_entry initial h = h
on_entry global h = h
on_entry alive h = record h {
  out = set_color (get_health_color h.vars) (start_transmit_for_path h.out);
}
on_entry god h = record h {
  vars = save_health_state god_code (reset_count h.vars);
  out = god_vibro (set_color white h.out);
}
on_entry mortal h = h
on_entry god_ready h = record h {
  vars = save_health_state god_ready_code h.vars;
  out = flash white (get_health_color h.vars) h.out;
}
on_entry simple h = record h { vars = save_health_state simple_code h.vars }
on_entry dead h = record h {
  vars = save_health_state dead_code (reset_count h.vars);
  out = death_vibro (stop_transmit_for_path (set_color red h.out));
}

pub on_exit : HealthState → Health → Health
on_exit god h = record h { vars = reset_god_pause h.vars; out = god_vibro h.out }
on_exit _ h = h

abbrev pub chart : Chart HealthState Health
chart = record { regular = regular; parent = parent; on_entry = on_entry; on_exit = on_exit }

follows_effective :
    (k : HealthState) (me : Machine)
    → regular k ≡ true
    → (handlers k qep_empty_sig me).1.effective ≡ parent k
unfolding handlers
follows_effective initial me r = cc
follows_effective _ me r = refl

follows_members :
    (k : HealthState) (me : Machine)
    → regular k ≡ true
    → (handlers k qep_empty_sig me).1.members ≡ me.members
unfolding handlers
follows_members initial me r = cc
follows_members _ me r = refl

follows_entry :
    (k : HealthState) (me : Machine)
    → regular k ≡ true
    → (handlers k q_entry_sig me).1.members ≡ on_entry k me.members
unfolding handlers on_entry
follows_entry initial me r = cc
follows_entry _ me r = refl

follows_exit :
    (k : HealthState) (me : Machine)
    → regular k ≡ true
    → (handlers k q_exit_sig me).1.members ≡ on_exit k me.members
unfolding handlers on_exit
follows_exit initial me r = cc
follows_exit god me r = refl
follows_exit _ me r = refl

-- The handlers of the health machine are those of its statechart.
pub follows : Follows handlers chart
follows = record {
  empty_effective = follows_effective;
  empty_members = follows_members;
  entry_members = follows_entry;
  exit_members = follows_exit;
}
