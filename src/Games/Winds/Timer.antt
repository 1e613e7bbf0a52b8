-- ===== src/Games/Winds/Timer.antt =====
-- The timers of the players of projects/springwind_behavior/springwind_behavior.cpp.
use native.Mathlib.Omega.{arith}
use locket_api.Prelude.{
  ℕ, ◌+◌, ◌%◌, ◌^◌, ◌≡◌, ◌≤◌, ◌<◌, refl, subst, Bool, true, false, Option, none, some, List, [],
  ◌∷◌, leb, ◌==◌, ◌>>=◌, Bool-cases, inl, inr, ◌⊎◌,
}
use locket_api.MariyEl.PlayerDevice.{IdOnlyState}
use locket_api.Games.Winds.{
  Mode, player, lady_lu, master_sos, State, Winds, is_idle, sos_second, timer_second,
  lady_lu_second, every_second, on_dip_switch_changed, on_button_pressed, on_radio_packet_received,
}

pub data Event : Type 0 where
  second_passed : Event
  button : ℕ → Bool → Event
  dip_switch : ℕ → Event
  packet : IdOnlyState → Event

unfoldable pub handle : Event → Winds → Option Winds
unfolding every_second on_button_pressed on_dip_switch_changed on_radio_packet_received
handle second_passed w = every_second w
handle (button i long) w = some (on_button_pressed i long w)
handle (dip_switch mask) w = some (on_dip_switch_changed mask w)
handle (packet p) w = some (on_radio_packet_received p w)

unfoldable pub handle_all : List Event → Winds → Option Winds
handle_all [] w = some w
handle_all (e ∷ es) w = do w' ← handle e w; handle_all es w'

-- A timer of a player runs below its threshold, which is at most the longest.
abbrev pub IsTimed : Mode → State → ℕ → ℕ → Type 0
IsTimed player state seconds threshold =
    (is_idle state ≡ true) ⊎ ((seconds < threshold) × (threshold ≤ 1800))
IsTimed lady_lu state seconds threshold = Unit
IsTimed master_sos state seconds threshold = Unit

abbrev pub IsWinds : Winds → Type 0
IsWinds w =
    (w.seconds_counter < 1800) × IsTimed w.mode w.state w.seconds_counter w.current_threshold

abbrev pub Winding : Option Winds → Type 0
Winding none = ⊥
Winding (some w) = IsWinds w

timer_second-Winding :
    (w : Winds)
    → w.mode ≡ player
    → w.seconds_counter < 1800
    → IsTimed player w.state w.seconds_counter w.current_threshold
    → Winding (timer_second w)
unfolding timer_second
timer_second-Winding w m b (inl i) = rw (m, i) (b, inl i)
timer_second-Winding w m b (inr t) =
    let s = (w.seconds_counter + 1) % 2 ^ 32 in
    elim (Bool-cases (is_idle w.state)) [
      | inl i ↦ rw (m, i) (b, inl i)
      | inr i ↦ elim (Bool-cases (leb w.current_threshold s)) [
        | inl l ↦ rw (m, i, l) (omega arith, inl refl)
        | inr l ↦
            let some_threshold : (w.current_threshold == 0) ≡ false = ground (arith, t) in
            let below : s < w.current_threshold = ground arith in
            rw (m, i, l, some_threshold) (omega (arith, t, below), inr (below, t.1))
      ]
    ]

sos_second-IsWinds :
    (w : Winds) → w.mode ≡ master_sos → w.seconds_counter < 1800 → IsWinds (sos_second w)
unfolding sos_second
sos_second-IsWinds w m b = rw m (ground arith)

lady_lu_second-IsWinds :
    (w : Winds) → w.mode ≡ lady_lu → w.seconds_counter < 1800 → IsWinds (lady_lu_second w)
unfolding lady_lu_second
lady_lu_second-IsWinds w m b = rw m (ground arith)

on_button_pressed-IsWinds :
    (i : ℕ) (long : Bool) (w : Winds) → IsWinds w → IsWinds (on_button_pressed i long w)
unfolding on_button_pressed
on_button_pressed-IsWinds i long w h = split w.mode refl
  where
    split : (mode : Mode) → w.mode ≡ mode → IsWinds (on_button_pressed i long w)
    split player m =
        let timed =
          subst (λ mode. IsTimed mode w.state w.seconds_counter w.current_threshold) m h.1 in
        rw (m, on_button_pressed) (ground (arith, timed, h.0))
    split lady_lu m = rw (m, on_button_pressed) (ground (arith, h.0))
    split master_sos m = rw (m, on_button_pressed) (ground (arith, h.0))

on_dip_switch_changed-IsWinds :
    (mask : ℕ) (w : Winds) → IsWinds w → IsWinds (on_dip_switch_changed mask w)
unfolding on_dip_switch_changed
on_dip_switch_changed-IsWinds mask w h = ground arith

every_second-Winding : (w : Winds) → IsWinds w → Winding (every_second w)
unfolding every_second
every_second-Winding w h = split w.mode refl
  where
    split : (mode : Mode) → w.mode ≡ mode → Winding (every_second w)
    split player m =
        let timed =
          subst (λ mode. IsTimed mode w.state w.seconds_counter w.current_threshold) m h.1 in
        rw (m, every_second) (timer_second-Winding w m h.0 timed)
    split lady_lu m = rw (m, every_second) (lady_lu_second-IsWinds w m h.0)
    split master_sos m = rw (m, every_second) (sos_second-IsWinds w m h.0)

on_radio_packet_received-IsWinds :
    (p : IdOnlyState) (w : Winds) → IsWinds w → IsWinds (on_radio_packet_received p w)
unfolding on_radio_packet_received
on_radio_packet_received-IsWinds p w h = split w.mode refl
  where
    split : (mode : Mode) → w.mode ≡ mode → IsWinds (on_radio_packet_received p w)
    split player m = rw (m, on_radio_packet_received) h
    split lady_lu m = rw (m, on_radio_packet_received) h
    split master_sos m = rw (m, on_radio_packet_received) (ground (arith, h.0))

handle-Winding : (e : Event) (w : Winds) → IsWinds w → Winding (handle e w)
unfolding handle
handle-Winding second_passed w h = every_second-Winding w h
handle-Winding (button i long) w h = on_button_pressed-IsWinds i long w h
handle-Winding (dip_switch mask) w h = on_dip_switch_changed-IsWinds mask w h
handle-Winding (packet p) w h = on_radio_packet_received-IsWinds p w h

handle_on :
    (o : Option Winds) (es : List Event)
    → Winding o
    → ((w : Winds) → IsWinds w → Winding (handle_all es w))
    → Winding (o >>= handle_all es)
handle_on none es h k = h
handle_on (some w) es h k = k w h

-- Whatever happens to a locket whose counter is below the longest threshold and whose timer, if a
-- player's is running, is below its own, it stays so, and a second never divides by zero.
pub handle_all-Winding : (es : List Event) (w : Winds) → IsWinds w → Winding (handle_all es w)
unfolding handle_all
handle_all-Winding [] w h = h
handle_all-Winding (e ∷ es) w h =
    handle_on (handle e w) es (handle-Winding e w h) (λ w'. handle_all-Winding es w')
