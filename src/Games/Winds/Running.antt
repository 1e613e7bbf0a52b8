-- ===== src/Games/Winds/Running.antt =====
-- A player's timer of projects/springwind_behavior/springwind_behavior.cpp from its button to its end.
use native.Mathlib.Omega.{arith}
use native.Mathlib.Nat.{div-lt_iff_lt-mul}
use locket_api.Prelude.{
  ℕ, zero, suc, ◌+◌, ◌-◌, ◌*◌, ◌/◌, ◌%◌, ◌^◌, ◌≡◌, ◌≤◌, ◌<◌, refl, ap, ◌∙◌, true, false, some, List,
  [], ◌∷◌, ltb, leb, ◌==◌, if◌then◌else◌, Bool-cases, inl, inr,
}
use locket_api.Api.Color.{Color, rgb}
use locket_api.Api.Sequences.{brr_brr_brr}
use locket_api.Api.Device.{Command, led_start, led_stop, vibro_start}
use locket_api.MariyEl.PlayerDevice.{IdOnlyState}
use locket_api.Games.Winds.{
  player, idle, Winds, is_idle, player_start, player_current, current_color, timer_second,
  every_second, start_timer, on_button_pressed, on_radio_packet_received,
}
use locket_api.Games.Winds.Timer.{
  Event, second_passed, button, dip_switch, packet, handle, handle_all,
}

-- The colour goes from red to green.
abbrev pub faded : ℕ → ℕ → Color
faded threshold seconds =
    let red_part = 255 * (threshold - seconds) / threshold in rgb red_part (255 - red_part) 0

-- The commands of so many seconds, before the timer's end.
abbrev pub shown : ℕ → ℕ → List Command → List Command
shown threshold zero out = out
shown threshold (suc n) out =
    led_start (player_current (faded threshold (suc n))) ∷ led_stop ∷ shown threshold n out

-- The locket so many seconds behind the start of its timer.
abbrev pub timed : ℕ → ℕ → Winds → Winds
timed threshold n w =
    if ltb n threshold
    then record w { seconds_counter = n; out = shown threshold n w.out }
    else record w {
      state = idle;
      current_threshold = 0;
      seconds_counter = 0;
      out =
          led_start player_start ∷ vibro_start brr_brr_brr ∷ shown threshold (threshold - 1) w.out;
    }

current_color_lem :
    (threshold seconds : ℕ)
    → seconds < threshold
    → threshold ≤ 1800
    → current_color threshold seconds ≡ faded threshold seconds
unfolding current_color
current_color_lem threshold seconds h b =
    let left = threshold - seconds in
    let less : (threshold + 2 ^ 32 - seconds) % 2 ^ 32 ≡ left = omega arith in
    let small : 255 * left % 2 ^ 32 ≡ 255 * left = omega arith in
    let byte : 255 * left / threshold < 256 = (div-lt_iff_lt-mul (omega arith)).1 (omega arith) in
    let whole : 255 * left / threshold % 256 ≡ 255 * left / threshold = omega (arith, byte) in
    rw (less, small, whole) refl

timer_second-timed :
    (threshold n : ℕ) (w : Winds)
    → 0 < threshold
    → threshold ≤ 1800
    → is_idle w.state ≡ false
    → w.current_threshold ≡ threshold
    → timer_second (timed threshold n w) ≡ some (timed threshold (suc n) w)
unfolding timer_second
timer_second-timed threshold n w p b i t = elim (Bool-cases (ltb n threshold)) [
  | inr l ↦ let l' : ltb (suc n) threshold ≡ false = ground arith in rw (l, l') refl
  | inl l ↦
      let s : (n + 1) % 2 ^ 32 ≡ suc n = ground arith in
      elim (Bool-cases (ltb (suc n) threshold)) [
        | inl m ↦
            let goes_on : leb threshold (suc n) ≡ false = ground arith in
            let color = current_color_lem threshold (suc n) (ground arith) b in
            let some_threshold : (threshold == 0) ≡ false = ground arith in
            rw (l, m, i, t, s, goes_on, some_threshold, color) refl
        | inr m ↦
            let ends : leb threshold (suc n) ≡ true = ground arith in
            let last : threshold - 1 ≡ n = ground arith in rw (l, m, i, t, s, ends, last) refl
      ]
]

-- No event but seconds, packets and short presses.
abbrev pub Calm : List Event → Type 0
Calm [] = Unit
Calm (second_passed ∷ es) = Calm es
Calm (button i true ∷ es) = ⊥
Calm (button i false ∷ es) = Calm es
Calm (dip_switch mask ∷ es) = ⊥
Calm (packet p ∷ es) = Calm es

abbrev pub seconds : List Event → ℕ
seconds [] = 0
seconds (second_passed ∷ es) = suc (seconds es)
seconds (_ ∷ es) = seconds es

abbrev pub threshold_of : ℕ → ℕ
threshold_of button_index =
    if button_index == 0 then 300 else if button_index == 1 then 900 else 1800

mode-timed : (threshold n : ℕ) (w : Winds) → (timed threshold n w).mode ≡ w.mode
mode-timed threshold n w = elim (Bool-cases (ltb n threshold)) [
  | inl l ↦ rw l refl
  | inr l ↦ rw l refl
]

-- What a player's locket does at an event.
second_of_player : (w : Winds) → w.mode ≡ player → handle second_passed w ≡ timer_second w
unfolding handle every_second
second_of_player w m = simp (m, every_second)

packet_of_player : (p : IdOnlyState) (w : Winds) → w.mode ≡ player → handle (packet p) w ≡ some w
unfolding handle on_radio_packet_received
packet_of_player p w m = simp (m, on_radio_packet_received)

press_of_player : (i : ℕ) (w : Winds) → w.mode ≡ player → handle (button i false) w ≡ some w
unfolding handle on_button_pressed
press_of_player i w m = simp (m, on_button_pressed)

long_press_of_player :
    (i : ℕ) (w : Winds) → w.mode ≡ player → handle (button i true) w ≡ some (start_timer i w)
unfolding handle on_button_pressed
long_press_of_player i w m = simp (m, on_button_pressed)

module _ (threshold : ℕ) (w : Winds) (p : 0 < threshold) (b : threshold ≤ 1800)
    (m : w.mode ≡ player) (i : is_idle w.state ≡ false) (t : w.current_threshold ≡ threshold) where
  timed_on :
      (es : List Event) (n : ℕ)
      → Calm es
      → handle_all es (timed threshold n w) ≡ some (timed threshold (n + seconds es) w)
  unfolding handle_all
  timed_on [] n c = let e : n + 0 ≡ n = omega arith in rw e refl
  timed_on (second_passed ∷ es) n c =
      let e : n + suc (seconds es) ≡ suc n + seconds es = omega arith in
      let second =
        second_of_player (timed threshold n w) (mode-timed threshold n w ∙ m)
        ∙ timer_second-timed threshold n w p b i t in
      rw (second, e) (timed_on es (suc n) c)
  timed_on (button k true ∷ es) n c = absurd c
  timed_on (button k false ∷ es) n c =
      rw (press_of_player k (timed threshold n w) (mode-timed threshold n w ∙ m)) (timed_on es n c)
  timed_on (dip_switch mask ∷ es) n c = absurd c
  timed_on (packet q ∷ es) n c =
      rw (packet_of_player q (timed threshold n w) (mode-timed threshold n w ∙ m)) (timed_on es n c)

started :
    (k : ℕ) (w : Winds)
    → k < 3
    → (is_idle (start_timer k w).state ≡ false)
      × ((start_timer k w).current_threshold ≡ threshold_of k)
      × (start_timer k w ≡ timed (threshold_of k) 0 (start_timer k w))
started k w h = ground (arith, h)

-- A long press of one of the three buttons starts the timer of five, fifteen or thirty minutes: while
-- nothing but packets and short presses comes between the seconds, the LED goes from red to green, in
-- the proportion of the time that has passed, and the timer ends at its last second exactly, with a
-- vibration and the player's sequence, after which the seconds do nothing.
pub handle_all-timed :
    (k : ℕ) (es : List Event) (w : Winds)
    → k < 3
    → w.mode ≡ player
    → Calm es
    → handle_all (button k true ∷ es) w
      ≡ some (timed (threshold_of k) (seconds es) (start_timer k w))
unfolding handle_all
handle_all-timed k es w h m c =
    let begun = started k w h in
    let w' = start_timer k w in
    let bounds : (0 < threshold_of k) × (threshold_of k ≤ 1800) = ground arith in
    let m' : w'.mode ≡ player = ground (arith, m) in
    let none_passed : 0 + seconds es ≡ seconds es = omega arith in
    rw (long_press_of_player k w m) (
      ap (handle_all es) begun.2
      ∙ (timed_on (threshold_of k) w' bounds.0 bounds.1 m' begun.0 begun.1 es 0 c
          ∙ ap (λ n. some (timed (threshold_of k) n w')) none_passed))
