-- ===== src/ButtonEvents.antt =====
-- The buttons of the firmware: `ProcessButtons` of embedded/kl_lib/buttons.cpp with the settings of
-- buttons.h (short and long presses and long combinations, three buttons). The system's time is a
-- parameter; the events that are added to the queue are given in their order. There are as many states
-- as buttons.
pub mod Presses
use locket_api.Prelude.{
  ℕ, zero, suc, Bool, true, false, not, ◌&&◌, ◌||◌, List, [], ◌∷◌, ◌++◌, get_or, set, length, ltb,
  ◌==◌, if◌then◌else◌,
}

pub data PinSnsState : Type 0 where
  pss_none pss_lo pss_hi pss_rising pss_falling : PinSnsState

abbrev pub buttons_cnt : ℕ
buttons_cnt = 3

-- `BTN_HOLDDOWN_STATE`, `BTN_PRESSING_STATE` and `BTN_RELEASING_STATE`.
abbrev pub is_holddown : PinSnsState → Bool
is_holddown pss_hi = true
is_holddown _ = false

abbrev pub is_pressing : PinSnsState → Bool
is_pressing pss_rising = true
is_pressing _ = false

abbrev pub is_releasing : PinSnsState → Bool
is_releasing pss_falling = true
is_releasing _ = false

-- The type of an event and the numbers of its buttons.
pub data BtnEvt : Type 0 where
  short_press long_press : ℕ → BtnEvt
  long_combo : List ℕ → BtnEvt

-- The static variables.
pub record Buttons (Time : Type 0) : Type 0 where
  pub is_long_press : List Bool
  pub long_press_timer : Time
  pub is_combo : Bool
  pub long_combo_timer : Time
  pub is_long_combo : Bool

-- The buttons that are down, from the `j`-th on, of which `left` are left.
unfoldable pub down_from : ℕ → ℕ → List PinSnsState → List ℕ
down_from zero j states = []
down_from (suc left) j states =
    let rest = down_from left (suc j) states in
    let state = get_or states j pss_none in
    if is_holddown state || is_pressing state then j ∷ rest else rest

unfoldable pub any_held : List PinSnsState → Bool
any_held [] = false
any_held (state ∷ states) = is_holddown state || any_held states

-- Whether another button than the `i`-th is among the numbers.
unfoldable pub another : ℕ → List ℕ → Bool
another i [] = false
another i (j ∷ js) = not (j == i) || another i js

-- `late now timer` is `chVTTimeElapsedSinceX(timer) >= TIME_MS2I(BTN_LONGPRESS_DELAY_MS)`.
module _ {Time : Type 0} (late : Time → Time → Bool) (now : Time) (states : List PinSnsState) where
  unfoldable pub on_press : ℕ → Buttons Time → List BtnEvt × Buttons Time
  unfolding down_from another
  on_press i b =
      let down = down_from buttons_cnt 0 states in
      let pressed = record b {
        is_long_press = set b.is_long_press i false;
        is_combo = another i down || b.is_combo;
      } in
      if ltb 1 (length down)
      then ([], record pressed { long_combo_timer = now })
      else (short_press i ∷ [], record pressed { is_combo = false; long_press_timer = now })

  unfoldable pub on_release : Buttons Time → Buttons Time
  unfolding any_held
  on_release b =
      let held = any_held states in
      record b { is_combo = held; is_long_combo = held && b.is_long_combo }

  unfoldable pub on_long_press : ℕ → Buttons Time → List BtnEvt × Buttons Time
  on_long_press i b =
      if not (get_or b.is_long_press i false) && not b.is_combo && late now b.long_press_timer
      then (long_press i ∷ [], record b { is_long_press = set b.is_long_press i true })
      else ([], b)

  unfoldable pub on_long_combo : Buttons Time → List BtnEvt × Buttons Time
  unfolding down_from
  on_long_combo b =
      if b.is_combo && not b.is_long_combo && late now b.long_combo_timer
      then (long_combo (down_from buttons_cnt 0 states) ∷ [], record b { is_long_combo = true })
      else ([], b)

  unfoldable pub on_hold : ℕ → Buttons Time → List BtnEvt × Buttons Time
  unfolding on_long_press on_long_combo
  on_hold i b =
      let pressed = on_long_press i b in
      let combo = on_long_combo pressed.1 in (pressed.0 ++ combo.0, combo.1)

  -- The loop, from the `i`-th button on; the release of one of several buttons leaves the function.
  unfoldable pub buttons_from : ℕ → ℕ → Buttons Time → List BtnEvt × Buttons Time
  unfolding on_press on_release on_hold
  buttons_from zero i b = ([], b)
  buttons_from (suc left) i b =
      let state = get_or states i pss_none in
      elim (is_releasing state && b.is_combo) [
        | true ↦ ([], on_release b)
        | false ↦
            let done =
              (if is_pressing state
                then on_press i b
                else if is_holddown state
                then on_hold i b
                else ([], b)) in
            let rest = buttons_from left (suc i) done.1 in (done.0 ++ rest.0, rest.1)
      ]

  unfoldable pub process_buttons : Buttons Time → List BtnEvt × Buttons Time
  unfolding buttons_from
  process_buttons b = buttons_from (length states) 0 b
