-- ===== src/MariyEl/PlayerDevice/Events.antt =====
-- The player's device over all its events, in any order.
use native.Mathlib.Omega.{arith}
use locket_api.Prelude.{
  ℕ, ◌≡◌, refl, sym, subst, ap, ◌∙◌, Bool, true, Option, none, some, List, [], ◌∷◌, ◌++◌, ◌==◌,
  if◌then◌else◌, ◌>>=◌, Bool-cases, inl, inr,
}
use locket_api.Api.Eeprom.{Eeprom}
use locket_api.Api.RxTable.Laws.{IsTable, add_packet-IsTable}
use locket_api.Api.Sequences.{brr, start_sequence, brr_brr_brr}
use locket_api.Api.Device.{Command, vibro_start, set_power, led_start}
use locket_api.Api.Utility.{RadioPowerLevel, id_to_radio_enum}
use locket_api.MariyEl.Health.{Machine}
use locket_api.MariyEl.Health.Player.{
  Signal, heal, reset, become_god, god_button, dead_button, Player, IsPlayer, react, beacon, sig,
}
use locket_api.MariyEl.Health.Player.Rules.{reacts}
use locket_api.MariyEl.Health.Boot.{boot, boot-Starts, Stores, revive, revive-IsPlayer}
use locket_api.MariyEl.Health.Life.{IsPlaying, PlaysOn, started}
use locket_api.MariyEl.PlayerDevice.{
  IdOnlyState, packet_id, dispatch_to, table_size, RadBehavior, command, fresh, on_started,
  every_second, on_button_pressed, on_pill_connected, on_pill_disconnected, on_dip_switch_changed,
  range_of, on_radio_packet_received,
}
use locket_api.MariyEl.PlayerDevice.Refine.{
  Gives, when, second_signals, dispatch_to-Gives, regive, reacts-append, every_second-Gives,
  on_button_pressed-Gives,
}

pub data Event : Type 0 where
  second_passed : Event
  button : ℕ → Bool → Event
  pill_in : ℕ → Event
  pill_out : Event
  dip_switch : ℕ → Event
  packet : IdOnlyState → Event

unfoldable pub handle : Event → RadBehavior → Option RadBehavior
handle second_passed b = every_second b
handle (button i long) b = on_button_pressed i long b
handle (pill_in id) b = on_pill_connected id b
handle pill_out b = on_pill_disconnected b
handle (dip_switch mask) b = on_dip_switch_changed mask b
handle (packet p) b = on_radio_packet_received p b

pub handle_all : List Event → RadBehavior → Option RadBehavior
handle_all [] b = some b
handle_all (e ∷ es) b = do b' ← handle e b; handle_all es b'

abbrev pub pill_signals : ℕ → List Signal
pill_signals id =
    if id == 0
    then reset ∷ []
    else if id == 1
    then heal ∷ []
    else if id == 2
    then become_god ∷ []
    else []

-- The signals of an event, and the player behind it.
abbrev pub signals : Event → RadBehavior → List Signal
signals second_passed b = second_signals b
signals (button i long) b = when long (if i == 1 then dead_button else god_button)
signals (pill_in id) b = pill_signals id
signals _ b = []

command-IsPlaying :
    (c : Command) (b : RadBehavior) (p : Player)
    → ((out : List Command) → beacon (c ∷ out) ≡ beacon out)
    → IsPlaying b.the_health p
    → IsPlaying (command c b).the_health p
command-IsPlaying c b p q h = record {
  rests = λ i. record (h.rests i) { members = (command c b).the_health.members };
  agrees = record {
    god_pause = h.agrees.god_pause;
    count = h.agrees.count;
    health = h.agrees.health;
    stored_god_pause = h.agrees.stored_god_pause;
    stored_count = h.agrees.stored_count;
    stored_health = h.agrees.stored_health;
    stored_mode = h.agrees.stored_mode;
    path = q b.the_health.members.out ∙ h.agrees.path;
  };
  valid = h.valid;
}

-- The device keeps its bounds and plays a player.
pub record IsDevice (b : RadBehavior) (p : Player) : Type 0 where
  pub plays : IsPlaying b.the_health p
  pub table : IsTable packet_id table_size b.rx_table

abbrev pub Follows : Option RadBehavior → Player → Type 0
Follows none p = ⊥
Follows (some b) p = IsDevice b p

follow :
    (o : Option RadBehavior) (b : RadBehavior) (p : Player)
    → IsTable packet_id table_size b.rx_table
    → Gives o b p
    → Follows o p
follow none b p t h = h
follow (some b') b p t h = record {
  plays = h.1;
  table = subst (λ c. IsTable packet_id table_size c.rx_table) (sym h.0) t;
}

pub on_pill_connected-Gives :
    (id : ℕ) (b : RadBehavior) (p : Player)
    → IsPlaying b.the_health p
    → Gives
        (on_pill_connected id b)
        (record b { pill_connected = true })
        (reacts (pill_signals id) p)
unfolding on_pill_connected
on_pill_connected-Gives id b p h =
    let put = record b { pill_connected = true } in
    let b1 = command (vibro_start brr) put in
    let h1 = command-IsPlaying (vibro_start brr) put p (λ out. refl) h in
    let sent = λ (s : Signal).
      regive (dispatch_to (sig s) b1) put b1.the_health (react s p) (dispatch_to-Gives s b1 p h1) in
    elim (Bool-cases (id == 0)) [
      | inl e ↦ rw e (sent reset)
      | inr e ↦ elim (Bool-cases (id == 1)) [
        | inl f ↦ rw (e, f) (sent heal)
        | inr f ↦ elim (Bool-cases (id == 2)) [
          | inl g ↦ rw (e, f, g) (sent become_god)
          | inr g ↦ rw (e, f, g) (refl, h1)
        ]
      ]
    ]

-- Every event of a device that plays `p` gives a device that plays the player behind the event's
-- signals.
pub handle-Follows :
    (e : Event) (b : RadBehavior) (p : Player)
    → IsDevice b p
    → Follows (handle e b) (reacts (signals e b) p)
unfolding handle on_pill_disconnected on_dip_switch_changed on_radio_packet_received
handle-Follows second_passed b p d =
    follow (every_second b) _ _ (record { distinct = tt; fits = omega arith })
      (every_second-Gives b p d.plays)
handle-Follows (button i long) b p d =
    follow (on_button_pressed i long b) b _ d.table (on_button_pressed-Gives i long b p d.plays)
handle-Follows (pill_in id) b p d =
    follow (on_pill_connected id b) (record b { pill_connected = true }) _ d.table
      (on_pill_connected-Gives id b p d.plays)
handle-Follows pill_out b p d = record { plays = d.plays; table = d.table }
handle-Follows (dip_switch mask) b p d =
    let level = id_to_radio_enum (range_of mask) in
    let chosen = record b { range_level = level } in
    record {
      plays = command-IsPlaying (set_power level) chosen p (λ out. refl) d.plays;
      table = d.table;
    }
handle-Follows (packet q) b p d = record {
  plays = d.plays;
  table = add_packet-IsTable packet_id table_size q b.rx_table d.table;
}

-- The signals that a list of events comes to.
pub all_signals : List Event → RadBehavior → List Signal
all_signals [] b = []
all_signals (e ∷ es) b = elim (handle e b) [
  | none ↦ []
  | some b' ↦ signals e b ++ all_signals es b'
]

follow_all :
    (o : Option RadBehavior) (ss : List Signal) (es : List Event) (p : Player)
    → Follows o (reacts ss p)
    → ((b : RadBehavior)
        → IsDevice b (reacts ss p)
        → Follows (handle_all es b) (reacts (all_signals es b) (reacts ss p)))
    → Follows
        (o >>= handle_all es)
        (reacts (elim o [ none ↦ [] | some b ↦ ss ++ all_signals es b ]) p)
follow_all none ss es p h k = h
follow_all (some b) ss es p h k = rw reacts-append (k b h)

-- The device survives every list of events, keeps its table within bounds, and follows the rules of
-- the game for the signals that the events come to.
pub handle_all-Follows :
    (es : List Event) (b : RadBehavior) (p : Player)
    → IsDevice b p
    → Follows (handle_all es b) (reacts (all_signals es b) p)
unfolding handle_all all_signals
handle_all-Follows [] b p d = d
handle_all-Follows (e ∷ es) b p d =
    follow_all (handle e b) (signals e b) es p (handle-Follows e b p d)
      (λ b'. handle_all-Follows es b' (reacts (signals e b) p))

-- The device has a power level.
abbrev pub Ranged : RadioPowerLevel → Option RadBehavior → Type 0
Ranged level none = ⊥
Ranged level (some b) = b.range_level ≡ level

-- The power level behind an event.
abbrev pub level_after : Event → RadioPowerLevel → RadioPowerLevel
level_after (dip_switch mask) level = id_to_radio_enum (range_of mask)
level_after _ level = level

ranged :
    (o : Option RadBehavior) (b : RadBehavior) (p : Player) → Gives o b p → Ranged b.range_level o
ranged none b p h = h
ranged (some b') b p h = ap (λ c. c.range_level) h.0

pub handle-Ranged :
    (e : Event) (b : RadBehavior) (p : Player)
    → IsDevice b p
    → Ranged (level_after e b.range_level) (handle e b)
unfolding handle on_pill_disconnected on_dip_switch_changed on_radio_packet_received
handle-Ranged second_passed b p d = ranged (every_second b) _ _ (every_second-Gives b p d.plays)
handle-Ranged (button i long) b p d =
    ranged (on_button_pressed i long b) b _ (on_button_pressed-Gives i long b p d.plays)
handle-Ranged (pill_in id) b p d =
    ranged (on_pill_connected id b) (record b { pill_connected = true }) _
      (on_pill_connected-Gives id b p d.plays)
handle-Ranged pill_out b p d = refl
handle-Ranged (dip_switch mask) b p d = refl
handle-Ranged (packet q) b p d = refl

switched_on :
    (level : RadioPowerLevel) (o : Option Machine) (p : Player)
    → PlaysOn o p
    → Follows (do me ← o; some (fresh level me)) p
switched_on level none p h = h
switched_on level (some me) p h = record {
  plays = h;
  table = record { distinct = tt; fits = omega arith };
}

-- A device that is switched on follows the player that its memory stores, as it is revived, whatever
-- its power level and whatever commands but those of a beacon it has given.
pub on_started-Follows :
    (level : RadioPowerLevel) (out : List Command) (eeprom : Eeprom) (p : Player)
    → beacon out ≡ none
    → Stores eeprom p
    → IsPlayer p
    → Follows (on_started level out eeprom) (revive p)
unfolding on_started
on_started-Follows level out eeprom p silent s v =
    let given = vibro_start brr_brr_brr ∷ led_start start_sequence ∷ out in
    switched_on level (boot eeprom given) (revive p) (
      started (boot eeprom given) (revive p) (revive-IsPlayer p v)
        (boot-Starts eeprom given p silent s))

level_of_start :
    (level : RadioPowerLevel) (o : Option Machine) (p : Player)
    → PlaysOn o p
    → Ranged level (do me ← o; some (fresh level me))
level_of_start level none p h = h
level_of_start level (some me) p h = refl

pub on_started-Ranged :
    (level : RadioPowerLevel) (out : List Command) (eeprom : Eeprom) (p : Player)
    → beacon out ≡ none
    → Stores eeprom p
    → IsPlayer p
    → Ranged level (on_started level out eeprom)
unfolding on_started
on_started-Ranged level out eeprom p silent s v =
    let given = vibro_start brr_brr_brr ∷ led_start start_sequence ∷ out in
    level_of_start level (boot eeprom given) (revive p) (
      started (boot eeprom given) (revive p) (revive-IsPlayer p v)
        (boot-Starts eeprom given p silent s))
