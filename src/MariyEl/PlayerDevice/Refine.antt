-- ===== src/MariyEl/PlayerDevice/Refine.antt =====
-- What the player's device makes of its events: the signals that it sends to the health machine,
-- and that it never loses track of the player.
use locket_api.Prelude.{
  ℕ, ◌%◌, ◌≡◌, refl, Bool, true, false, ◌&&◌, Option, none, some, List, [], ◌∷◌, ◌++◌, ◌==◌,
  if◌then◌else◌, ◌>>=◌, Bool-cases, inl, inr,
}
use locket_api.Api.RxTable.{has_packet_with_id}
use locket_api.MariyEl.Show.{monster_id, rad_id}
use locket_api.MariyEl.Health.{Machine}
use locket_api.MariyEl.Health.Player.{
  Signal, minute, second, god_button, dead_button, radiation, monster, Player, react, sig,
}
use locket_api.MariyEl.Health.Player.Rules.{reacts}
use locket_api.MariyEl.Health.Life.{send, IsPlaying, PlaysOn, send-PlaysOn}
use locket_api.MariyEl.PlayerDevice.{
  packet_id, RadBehavior, bump, dispatch_to, tick, hear_monster, hear_radiation, every_second,
  on_button_pressed,
}

-- The handler survives; of the behavior `b` it changes the health machine alone, which plays `p`.
abbrev pub Gives : Option RadBehavior → RadBehavior → Player → Type 0
Gives none b p = ⊥
Gives (some b') b p = (b' ≡ record b { the_health = b'.the_health }) × IsPlaying b'.the_health p

-- Signals that are sent when a test succeeds.
abbrev pub when : Bool → Signal → List Signal
when true s = s ∷ []
when false s = []

abbrev pub second_signals : RadBehavior → List Signal
second_signals b =
    second
    ∷ (when (bump b.s_counter % 60 == 0) minute
        ++ (when
              (has_packet_with_id packet_id monster_id b.rx_table
                && (bump b.monster_s_counter % 5 == 0))
              monster
            ++ when
                (has_packet_with_id packet_id rad_id b.rx_table && (bump b.rad_s_counter % 5 == 0))
                radiation))

-- A counter that goes round at `n`, if something is to be counted.
abbrev pub counted : Bool → ℕ → ℕ → ℕ
counted true n c = if bump c % n == 0 then 0 else bump c
counted false n c = c

given :
    (o : Option Machine) (b : RadBehavior) (p : Player)
    → PlaysOn o p
    → Gives (do me ← o; some (record b { the_health = me })) b p
given none b p h = h
given (some me) b p h = (refl, h)

pub dispatch_to-Gives :
    (s : Signal) (b : RadBehavior) (p : Player)
    → IsPlaying b.the_health p
    → Gives (dispatch_to (sig s) b) b (react s p)
dispatch_to-Gives s b p h =
    given (send (sig s) b.the_health) b (react s p) (send-PlaysOn s b.the_health p h)

-- The machine before a handler plays no part in what the handler gives.
pub regive :
    (o : Option RadBehavior) (b : RadBehavior) (me : Machine) (p : Player)
    → Gives o (record b { the_health = me }) p
    → Gives o b p
regive none b me p h = h
regive (some b') b me p h = h

then-Gives :
    (o : Option RadBehavior) (f : RadBehavior → Option RadBehavior) (b c : RadBehavior)
    (p q : Player)
    → Gives o b p
    → ((me : Machine) → IsPlaying me p → Gives (f (record b { the_health = me })) c q)
    → Gives (o >>= f) c q
then-Gives none f b c p q h k = h
then-Gives (some b') f b c p q h k = rw h.0 (k b'.the_health h.1)

tick-Gives :
    (b : RadBehavior) (p : Player)
    → IsPlaying b.the_health p
    → Gives
        (tick b)
        (record b { s_counter = counted true 60 b.s_counter })
        (reacts (second ∷ when (bump b.s_counter % 60 == 0) minute) p)
unfolding tick
tick-Gives b p h =
    then-Gives (dispatch_to (sig second) (record b { s_counter = bump b.s_counter })) _
      (record b { s_counter = bump b.s_counter }) _ (react second p) _
      (dispatch_to-Gives second (record b { s_counter = bump b.s_counter }) p h)
      (λ me h'. elim (Bool-cases (bump b.s_counter % 60 == 0)) [
        | inl e ↦ rw e (
            regive (dispatch_to (sig minute) (record b { the_health = me; s_counter = 0 }))
              (record b { s_counter = 0 }) me _
              (dispatch_to-Gives minute (record b { the_health = me; s_counter = 0 })
                (react second p) h'))
        | inr e ↦ rw e (refl, h')
      ])

hear_monster-Gives :
    (b : RadBehavior) (p : Player)
    → IsPlaying b.the_health p
    → let heard = has_packet_with_id packet_id monster_id b.rx_table in
      Gives
        (hear_monster b)
        (record b { monster_s_counter = counted heard 5 b.monster_s_counter })
        (reacts (when (heard && (bump b.monster_s_counter % 5 == 0)) monster) p)
unfolding hear_monster
hear_monster-Gives b p h = elim (Bool-cases (has_packet_with_id packet_id monster_id b.rx_table)) [
  | inl y ↦ elim (Bool-cases (bump b.monster_s_counter % 5 == 0)) [
    | inl e ↦ rw (y, e) (dispatch_to-Gives monster (record b { monster_s_counter = 0 }) p h)
    | inr e ↦ rw (y, e) (refl, h)
  ]
  | inr n ↦ rw n (refl, h)
]

hear_radiation-Gives :
    (b : RadBehavior) (p : Player)
    → IsPlaying b.the_health p
    → let heard = has_packet_with_id packet_id rad_id b.rx_table in
      Gives
        (hear_radiation b)
        (record b { rad_s_counter = counted heard 5 b.rad_s_counter })
        (reacts (when (heard && (bump b.rad_s_counter % 5 == 0)) radiation) p)
unfolding hear_radiation
hear_radiation-Gives b p h = elim (Bool-cases (has_packet_with_id packet_id rad_id b.rx_table)) [
  | inl y ↦ elim (Bool-cases (bump b.rad_s_counter % 5 == 0)) [
    | inl e ↦ rw (y, e) (dispatch_to-Gives radiation (record b { rad_s_counter = 0 }) p h)
    | inr e ↦ rw (y, e) (refl, h)
  ]
  | inr n ↦ rw n (refl, h)
]

pub reacts-append :
    (ss ts : List Signal) (p : Player) → reacts (ss ++ ts) p ≡ reacts ts (reacts ss p)
reacts-append [] ts p = refl
reacts-append (s ∷ ss) ts p = reacts-append ss ts (react s p)

-- A second of a device that plays `p`: the second itself, with every sixtieth the minute, and with
-- every fifth second of monsters or of radiation that one's signal; the counters go round, and the
-- table of packets is emptied.
pub every_second-Gives :
    (b : RadBehavior) (p : Player)
    → IsPlaying b.the_health p
    → Gives
        (every_second b)
        (record b {
          rx_table = [];
          s_counter = counted true 60 b.s_counter;
          monster_s_counter =
              counted (has_packet_with_id packet_id monster_id b.rx_table) 5 b.monster_s_counter;
          rad_s_counter =
              counted (has_packet_with_id packet_id rad_id b.rx_table) 5 b.rad_s_counter;
        })
        (reacts (second_signals b) p)
unfolding every_second
every_second-Gives b p h =
    let ticked = record b { s_counter = counted true 60 b.s_counter } in
    let heard = record ticked {
      monster_s_counter =
          counted (has_packet_with_id packet_id monster_id b.rx_table) 5 b.monster_s_counter;
    } in
    let done = record heard {
      rad_s_counter = counted (has_packet_with_id packet_id rad_id b.rx_table) 5 b.rad_s_counter;
    } in
    rw (reacts-append, reacts-append)
      (then-Gives (tick b) _ ticked _ _ _ (tick-Gives b p h) (λ me1 h1.
        then-Gives (hear_monster (record ticked { the_health = me1 })) _ heard _ _ _
          (regive (hear_monster (record ticked { the_health = me1 })) heard me1 _
            (hear_monster-Gives (record ticked { the_health = me1 }) _ h1))
          (λ me2 h2.
            then-Gives (hear_radiation (record heard { the_health = me2 })) _ done _ _ _
              (regive (hear_radiation (record heard { the_health = me2 })) done me2 _
                (hear_radiation-Gives (record heard { the_health = me2 }) _ h2))
              (λ me3 h3. (refl, h3)))))

-- A long press is the death button for button 1, and the god button for any other; a short press
-- is nothing.
pub on_button_pressed-Gives :
    (button_index : ℕ) (long_press : Bool) (b : RadBehavior) (p : Player)
    → IsPlaying b.the_health p
    → Gives
        (on_button_pressed button_index long_press b)
        b
        (reacts (when long_press (if button_index == 1 then dead_button else god_button)) p)
unfolding on_button_pressed
on_button_pressed-Gives i false b p h = (refl, h)
on_button_pressed-Gives i true b p h = elim (Bool-cases (i == 1)) [
  | inl e ↦ rw e (dispatch_to-Gives dead_button b p h)
  | inr e ↦ rw e (dispatch_to-Gives god_button b p h)
]
