-- ===== src/TorRadiation/PlayerDevice/Radiation.antt =====
-- A second of the device of projects/Tor_radiation: how often the player is hit.
use native.Mathlib.Omega.{arith}
use locket_api.Prelude.{
  ℕ, zero, suc, ◌+◌, ◌%◌, ◌^◌, ◌<◌, ◌≡◌, ◌≢◌, refl, ap, subst, ◌∙◌, true, Option, none, some, List,
  [], ◌∷◌, get_elem?, set, length, ltb, ◌==◌, ◌>>=◌, Bool-cases, inl, inr,
}
use locket_api.Api.RxTable.Laws.{Lacks, HasDistinctIds, IsTable}
use locket_api.Buffers.Ring.{get_elem?-set_other}
use locket_api.Qhsm.Lives.{PlaysOn, then-PlaysOn}
use locket_api.MariyEl.PlayerDevice.{IdOnlyState, packet_id, table_size}
use locket_api.TorRadiation.Health.{health_state_eq, Machine}
use locket_api.TorRadiation.Health.Player.{Signal, minute, second, radiation, Player, react, sig}
use locket_api.TorRadiation.Health.Life.{IsPlaying, send, send-PlaysOn}
use locket_api.TorRadiation.PlayerDevice.{
  RadBehavior, none_near, lustra_near, dispatch_to, tick, radiate, every_second,
}

-- How many counters are positive.
abbrev pub positives : List ℕ → ℕ
positives [] = 0
positives (zero ∷ ns) = positives ns
positives (suc n ∷ ns) = suc (positives ns)

-- All ids of the table are indices of a list where it holds 0.
abbrev Unseen : List ℕ → List IdOnlyState → Type 0
Unseen near [] = Unit
Unseen near (p ∷ table) = (get_elem? near p.id ≡ some 0) × Unseen near table

positives-set :
    (near : List ℕ) (i : ℕ)
    → get_elem? near i ≡ some 0
    → positives (set near i 1) ≡ suc (positives near)
positives-set [] i h = ground arith
positives-set (zero ∷ ns) zero h = refl
positives-set (suc n ∷ ns) zero h = ground arith
positives-set (zero ∷ ns) (suc i) h = positives-set ns i h
positives-set (suc n ∷ ns) (suc i) h = ap suc (positives-set ns i h)

Unseen-set :
    (near : List ℕ) (i : ℕ) (table : List IdOnlyState)
    → Lacks packet_id i table
    → Unseen near table
    → Unseen (set near i 1) table
Unseen-set near i [] l u = tt
Unseen-set near i (p ∷ table) (l, ls) (u, us) =
    let apart : i ≢ p.id = λ e. ground arith in
    (get_elem?-set_other near i p.id 1 apart ∙ u, Unseen-set near i table ls us)

-- Each packet of the table makes one more counter positive.
lustra_near-positives :
    (table : List IdOnlyState) (near : List ℕ)
    → HasDistinctIds packet_id table
    → Unseen near table
    → (near' : List ℕ) × (lustra_near table near ≡ some near')
      × (positives near' ≡ positives near + length table)
unfolding lustra_near
lustra_near-positives [] near d u = (near, refl, omega arith)
lustra_near-positives (p ∷ table) near (l, d) (u, us) =
    let (near', e, c) =
      lustra_near-positives table (set near p.id 1) d (Unseen-set near p.id table l us) in
    (near', rw (u, lustra_near) e, omega (arith, positives-set near p.id u))

-- Every id is below 16, the length of `LustraNear`.
abbrev pub AreNear : List IdOnlyState → Type 0
AreNear [] = Unit
AreNear (p ∷ table) = (p.id < 16) × AreNear table

none_near-zero : (i : ℕ) → i < 16 → get_elem? none_near i ≡ some 0
none_near-zero i h = ground arith

none_near-Unseen : (table : List IdOnlyState) → AreNear table → Unseen none_near table
none_near-Unseen [] h = tt
none_near-Unseen (p ∷ table) (h, hs) = (none_near-zero p.id h, none_near-Unseen table hs)

-- The device plays the player, and has the table.
abbrev pub Device : List IdOnlyState → RadBehavior → Player → Type 0
Device table b p = IsPlaying b.the_health p × (b.rx_table ≡ table)

module _ (rand : ℕ → ℕ) where
  -- The player after some hits.
  abbrev pub hits : ℕ → Player → Player
  hits zero p = p
  hits (suc n) p = hits n (react rand radiation p)

  with_machine :
      (o : Option Machine) (b : RadBehavior) (p : Player)
      → PlaysOn IsPlaying o p
      → PlaysOn (Device b.rx_table) (do me ← o; some (record b { the_health = me })) p
  with_machine none b p h = h
  with_machine (some me) b p h = (h, refl)

  dispatch-Device :
      (s : Signal) (table : List IdOnlyState) (b : RadBehavior) (p : Player)
      → Device table b p
      → PlaysOn (Device table) (dispatch_to rand (sig s) b) (react rand s p)
  dispatch-Device s table b p (h, e) =
      subst (λ t. PlaysOn (Device t) (dispatch_to rand (sig s) b) (react rand s p)) e
        (with_machine (send rand (sig s) b.the_health) b (react rand s p)
          (send-PlaysOn rand s b.the_health p h))

  idle-second : (p : Player) → react rand second p ≡ p
  idle-second p = ground arith

  idle-minute : (p : Player) → react rand minute p ≡ p
  idle-minute p = ground arith

  tick-Device :
      (table : List IdOnlyState) (b : RadBehavior) (p : Player)
      → Device table b p
      → PlaysOn (Device table) (tick rand b) p
  unfolding tick
  tick-Device table b p h =
      then-PlaysOn (Device table) (Device table) _ _ p p
        (subst
          (λ q.
            PlaysOn (Device table)
              (dispatch_to rand (sig second) (record b { s_counter = (b.s_counter + 1) % 2 ^ 32 }))
              q)
          (idle-second p)
          (dispatch-Device second table (record b { s_counter = (b.s_counter + 1) % 2 ^ 32 }) p h))
        (λ b1 h1. elim (Bool-cases ((b.s_counter + 1) % 2 ^ 32 % 60 == 0)) [
          | inl m ↦ rw m (
              subst
                (λ q.
                  PlaysOn (Device table)
                    (dispatch_to rand (sig minute) (record b1 { s_counter = 0 })) q)
                (idle-minute p) (dispatch-Device minute table (record b1 { s_counter = 0 }) p h1))
          | inr m ↦ rw m h1
        ])

  radiate-Device :
      (near : List ℕ) (table : List IdOnlyState) (b : RadBehavior) (p : Player)
      → Device table b p
      → PlaysOn (Device table) (radiate rand near b) (hits (positives near) p)
  unfolding radiate
  radiate-Device [] table b p h = h
  radiate-Device (zero ∷ near) table b p h = radiate-Device near table b p h
  radiate-Device (suc n ∷ near) table b p h =
      let more : ltb 0 (suc n) ≡ true = ground arith in
      rw (more, radiate)
        (then-PlaysOn (Device table) (Device table) _ _ (react rand radiation p)
          (hits (suc (positives near)) p) (dispatch-Device radiation table b p h)
          (λ b1 h1. radiate-Device near table b1 (react rand radiation p) h1))

  -- In a second, the player is hit once by each lustra that the table has a packet of, and the table
  -- is emptied; ids are below sixteen, or the run would leave the array of counters.
  pub every_second-hits :
      (b : RadBehavior) (p : Player)
      → IsPlaying b.the_health p
      → IsTable packet_id table_size b.rx_table
      → AreNear b.rx_table
      → PlaysOn (Device []) (every_second rand b) (hits (length b.rx_table) p)
  unfolding every_second
  every_second-hits b p h t n =
      let (near, e, c) =
        lustra_near-positives b.rx_table none_near t.distinct (none_near-Unseen b.rx_table n) in
      let goes : positives near ≡ length b.rx_table = omega (arith, c) in
      then-PlaysOn (Device b.rx_table) (Device []) (tick rand b) _ p (hits (length b.rx_table) p)
        (tick-Device b.rx_table b p (h, refl))
        (λ b1 (h1, t1).
          let found : lustra_near b1.rx_table none_near ≡ some near =
            ap (λ l. lustra_near l none_near) t1 ∙ e in
          rw found (
            then-PlaysOn (Device b.rx_table) (Device []) (radiate rand near b1) _
              (hits (length b.rx_table) p) (hits (length b.rx_table) p)
              (subst (λ k. PlaysOn (Device b.rx_table) (radiate rand near b1) (hits k p)) goes
                (radiate-Device near b.rx_table b1 p (h1, t1)))
              (λ b2 (h2, t2). (h2, refl))))
