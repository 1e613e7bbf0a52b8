-- ===== src/Qhsm/Transition.antt =====
-- `do_transition`, `QMsm_init` and `QMsm_dispatch` as a whole, against the statechart's meaning of a
-- transition: leave up to the nearest common ancestor, then enter down to the target.
use mathlib.Core.Bool.{true≢false}
use mathlib.Core.List.{append-nil}
use locket_api.Prelude.{
  ◌>>=◌, ℕ, suc, zero, ◌+◌, ◌≤◌, ◌<◌, ◌≡◌, refl, sym, ◌∙◌, ap, true, false, some, none, List, [],
  ◌∷◌, ◌++◌, map, Eq, length, get_or, take, length-append, arith,
}
use locket_api.Qhsm.{
  Handler, qhsm_top, state, QHsm, Handlers, same, climb, collect, enter, cross, do_transition,
  settle, q_exit_sig, q_max_depth, q_tran, init, qep_empty_sig, ctor,
}
use locket_api.Qhsm.Chart.{
  Chart, Follows, innermost, upward, above, upward-above, Avoids, Avoids-top, AvoidsAll, Apart,
  IsChain, exits, enters, same_self,
}
use locket_api.Qhsm.Path.{
  upward-append, climb_lem, collect-none, collect-some, collect-top, meet-found, meet_lem,
  enter-target, enter-members,
}

add-one-left : (n : ℕ) → 1 + n ≡ suc n
add-one-left n = omega arith

-- The machine at rest in a state.
abbrev pub at {ℓ κ} : {K : Type ℓ} {D : Type κ} → Handler K → D → QHsm K D
at t d = record { current = t; effective = t; target = none; members = d }

-- The machine in state `c` when the handler of `s` has asked for a transition to `t`.
abbrev pub asked {ℓ κ} :
    {K : Type ℓ} {D : Type κ} → Handler K → Handler K → Handler K → D → QHsm K D
asked c s t d = record { current = c; effective = s; target = some t; members = d }

-- `zs` is what the chains of the transition's source, `xs ++ zs`, and of its target, `ys ++ zs`, have
-- in common; `below ++ xs ++ zs` is the chain of the current state.
pub record Meets {ℓ κ} {K : Type ℓ} {D : Type κ} ⦃e : Eq K⦄ (chart : Chart K D)
    (below xs ys zs : List K) : Type ℓ where
  pub current_chain : IsChain chart (below ++ (xs ++ zs))
  pub source_chain : IsChain chart (xs ++ zs)
  pub target_chain : IsChain chart (ys ++ zs)
  pub below_apart : Avoids (innermost (xs ++ zs)) below
  pub source_apart : Apart xs (ys ++ zs)
  pub target_apart : Avoids (innermost zs) ys

module _ {ℓ κ} {K : Type ℓ} {D : Type κ} ⦃e : Eq K⦄ {handlers : Handlers K D} {chart : Chart K D}
    (f : Follows handlers chart) where
  head-map :
      (ys zs : List K) (rest : List (Handler K))
      → get_or (map state ys ++ (innermost zs ∷ rest)) 0 qhsm_top ≡ innermost (ys ++ zs)
  head-map [] zs rest = refl
  head-map (y ∷ ys) zs rest = refl

  take-all : (ys : List K) → take (length ys) ys ≡ ys
  take-all [] = refl
  take-all (y ∷ ys) = ap (λ l. y ∷ l) (take-all ys)

  -- The way down from the common ancestor.
  finish :
      (ys zs : List K) (rest : List (Handler K)) (me : QHsm K D) (d : D)
      → IsChain chart (ys ++ zs)
      → me.members ≡ d
      → let path = map state ys ++ (innermost zs ∷ rest) in
        let (last, entered) =
          enter handlers (length ys) path (get_or path (length ys) qhsm_top) me in
        settle last entered ≡ at (innermost (ys ++ zs)) (enters chart ys d)
  finish ys zs rest me d c p =
      let path = map state ys ++ (innermost zs ∷ rest) in
      let goes = enter-target f (length ys) path me ∙ head-map ys zs rest in
      let does =
        enter-members f ys zs (length ys) (innermost zs ∷ rest) (get_or path (length ys) qhsm_top)
          me c (omega arith)
        ∙ ap (λ l. enters chart l me.members) (take-all ys)
        ∙ ap (enters chart ys) p in
      λ i. at (goes i) (does i)

  above_avoid :
      (x : K) (t : K) (ts : List K) → Avoids (state x) ts → AvoidsAll (state x) (above (t ∷ ts))
  above_avoid x t [] a = (refl, tt)
  above_avoid x t (u ∷ ts) a = (a.0, above_avoid x u ts a.1)

  -- The whole path of a target, for a source that is not on it.
  collect-upward :
      (x : K) (ts : List K) (me : QHsm K D)
      → IsChain chart ts
      → Avoids (state x) ts
      → length ts ≤ 7
      → (me' : QHsm K D) × (collect handlers 7 (state x) (innermost ts) (innermost ts ∷ []) me
          ≡ some (upward ts, none, me'))
        × (me'.members ≡ me.members)
  collect-upward x [] me c a h = (me, collect-top handlers 7 (state x) (qhsm_top ∷ []) me, refl)
  collect-upward x (t ∷ ts) me c a h =
      let r = collect-none f 7 (state x) t ts (state t ∷ []) me c (above_avoid x t ts a.1) h in
      (r.0, r.1 ∙ ap (λ l. some (l, none, r.0)) (sym (upward-above (t ∷ ts))), r.2)

  -- The climb of an initial pseudo-state, whose handler changes no more than its target.
  climb_initial :
      (fuel : ℕ)
      → 1 < fuel
      → (i y : K) (d : D)
      → ((sig' : ℕ) (me : QHsm K D) → me.members ≡ d → handlers i sig' me ≡ q_tran (state y) me)
      → let m = asked (state i) qhsm_top (state y) d in
        climb handlers fuel (state i) qhsm_top m ≡ some m
  unfolding climb
  climb_initial zero k i y d asks = absurd (omega arith)
  climb_initial (suc zero) k i y d asks = absurd (omega arith)
  climb_initial (suc (suc fuel)) k i y d asks =
      let m = asked (state i) qhsm_top (state y) d in
      let left =
        ap (λ r. (handlers i qep_empty_sig r.1).1) (asks q_exit_sig m refl)
        ∙ ap (λ r. r.1) (asks qep_empty_sig m refl) in
      ap (λ m'. climb handlers (suc fuel) m'.effective qhsm_top m') left

  -- A transition between two handlers that are not the same leaves `xs` and enters `ys`.
  pub cross_lem :
      (fuel : ℕ) (below xs ys zs : List K) (me : QHsm K D)
      → Meets chart below xs ys zs
      → same (innermost (xs ++ zs)) (innermost (ys ++ zs)) ≡ false
      → length (ys ++ zs) ≤ 7
      → length xs ≤ fuel
      → cross handlers fuel (innermost (xs ++ zs)) (innermost (ys ++ zs)) me
        ≡ some (at (innermost (ys ++ zs)) (enters chart ys (exits chart xs me.members)))
  unfolding cross
  cross_lem fuel below [] [] zs me m n h k =
      absurd (true≢false (sym (same_self (innermost zs)) ∙ n))
  cross_lem fuel below [] (y ∷ ys) zs me m n h k =
      let path = map state (y ∷ ys) ++ (innermost zs ∷ []) in
      let r =
        collect-some f 7 y ys zs (state y ∷ []) me m.target_chain m.target_apart.1
          (omega (arith, length-append ys zs)) in
      let collected = r.1 ∙ ap (λ j. some (path, some j, r.0)) (add-one-left (length ys)) in
      rw (n, cross)
        (rw collected (
          rw (meet-found handlers fuel (length (y ∷ ys)) (innermost zs) path r.0)
            (ap some (finish (y ∷ ys) zs [] r.0 me.members m.target_chain r.2))))
  cross_lem fuel below (x ∷ xs) ys zs me m n h k =
      let r = collect-upward x (ys ++ zs) me m.target_chain m.source_apart.0 h in
      let s = meet_lem f fuel x xs ys zs r.0 m.source_chain m.source_apart.1 m.target_apart k in
      rw (n, cross)
        (rw r.1 (
          rw s.1 (
            rw (upward-append ys zs) (
              ap some (
                finish ys zs (above zs) s.0 _ m.target_chain
                  (s.2 ∙ ap (exits chart (x ∷ xs)) r.2))))))

  -- A transition to another state that an ancestor-or-self of the current state has asked for: the
  -- states below that one are left, then those below the nearest common ancestor, and the chain
  -- down to the target is entered; the machine is at rest in the target. The target is less than
  -- eight states deep, and the fuel exceeds the depth that is left.
  pub do_transition_lem :
      (fuel : ℕ) (below xs ys zs : List K) (d : D)
      → Meets chart below xs ys zs
      → same (innermost (xs ++ zs)) (innermost (ys ++ zs)) ≡ false
      → length (ys ++ zs) < q_max_depth
      → length below + length xs < fuel
      → do_transition handlers fuel
          (asked (innermost (below ++ (xs ++ zs))) (innermost (xs ++ zs)) (innermost (ys ++ zs)) d)
        ≡ some (at (innermost (ys ++ zs)) (enters chart ys (exits chart xs (exits chart below d))))
  unfolding do_transition
  do_transition_lem fuel below xs ys zs d m n h k =
      let me =
        asked (innermost (below ++ (xs ++ zs))) (innermost (xs ++ zs)) (innermost (ys ++ zs)) d in
      let r = climb_lem f fuel below (xs ++ zs) me m.current_chain m.below_apart (omega arith) in
      let t = innermost (ys ++ zs) in
      rw r.1 (
        cross_lem fuel below xs ys zs r.0 m n (omega arith) (omega arith)
        ∙ ap (λ x. some (at t (enters chart ys (exits chart xs x)))) r.2)

  end_regular :
      (below : List K) (x : K) (xs : List K)
      → IsChain chart (below ++ (x ∷ xs))
      → chart.regular x ≡ true
  end_regular [] x xs c = c.0
  end_regular (b ∷ below) x xs c = end_regular below x xs c.2

  -- A transition of a state to itself: the states below it are left, then it is left and entered.
  pub do_transition_self :
      (fuel : ℕ) (below : List K) (x : K) (xs : List K) (d : D)
      → IsChain chart (below ++ (x ∷ xs))
      → Avoids (state x) below
      → length below < fuel
      → do_transition handlers fuel (asked (innermost (below ++ (x ∷ xs))) (state x) (state x) d)
        ≡ some (at (state x) (chart.on_entry x (chart.on_exit x (exits chart below d))))
  unfolding do_transition cross
  do_transition_self fuel below x xs d m a k =
      let me = asked (innermost (below ++ (x ∷ xs))) (state x) (state x) d in
      let r = climb_lem f fuel below (x ∷ xs) me m a k in
      let left = (handlers x q_exit_sig r.0).1 in
      let ok = end_regular below x xs m in
      let does =
        f.entry_members x left ok
        ∙ ap (chart.on_entry x) (f.exit_members x r.0 ok ∙ ap (chart.on_exit x) r.2) in
      rw r.1 (rw (same_self (state x), cross) (ap (λ y. some (at (state x) y)) does))

  -- `QMsm_init` behind an initial pseudo-state, which asks for its transition whatever it is sent:
  -- the chain down to the target is entered, and nothing else is done.
  pub init_lem :
      (fuel sig : ℕ) (i y : K) (ys : List K) (d : D)
      → ((sig' : ℕ) (me : QHsm K D) → me.members ≡ d → handlers i sig' me ≡ q_tran (state y) me)
      → IsChain chart (y ∷ ys)
      → length (y ∷ ys) < q_max_depth
      → 1 < fuel
      → init handlers fuel sig (ctor (state i) d) ≡ some (at (state y) (enters chart (y ∷ ys) d))
  unfolding init ctor do_transition
  init_lem fuel sig i y ys d asks c h k =
      let m1 = asked (state i) qhsm_top (state y) d in
      let meets : Meets chart [] [] (y ∷ ys) [] = record {
        current_chain = tt;
        source_chain = tt;
        target_chain = rw append-nil c;
        below_apart = tt;
        source_apart = tt;
        target_apart = (refl, Avoids-top ys);
      } in
      ap (λ r. do_transition handlers fuel (record (r.1) { effective = qhsm_top }))
        (asks sig (at (state i) d) refl)
      ∙ ap (λ o. o >>= cross handlers fuel qhsm_top (state y)) (climb_initial fuel k i y d asks)
      ∙ cross_lem fuel [] [] (y ∷ ys) [] m1 meets refl (rw append-nil (omega arith)) (omega arith)
