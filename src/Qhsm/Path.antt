-- ===== src/Qhsm/Path.antt =====
-- The loops of `do_transition`, one by one, over a chart that the handlers follow.
use native.Mathlib.Nat.{zero-add, add-zero, add-suc, suc-add}
use mathlib.Core.List.{append_assoc}
use locket_api.Prelude.{
  ℕ, suc, zero, ◌+◌, ◌≤◌, ◌<◌, ◌≡◌, refl, ◌∙◌, ap, true, false, some, none, List, [], ◌∷◌, ◌++◌,
  map, Eq, length, get_or, take, length-append, arith,
}
use locket_api.Qhsm.{
  Handler, qhsm_top, state, QHsm, Handlers, same, leave, invoke, find_index, climb, collect, meet,
  enter, q_entry_sig, qep_empty_sig,
}
use locket_api.Qhsm.Chart.{
  Chart, Follows, innermost, upward, above, upward-above, Avoids, AvoidsAll, Apart, IsChain, exits,
  enters, same_self, effective-leave, members-leave,
}

module _ {ℓ} {K : Type ℓ} ⦃e : Eq K⦄ where
  -- The search finds a chain's end behind states that are not it.
  pub find_index-map :
      (ys zs : List K) (rest : List (Handler K)) (i : ℕ)
      → Avoids (innermost zs) ys
      → find_index (innermost zs) (map state ys ++ (innermost zs ∷ rest)) i ≡ some (i + length ys)
  find_index-map [] zs rest i h = rw (same_self (innermost zs), find_index) (rw add-zero)
  find_index-map (y ∷ ys) zs rest i h =
      rw (h.0, find_index) (rw (find_index-map ys zs rest (suc i) h.1, suc-add, add-suc))

  pub find_index-none :
      (x : K) (ts : List K) (i : ℕ)
      → Avoids (state x) ts
      → find_index (state x) (upward ts) i ≡ none
  find_index-none x [] i h = refl
  find_index-none x (t ∷ ts) i h = rw (h.0, find_index) (find_index-none x ts (suc i) h.1)

  -- The path of a target below a chain `zs`.
  pub upward-append :
      (ys zs : List K) → upward (ys ++ zs) ≡ map state ys ++ (innermost zs ∷ above zs)
  upward-append [] zs = upward-above zs
  upward-append (y ∷ ys) zs = ap (λ l. state y ∷ l) (upward-append ys zs)

  find_index-upward :
      (ys zs : List K)
      → Avoids (innermost zs) ys
      → find_index (innermost zs) (upward (ys ++ zs)) 0 ≡ some (length ys)
  find_index-upward ys zs a =
      ap (λ l. find_index (innermost zs) l 0) (upward-append ys zs)
      ∙ find_index-map ys zs (above zs) 0 a
      ∙ ap some (zero-add (length ys))

longer {ℓ} :
    {K : Type ℓ} (path : List (Handler K)) (y : K) (n : ℕ)
    → length (path ++ (state y ∷ [])) + n ≡ length path + suc n
longer path y n = omega (arith, length-append path (state y ∷ []))

module _ {ℓ κ} {K : Type ℓ} {D : Type κ} ⦃e : Eq K⦄ (handlers : Handlers K D) where
  pub collect-top :
      (room : ℕ) (source : Handler K) (path : List (Handler K)) (me : QHsm K D)
      → collect handlers room source qhsm_top path me ≡ some (path, none, me)
  unfolding collect
  collect-top zero source path me = refl
  collect-top (suc room) source path me = refl

  pub meet-found :
      (fuel lca : ℕ) (source : Handler K) (path : List (Handler K)) (me : QHsm K D)
      → meet handlers fuel source path (some lca) me ≡ some (lca, me)
  unfolding meet
  meet-found zero lca source path me = refl
  meet-found (suc fuel) lca source path me = refl

module _ {ℓ κ} {K : Type ℓ} {D : Type κ} ⦃e : Eq K⦄ {handlers : Handlers K D} {chart : Chart K D}
    (f : Follows handlers chart) where
  -- `while (source != effective)` leaves the states below the one that asked for the transition.
  pub climb_lem :
      (fuel : ℕ) (below rest : List K) (me : QHsm K D)
      → IsChain chart (below ++ rest)
      → Avoids (innermost rest) below
      → length below < fuel
      → (me' : QHsm K D) × (climb handlers fuel (innermost (below ++ rest)) (innermost rest) me
          ≡ some me')
        × (me'.members ≡ exits chart below me.members)
  unfolding climb
  climb_lem zero below rest me c a h = absurd (omega arith)
  climb_lem (suc fuel) [] rest me c a h = (me, rw (same_self (innermost rest), climb), refl)
  climb_lem (suc fuel) (k ∷ ks) rest me c a h =
      let r = climb_lem fuel ks rest (leave handlers (state k) me) c.2 a.1 (omega arith) in
      (
        r.0,
        rw (a.0, climb)
            (ap (λ h'. climb handlers fuel h' (innermost rest) (leave handlers (state k) me))
                (effective-leave f k me c.0 ∙ c.1)
              ∙ r.1),
        r.2 ∙ ap (exits chart ks) (members-leave f k me c.0),
      )

  -- One round of `while (target != &QHsm_top)`, for a parent that is not the source and for one
  -- that is.
  collect_go :
      (room : ℕ) (source : Handler K) (t : K) (h : Handler K) (path : List (Handler K))
      (me : QHsm K D)
      → chart.regular t ≡ true
      → chart.parent t ≡ h
      → same h source ≡ false
      → collect handlers (suc room) source (state t) path me
        ≡ collect handlers room source h (path ++ (h ∷ [])) (handlers t qep_empty_sig me).1
  unfolding collect
  collect_go room source t h path me r p q =
      let e' = f.empty_effective t me r ∙ p in
      let next = (handlers t qep_empty_sig me).1 in
      rw (ap (λ x. same x source) e' ∙ q, collect)
        (ap (λ x. collect handlers room source x (path ++ (x ∷ [])) next) e')

  collect_stop :
      (room : ℕ) (source : Handler K) (t : K) (path : List (Handler K)) (me : QHsm K D)
      → chart.regular t ≡ true
      → chart.parent t ≡ source
      → collect handlers (suc room) source (state t) path me
        ≡ some (path ++ (source ∷ []), some (length path), (handlers t qep_empty_sig me).1)
  unfolding collect
  collect_stop room source t path me r p =
      let e' = f.empty_effective t me r ∙ p in
      let next = (handlers t qep_empty_sig me).1 in
      rw (ap (λ x. same x source) e' ∙ same_self source, collect)
        (ap (λ x. some (path ++ (x ∷ []), some (length path), next)) e')

  -- The path to `QHsm_top` when the source is not on it.
  pub collect-none :
      (room : ℕ) (source : Handler K) (t : K) (ts : List K) (path : List (Handler K))
      (me : QHsm K D)
      → IsChain chart (t ∷ ts)
      → AvoidsAll source (above (t ∷ ts))
      → length ts < room
      → (me' : QHsm K D) × (collect handlers room source (state t) path me
          ≡ some (path ++ above (t ∷ ts), none, me'))
        × (me'.members ≡ me.members)
  collect-none zero source t ts path me c a h = absurd (omega arith)
  collect-none (suc room) source t [] path me c a h =
      let next = (handlers t qep_empty_sig me).1 in
      (
        next,
        collect_go room source t qhsm_top path me c.0 c.1 a.0
            ∙ collect-top handlers room source (path ++ (qhsm_top ∷ [])) next,
        f.empty_members t me c.0,
      )
  collect-none (suc room) source t (u ∷ ts) path me c a h =
      let next = (handlers t qep_empty_sig me).1 in
      let r = collect-none room source u ts (path ++ (state u ∷ [])) next c.2 a.1 (omega arith) in
      (
        r.0,
        collect_go room source t (state u) path me c.0 c.1 a.0
            ∙ r.1
            ∙ ap (λ l. some (l, none, r.0)) (append_assoc path (state u ∷ []) (above (u ∷ ts))),
        r.2 ∙ f.empty_members t me c.0,
      )

  -- The path up to the source when the source is on it.
  pub collect-some :
      (room : ℕ) (t : K) (ys zs : List K) (path : List (Handler K)) (me : QHsm K D)
      → IsChain chart (t ∷ ys ++ zs)
      → Avoids (innermost zs) ys
      → length ys < room
      → (me' : QHsm K D) × (collect handlers room (innermost zs) (state t) path me
          ≡ some
              (path ++ (map state ys ++ (innermost zs ∷ [])), some (length path + length ys), me'))
        × (me'.members ≡ me.members)
  collect-some zero t ys zs path me c a h = absurd (omega arith)
  collect-some (suc room) t [] zs path me c a h =
      let next = (handlers t qep_empty_sig me).1 in
      (
        next,
        collect_stop room (innermost zs) t path me c.0 c.1
            ∙ ap (λ n. some (path ++ (innermost zs ∷ []), some n, next)) (omega arith),
        f.empty_members t me c.0,
      )
  collect-some (suc room) t (y ∷ ys) zs path me c a h =
      let next = (handlers t qep_empty_sig me).1 in
      let r = collect-some room y ys zs (path ++ (state y ∷ [])) next c.2 a.1 (omega arith) in
      (
        r.0,
        collect_go room (innermost zs) t (state y) path me c.0 c.1 a.0 ∙ r.1 ∙ (λ i. some (
          append_assoc path (state y ∷ []) (map state ys ++ (innermost zs ∷ [])) i,
          some (longer path y (length ys) i),
          r.0,
        )),
        r.2 ∙ f.empty_members t me c.0,
      )

  -- One round of `while (lca == -1)`.
  meet_go :
      (fuel : ℕ) (x : K) (h : Handler K) (path : List (Handler K)) (me : QHsm K D)
      → chart.regular x ≡ true
      → chart.parent x ≡ h
      → meet handlers (suc fuel) (state x) path none me
        ≡ meet handlers fuel h path (find_index h path 0) (leave handlers (state x) me)
  unfolding meet
  meet_go fuel x h path me r p =
      ap (λ t. meet handlers fuel t path (find_index t path 0) (leave handlers (state x) me))
        (effective-leave f x me r ∙ p)

  -- `while (lca == -1)` leaves the states that are not on the path.
  pub meet_lem :
      (fuel : ℕ) (x : K) (xs ys zs : List K) (me : QHsm K D)
      → IsChain chart (x ∷ xs ++ zs)
      → Apart xs (ys ++ zs)
      → Avoids (innermost zs) ys
      → length xs < fuel
      → (me' : QHsm K D) × (meet handlers fuel (state x) (upward (ys ++ zs)) none me
          ≡ some (length ys, me'))
        × (me'.members ≡ exits chart (x ∷ xs) me.members)
  meet_lem zero x xs ys zs me c p a h = absurd (omega arith)
  meet_lem (suc fuel) x [] ys zs me c p a h =
      let next = leave handlers (state x) me in
      (
        next,
        meet_go fuel x (innermost zs) (upward (ys ++ zs)) me c.0 c.1
            ∙ ap (λ o. meet handlers fuel (innermost zs) (upward (ys ++ zs)) o next)
                (find_index-upward ys zs a)
            ∙ meet-found handlers fuel (length ys) (innermost zs) (upward (ys ++ zs)) next,
        members-leave f x me c.0,
      )
  meet_lem (suc fuel) x (w ∷ xs) ys zs me c p a h =
      let next = leave handlers (state x) me in
      let r = meet_lem fuel w xs ys zs next c.2 p.1 a (omega arith) in
      (
        r.0,
        meet_go fuel x (state w) (upward (ys ++ zs)) me c.0 c.1
            ∙ ap (λ o. meet handlers fuel (state w) (upward (ys ++ zs)) o next)
                (find_index-none w (ys ++ zs) 0 p.0)
            ∙ r.1,
        r.2 ∙ ap (λ d. exits chart (w ∷ xs) d) (members-leave f x me c.0),
      )

  -- The last loop ends at `path[0]`.
  pub enter-target :
      (i : ℕ) (path : List (Handler K)) (me : QHsm K D)
      → (enter handlers i path (get_or path i qhsm_top) me).0 ≡ get_or path 0 qhsm_top
  unfolding enter
  enter-target zero path me = refl
  enter-target (suc i) path me =
      enter-target i path (invoke handlers (get_or path i qhsm_top) q_entry_sig me).1

  enters-take :
      (ys zs : List K) (i : ℕ) (rest : List (Handler K)) (me : QHsm K D)
      → IsChain chart (ys ++ zs)
      → i < length ys
      → enters chart
          (take i ys)
          (invoke handlers (get_or (map state ys ++ rest) i qhsm_top) q_entry_sig me).1.members
        ≡ enters chart (take (suc i) ys) me.members
  enters-take [] zs i rest me c h = absurd (omega arith)
  enters-take (y ∷ ys) zs zero rest me c h = f.entry_members y me c.0
  enters-take (y ∷ ys) zs (suc i) rest me c h =
      ap (chart.on_entry y) (enters-take ys zs i rest me c.2 (omega arith))

  -- It makes the entry actions of the first `i` states of the path, the outermost first.
  pub enter-members :
      (ys zs : List K) (i : ℕ) (rest : List (Handler K)) (target : Handler K) (me : QHsm K D)
      → IsChain chart (ys ++ zs)
      → i ≤ length ys
      → (enter handlers i (map state ys ++ rest) target me).1.members
        ≡ enters chart (take i ys) me.members
  unfolding enter
  enter-members ys zs zero rest target me c h = refl
  enter-members ys zs (suc i) rest target me c h =
      let t = get_or (map state ys ++ rest) i qhsm_top in
      enter-members ys zs i rest t (invoke handlers t q_entry_sig me).1 c (omega arith)
      ∙ enters-take ys zs i rest me c h
