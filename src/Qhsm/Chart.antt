-- ===== src/Qhsm/Chart.antt =====
-- What a statechart is to the processor: a parent for each state, and the entry and exit actions on
-- the program's members. An initial pseudo-state is not regular. A chain of states is written from the inside out.
use locket_api.Prelude.{◌≡◌, refl, ◌∙◌, Bool, true, false, List, [], ◌∷◌, Eq}
use locket_api.Qhsm.{
  Handler, qhsm_top, state, QHsm, Handlers, same, leave, qep_empty_sig, q_entry_sig, q_exit_sig,
}

pub record Chart {ℓ κ} (K : Type ℓ) (D : Type κ) : Type (ℓ ⊔ κ) where
  pub regular : K → Bool
  pub parent : K → Handler K
  pub on_entry : K → D → D
  pub on_exit : K → D → D

-- The handlers of the regular states answer the three standard events as the chart says. What an entry or exit action
-- does to the `QHsm` itself is left open.
pub record Follows {ℓ κ} {K : Type ℓ} {D : Type κ} (handlers : Handlers K D) (chart : Chart K D)
    : Type (ℓ ⊔ κ) where
  pub empty_effective :
      (k : K) (me : QHsm K D)
      → chart.regular k ≡ true
      → (handlers k qep_empty_sig me).1.effective ≡ chart.parent k
  pub empty_members :
      (k : K) (me : QHsm K D)
      → chart.regular k ≡ true
      → (handlers k qep_empty_sig me).1.members ≡ me.members
  pub entry_members :
      (k : K) (me : QHsm K D)
      → chart.regular k ≡ true
      → (handlers k q_entry_sig me).1.members ≡ chart.on_entry k me.members
  pub exit_members :
      (k : K) (me : QHsm K D)
      → chart.regular k ≡ true
      → (handlers k q_exit_sig me).1.members ≡ chart.on_exit k me.members

module _ {ℓ} {K : Type ℓ} where
  -- The innermost handler of a chain; behind the last state stands `QHsm_top`.
  abbrev pub innermost : List K → Handler K
  innermost [] = qhsm_top
  innermost (k ∷ ks) = state k

  -- The handlers of a chain, `QHsm_top` included; and those but the first.
  abbrev pub upward : List K → List (Handler K)
  upward [] = qhsm_top ∷ []
  upward (k ∷ ks) = state k ∷ upward ks

  abbrev pub above : List K → List (Handler K)
  above [] = []
  above (k ∷ ks) = innermost ks ∷ above ks

  abbrev pub Avoids : ⦃e : Eq K⦄ → Handler K → List K → Type 0
  Avoids h [] = Unit
  Avoids h (k ∷ ks) = (same (state k) h ≡ false) × Avoids h ks

  abbrev pub AvoidsAll : ⦃e : Eq K⦄ → Handler K → List (Handler K) → Type 0
  AvoidsAll h [] = Unit
  AvoidsAll h (k ∷ ks) = (same k h ≡ false) × AvoidsAll h ks

  abbrev pub Apart : ⦃e : Eq K⦄ → List K → List K → Type 0
  Apart [] ks = Unit
  Apart (x ∷ xs) ks = Avoids (state x) ks × Apart xs ks

  pub same_self : ⦃e : Eq K⦄ (h : Handler K) → same h h ≡ true
  same_self qhsm_top = refl
  same_self ⦃e⦄ (state k) = (e.beq_iff k k).1 refl

  pub Avoids-top : ⦃e : Eq K⦄ (ks : List K) → Avoids qhsm_top ks
  Avoids-top [] = tt
  Avoids-top (k ∷ ks) = (refl, Avoids-top ks)

  pub upward-above : (ks : List K) → upward ks ≡ innermost ks ∷ above ks
  upward-above [] = refl
  upward-above (k ∷ ks) = λ i. state k ∷ upward-above ks i

module _ {ℓ κ} {K : Type ℓ} {D : Type κ} (chart : Chart K D) where
  abbrev pub IsChain : List K → Type ℓ
  IsChain [] = Unit
  IsChain (k ∷ ks) = (chart.regular k ≡ true) × (chart.parent k ≡ innermost ks) × IsChain ks

  -- The exit actions of a chain, from the inside out, and its entry actions, from the outside in.
  abbrev pub exits : List K → D → D
  exits [] d = d
  exits (k ∷ ks) d = exits ks (chart.on_exit k d)

  abbrev pub enters : List K → D → D
  enters [] d = d
  enters (k ∷ ks) d = chart.on_entry k (enters ks d)

module _ {ℓ κ} {K : Type ℓ} {D : Type κ} ⦃e : Eq K⦄ {handlers : Handlers K D} {chart : Chart K D}
    (f : Follows handlers chart) where
  pub effective-leave :
      (k : K) (me : QHsm K D)
      → chart.regular k ≡ true
      → (leave handlers (state k) me).effective ≡ chart.parent k
  effective-leave k me r = f.empty_effective k _ r

  pub members-leave :
      (k : K) (me : QHsm K D)
      → chart.regular k ≡ true
      → (leave handlers (state k) me).members ≡ chart.on_exit k me.members
  members-leave k me r = f.empty_members k _ r ∙ f.exit_members k me r
