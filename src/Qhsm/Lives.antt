-- ===== src/Qhsm/Lives.antt =====
-- A machine over its whole life: a run of happenings that may fail, beside the rules that it follows.
use locket_api.Prelude.{Option, none, some, List, [], ◌∷◌, ◌>>=◌}

-- The run survives, and its machine plays the player.
abbrev pub PlaysOn {ℓ κ} : {M : Type ℓ} {P : Type κ} → (M → P → Type 0) → Option M → P → Type 0
PlaysOn IsPlaying none p = ⊥
PlaysOn IsPlaying (some me) p = IsPlaying me p

abbrev pub run {ℓ κ} : {H : Type ℓ} {M : Type κ} → (H → M → Option M) → List H → M → Option M
run proceed [] me = some me
run proceed (e ∷ es) me = do me' ← proceed e me; run proceed es me'

abbrev pub lives {ℓ κ} : {H : Type ℓ} {P : Type κ} → (H → P → P) → List H → P → P
lives live [] p = p
lives live (e ∷ es) p = lives live es (live e p)

-- What follows a run that survives.
pub then-PlaysOn {ℓ κ μ} :
    {M : Type ℓ} {N : Type κ} {P : Type μ} (IsPlaying : M → P → Type 0) (Ends : N → P → Type 0)
    (o : Option M) (f : M → Option N) (p q : P)
    → PlaysOn IsPlaying o p
    → ((me : M) → IsPlaying me p → PlaysOn Ends (f me) q)
    → PlaysOn Ends (do me ← o; f me) q
then-PlaysOn IsPlaying Ends none f p q h k = h
then-PlaysOn IsPlaying Ends (some me) f p q h k = k me h

module _ {ℓ κ} {M : Type ℓ} {P : Type κ} (IsPlaying : M → P → Type 0) where
  module _ {H : Type 0} (proceed : H → M → Option M) (live : H → P → P)
      (step : (e : H) (me : M) (p : P)
        → IsPlaying me p
        → PlaysOn IsPlaying (proceed e me) (live e p)) where
    pub run-lives :
        (es : List H) (me : M) (p : P)
        → IsPlaying me p
        → PlaysOn IsPlaying (run proceed es me) (lives live es p)
    run-lives [] me p h = h
    run-lives (e ∷ es) me p h =
        then-PlaysOn IsPlaying IsPlaying (proceed e me) (run proceed es) (live e p)
          (lives live es (live e p)) (step e me p h) (λ me'. run-lives es me' (live e p))
