-- ===== src/Tests/Ability.antt =====
-- The theorem on the ability of projects/sm_behavior, applied to some signals.
use locket_api.Prelude.{[], ◌∷◌, ◌>>=◌}
use locket_api.Qhsm.{handled}
use locket_api.Qhsm.Lives.{PlaysOn, run, lives}
use locket_api.Ability.{on_started}
use locket_api.Ability.Life.{
  shine, second, disable, react, newcomer, proceed, IsPlaying, on_started-lives,
}

on_started-lives_example :
    PlaysOn IsPlaying
      (do me ← on_started handled; run (proceed handled) (shine ∷ second ∷ disable ∷ []) me)
      (lives react (shine ∷ second ∷ disable ∷ []) newcomer)
on_started-lives_example = on_started-lives handled (shine ∷ second ∷ disable ∷ [])
