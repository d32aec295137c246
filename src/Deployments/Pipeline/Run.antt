-- ===== src/Deployments/Pipeline/Run.antt =====
-- How a deploy ends.
use bandolier.Prelude.{true, ◌≡◌, refl, [], All}
use bandolier.Status.{ready}
use bandolier.Store.Tables.{cluster_deploy}
use bandolier.Hub.History.{history_of}
use bandolier.Mutex.Laws.{is_locked}
use bandolier.World.{Env, World}
use bandolier.World.Triples.{Spec, Spec-bind}
use bandolier.Deployments.Finish.{Task}
use bandolier.Deployments.Finish.Specs.{fail-Spec, record_success-Spec, announce_success-Spec}
use bandolier.Deployments.Finish.Release.{Concluded, Released, with_defers-Released}
use bandolier.Deployments.Outcome.{IsEarly, InProgress, InProgress-Stable, Stopped, Succeeded}
use bandolier.Deployments.Pipeline.{fail_deploy, run_body, run}
use bandolier.Deployments.Pipeline.Specs.{prepare-Spec}

run_body-Spec :
    (env : Env) (t : Task) (w₀ : World)
    → Spec (InProgress t.dep_id w₀) (Succeeded t.dep_id w₀) (Stopped t.dep_id w₀) (run_body env t)
unfolding run_body fail_deploy
run_body-Spec env t w₀ =
    Spec-bind _ _
      (prepare-Spec t (InProgress-Stable t.dep_id w₀) env
        (λ A msg. fail-Spec env t w₀ cluster_deploy [] msg))
      (λ _.
        Spec-bind _ _ (record_success-Spec env t w₀ ready cluster_deploy [])
          (λ _. announce_success-Spec env t w₀))

-- When the goroutine of a deploy ends, whatever the commands, Vault and the database answer and
-- whenever it is cancelled: exactly one terminal event was published, it is the last of the
-- history, and says `succeeded` exactly if no step failed; and the cluster's lock is free, no
-- other lock was touched, nothing was unlocked twice, and the cancel func is gone. It starts with
-- the lock held and before any terminal event.
pub run-Concluded :
    (env : Env) (t : Task) (w : World)
    → is_locked t.cluster_id w.mutex ≡ true
    → All IsEarly (history_of t.dep_id w.hub)
    → Concluded t.dep_id (run env t w).0 (run env t w).1 × Released t w (run env t w).1
unfolding run
run-Concluded env t w held early =
    with_defers-Released t w held (run_body env t w).0 (run_body env t w).1
      ((run_body-Spec env t w).at w (record { control = (refl, refl, refl, refl); early = early }))
