-- ===== src/Deployments/Pipeline/Verdicts.antt =====
-- What the database says when a deploy has ended, if no statement fails.
use bandolier.Prelude.{refl, [], All}
use bandolier.Status.{ready}
use bandolier.Store.Tables.{cluster_deploy}
use bandolier.Hub.History.{history_of}
use bandolier.World.{Env, World}
use bandolier.World.Rules.{IsQuiet, IsLive}
use bandolier.World.Triples.{Spec, Spec-bind}
use bandolier.Deployments.Finish.{Task}
use bandolier.Deployments.Finish.Recorded.{Tracked}
use bandolier.Deployments.Finish.Settled.{
  Settled, FailedAt, fail_settled-Spec, success_settled-Spec, announce-Settled-Spec,
}
use bandolier.Deployments.Finish.Verdict.{
  Verdict, FailureVerdict, release-Verdict, release-FailureVerdict, success_any-Spec,
}
use bandolier.Deployments.Outcome.{IsEarly, Unrecorded, Unrecorded-Stable}
use bandolier.Store.Tables.{DeploymentStatus}
use bandolier.Deployments.Pipeline.{fail_deploy, prepare, run_body, run}
use bandolier.Deployments.Pipeline.Specs.{prepare-Spec}

start-Unrecorded :
    (t : Task) (w : World) → All IsEarly (history_of t.dep_id w.hub) → Unrecorded t.dep_id w w
start-Unrecorded t w early = record {
  progress = record { control = (refl, refl, refl, refl); early = early };
  db = refl;
}

module _ (env : Env) (t : Task) (w : World) (quiet : IsQuiet env)
    (tracked : Tracked t.dep_id t.cluster_id w.db) where
  prepare_settled-Spec :
      Spec (Unrecorded t.dep_id w) (Unrecorded t.dep_id w) (FailedAt t) (prepare env t)
  unfolding fail_deploy
  prepare_settled-Spec =
      prepare-Spec t (Unrecorded-Stable t.dep_id w) env
        (λ A msg. fail_settled-Spec env quiet t w tracked cluster_deploy [] msg)

  run_body-Settled-Spec :
      IsLive t.ctx
      → Spec
          (Unrecorded t.dep_id w)
          (Settled t DeploymentStatus.succeeded ready)
          (FailedAt t)
          (run_body env t)
  unfolding run_body
  run_body-Settled-Spec live = Spec-bind _ _ prepare_settled-Spec (λ _.
      Spec-bind _ _ (success_settled-Spec env quiet t w tracked ready cluster_deploy [] live)
        (λ _. announce-Settled-Spec env quiet t w ready))

  run_body_any-Spec : Spec (Unrecorded t.dep_id w) (λ v. Unit {0}) (FailedAt t) (run_body env t)
  unfolding run_body
  run_body_any-Spec =
      Spec-bind _ _ prepare_settled-Spec (λ _. success_any-Spec env t ready cluster_deploy [])

-- No statement fails, the deploy is never cancelled, and it starts with its rows in place and before
-- any terminal event. If its steps run through, then its row and the terminal event say
-- `succeeded` and the cluster is `ready`; if one fails, then they say `failed` and the cluster is
-- in `error`.
pub run-Verdict :
    (env : Env) (t : Task) (w : World)
    → IsQuiet env
    → IsLive t.ctx
    → Tracked t.dep_id t.cluster_id w.db
    → All IsEarly (history_of t.dep_id w.hub)
    → Verdict t ready (run env t w).0 (run env t w).1
unfolding run
run-Verdict env t w quiet live tracked early =
    release-Verdict t ready live (run_body env t w).0 (run_body env t w).1
      ((run_body-Settled-Spec env t w quiet tracked live).at w (start-Unrecorded t w early))

-- The same start, with a deploy that may be cancelled at any time: if one of its steps ends in an
-- error, then the row and the terminal event agree on `cancelled` or `failed`, by whether the
-- context was cancelled three statements before the end, when the failure was seen, and the cluster
-- is in `error`. Of a cancellation after the last step it says nothing.
pub run-FailureVerdict :
    (env : Env) (t : Task) (w : World)
    → IsQuiet env
    → Tracked t.dep_id t.cluster_id w.db
    → All IsEarly (history_of t.dep_id w.hub)
    → FailureVerdict t (run env t w).0 (run env t w).1
unfolding run
run-FailureVerdict env t w quiet tracked early =
    release-FailureVerdict t (run_body env t w).0 (run_body env t w).1
      ((run_body_any-Spec env t w quiet tracked).at w (start-Unrecorded t w early))
