-- ===== src/Deployments/UpgradeRun/Verdicts.antt =====
-- What the database says when an upgrade has ended, if no statement fails.
use bandolier.Prelude.{String, refl, All}
use bandolier.Status.{ready}
use bandolier.Store.Tables.{cluster_upgrade}
use bandolier.Hub.History.{history_of}
use bandolier.World.{Env, World}
use bandolier.World.Rules.{IsQuiet, IsLive}
use bandolier.World.Triples.{Spec, Spec-bind}
use bandolier.Deployments.Finish.{Task}
use bandolier.Deployments.Finish.Recorded.{Tracked}
use bandolier.Deployments.Finish.Settled.{
  Settled, FailedAt, fail_settled-Spec, success_settled-Spec, announce-Settled-Spec,
}
use bandolier.Deployments.Finish.Verdict.{
  Verdict, FailureVerdict, release-Verdict, release-FailureVerdict, success_any-Spec,
}
use bandolier.Deployments.Outcome.{IsEarly, Unrecorded, Unrecorded-Stable}
use bandolier.Store.Tables.{DeploymentStatus}
use bandolier.Deployments.UpgradeRun.{
  fail_upgrade, roll_out, upgrade_body, run_upgrade, upgrade_details,
}
use bandolier.Deployments.UpgradeRun.Run.{roll_out-Spec}

start-Unrecorded :
    (t : Task) (w : World) → All IsEarly (history_of t.dep_id w.hub) → Unrecorded t.dep_id w w
start-Unrecorded t w early = record {
  progress = record { control = (refl, refl, refl, refl); early = early };
  db = refl;
}

module _ (env : Env) (t : Task) (version : String) (w : World) (quiet : IsQuiet env)
    (tracked : Tracked t.dep_id t.cluster_id w.db) where
  roll_out_settled-Spec :
      Spec (Unrecorded t.dep_id w) (Unrecorded t.dep_id w) (FailedAt t) (roll_out env t version)
  unfolding fail_upgrade
  roll_out_settled-Spec = roll_out-Spec t version (Unrecorded-Stable t.dep_id w) env (λ msg.
      fail_settled-Spec env quiet t w tracked cluster_upgrade (upgrade_details env t version) msg)

  upgrade_body-Settled-Spec :
      IsLive t.ctx
      → Spec
          (Unrecorded t.dep_id w)
          (Settled t DeploymentStatus.succeeded ready)
          (FailedAt t)
          (upgrade_body env t version)
  unfolding upgrade_body
  upgrade_body-Settled-Spec live = Spec-bind _ _ roll_out_settled-Spec (λ _.
      Spec-bind _ _
        (success_settled-Spec env quiet t w tracked ready cluster_upgrade
          (upgrade_details env t version) live)
        (λ _. announce-Settled-Spec env quiet t w ready))

  upgrade_body_any-Spec :
      Spec (Unrecorded t.dep_id w) (λ v. Unit {0}) (FailedAt t) (upgrade_body env t version)
  unfolding upgrade_body
  upgrade_body_any-Spec =
      Spec-bind _ _ roll_out_settled-Spec
        (λ _. success_any-Spec env t ready cluster_upgrade (upgrade_details env t version))

-- No statement fails, the upgrade is never cancelled, and it starts with its rows in place and before
-- any terminal event. If its steps run through, then its row and the terminal event say
-- `succeeded` and the cluster is `ready`; if one fails, then they say `failed` and the cluster is
-- in `error`.
pub run_upgrade-Verdict :
    (env : Env) (t : Task) (version : String) (w : World)
    → IsQuiet env
    → IsLive t.ctx
    → Tracked t.dep_id t.cluster_id w.db
    → All IsEarly (history_of t.dep_id w.hub)
    → Verdict t ready (run_upgrade env t version w).0 (run_upgrade env t version w).1
unfolding run_upgrade
run_upgrade-Verdict env t version w quiet live tracked early =
    release-Verdict t ready live (upgrade_body env t version w).0 (upgrade_body env t version w).1 (
      (upgrade_body-Settled-Spec env t version w quiet tracked live).at w
        (start-Unrecorded t w early))

-- The same start, with an upgrade that may be cancelled at any time: if one of its steps ends in an
-- error, then the row and the terminal event agree on `cancelled` or `failed`, by whether the
-- context was cancelled three statements before the end, when the failure was seen, and the cluster
-- is in `error`. Of a cancellation after the last step it says nothing.
pub run_upgrade-FailureVerdict :
    (env : Env) (t : Task) (version : String) (w : World)
    → IsQuiet env
    → Tracked t.dep_id t.cluster_id w.db
    → All IsEarly (history_of t.dep_id w.hub)
    → FailureVerdict t (run_upgrade env t version w).0 (run_upgrade env t version w).1
unfolding run_upgrade
run_upgrade-FailureVerdict env t version w quiet tracked early =
    release-FailureVerdict t (upgrade_body env t version w).0 (upgrade_body env t version w).1
      ((upgrade_body_any-Spec env t version w quiet tracked).at w (start-Unrecorded t w early))
