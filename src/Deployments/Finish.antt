-- ===== src/Deployments/Finish.antt =====
-- How the goroutines of deployments/executor.go and upgrade.go end: the closure `fail`, the
-- records of a success, and the deferred calls.
pub mod Specs
pub mod Release
pub mod Must
pub mod Recorded
pub mod Settled
pub mod Verdict
pub mod Late
use bandolier.Prelude.{ℕ, String, Bool, true, false, List, [], ◌∷◌, ◌++◌}
use bandolier.Status.{Status, error}
use bandolier.Store.Tables.{DeploymentStatus, Action, Outcome, Details, Detail}
use bandolier.Store.Clusters.{update_cluster_status}
use bandolier.Store.Deployments.{finish_deployment}
use bandolier.Result.{Result, failure}
use bandolier.World.{Ctx, Env, World}
use bandolier.World.Exec.{Exec, pure, raise, modify, ignore, ◌>>=◌, ◌>>◌}
use bandolier.World.Calls.{statement, background, ctx_done}
use bandolier.Deployments.Effects.{
  finish_status, audit, emit, complete_event, unlock_cluster, deregister, ended_event,
}

-- What a goroutine is told: its context, its deployment and cluster, and who asked for it.
pub record Task : Type 0 where
  pub ctx : Ctx
  pub dep_id : String
  pub cluster_id : String
  pub actor : ℕ

module _ (env : Env) where
  -- The row and the status, on a fresh context.
  unfoldable pub record_failure : Task → DeploymentStatus → String → Exec (Unit {0})
  record_failure t status msg = do
    ignore (statement env background λ now. finish_deployment now t.dep_id status msg)
    ignore (statement env background λ now. update_cluster_status now t.cluster_id error)

  -- `fail` of `run` and `runUpgrade`: `ctx.Err()` is read first.
  unfoldable pub fail {ℓ} : {A : Type ℓ} → Task → Action → Details → String → Exec A
  unfolding record_failure finish_status
  fail t action details msg w =
      (do
        record_failure t (finish_status (ctx_done t.ctx w.clock) true).0 msg
        audit env background t.actor action t.cluster_id
            (finish_status (ctx_done t.ctx w.clock) true).1
            (details ++ ("error", Detail.text msg) ∷ [])
        modify (emit t.dep_id (complete_event (finish_status (ctx_done t.ctx w.clock) true).0 msg))
        raise (failure msg))
        w

  -- The records of a success are written on the goroutine's own context.
  unfoldable pub record_success : Task → Status → Action → Details → Exec (Unit {0})
  record_success t target action details = do
    ignore (statement env t.ctx λ now. finish_deployment now t.dep_id DeploymentStatus.succeeded "")
    ignore (statement env t.ctx λ now. update_cluster_status now t.cluster_id target)
    audit env t.ctx t.actor action t.cluster_id Outcome.succeeded details

-- `publish(Event{Type: EventDeploymentComplete, Status: "succeeded"})`
abbrev pub announce_success : Task → Exec (Unit {0})
announce_success t = modify (emit t.dep_id (complete_event DeploymentStatus.succeeded ""))

-- `stepEnd(name, 1)` before a failure.
abbrev pub end_and {ℓ} : {A : Type ℓ} → Task → String → (String → Exec A) → String → Exec A
end_and t name fail' msg = do modify (emit t.dep_id (ended_event name 1)); fail' msg

-- `defer e.deregister(depID); defer e.Mutex.Unlock(clusterID)`: the last one is run first.
abbrev pub with_defers {ℓ} : {A : Type ℓ} → Task → Exec A → Exec A
with_defers t m w = let (r, w') = m w in (r, deregister t.dep_id (unlock_cluster t.cluster_id w'))
