-- ===== src/Deployments/Recover.antt =====
-- `RecoverOrphanedDeployments` of deployments/executor.go: at the start of the api, the deployments
-- that a previous process left running are closed.
pub mod Rows
pub mod Laws
use bandolier.Prelude.{ℕ, String, Bool, false, List, [], ◌∷◌}
use bandolier.Status.{error}
use bandolier.Result.{ok, err}
use bandolier.Store.Tables.{Deployment, failed}
use bandolier.Store.Clusters.{update_cluster_status, set_pending_forget}
use bandolier.Store.Deployments.{finish_deployment, list_running_deployments}
use bandolier.World.{Ctx, Env}
use bandolier.World.Exec.{Exec, pure, ignore, ◌>>=◌, ◌>>◌}
use bandolier.World.Calls.{statement, query}
use bandolier.Deployments.Steps.{wrapped}

module _ (env : Env) (ctx : Ctx) where
  unfoldable pub close : Deployment → Exec (Unit {0})
  close d = do
    ignore (
        statement env ctx
          λ now. finish_deployment now d.id failed "api restart orphaned deployment")
    ignore (statement env ctx λ now. update_cluster_status now d.cluster_id error)
    ignore (statement env ctx λ now. set_pending_forget now d.cluster_id false)

  unfoldable pub close_all : List Deployment → Exec (Unit {0})
  unfolding close
  close_all [] = pure tt
  close_all (d ∷ ds) = do close d; close_all ds

  unfoldable pub recover_orphaned_deployments : Exec (Unit {0})
  unfolding close_all
  recover_orphaned_deployments = do
    orphans ←
        wrapped "list running deployments: " (query env ctx λ db. ok (list_running_deployments db))
    close_all orphans
