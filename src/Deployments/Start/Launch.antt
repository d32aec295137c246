-- ===== src/Deployments/Start/Launch.antt =====
-- From the lock to the goroutine: the log file, the row, the status, the audit row, the cancel func.
use bandolier.Prelude.{ℕ, String, Bool, [], ◌∷◌, ◌++◌, none, some, if◌then◌else◌}
use bandolier.Text.{◌<>◌}
use bandolier.Status.{Status}
use bandolier.Store.Tables.{Operation, Deployment, DeploymentStatus, Action, Outcome, Details}
use bandolier.Store.Clusters.{update_cluster_status}
use bandolier.Store.Deployments.{create_deployment}
use bandolier.Store.Audits.{nullable_int}
use bandolier.Result.{ok}
use bandolier.World.{Ctx, Env, World, Job, create_log}
use bandolier.World.Exec.{Exec, pure, modify, on_error, ◌>>=◌, ◌>>◌}
use bandolier.World.Calls.{statement, run_command}
use bandolier.Deployments.Effects.{unlock_cluster, register, audit}

-- What tells the three operations apart.
pub record Plan : Type 0 where
  pub operation : Operation
  pub target : Status
  pub action : Action
  pub details : Details
  pub k3s_version : String
  -- whether the row that is handed to `CreateDeployment` names the log file
  pub keeps_log_path : Bool

abbrev pub job_of : Plan → String → String → String → ℕ → Job
job_of plan dep id profile actor = record {
  dep_id = dep;
  cluster_id = id;
  operation = plan.operation;
  profile = profile;
  k3s_version = plan.k3s_version;
  actor = actor;
}

-- `go e.run(…)`
abbrev pub spawn : Job → World → World
spawn j w = record w { jobs = w.jobs ++ j ∷ [] }

module _ (env : Env) where
  -- `NewDeploymentID`
  unfoldable pub new_deployment_id : Exec String
  new_deployment_id w = (ok (env.random_id w.clock), w)

  abbrev pub row_of : Plan → String → String → ℕ → Deployment
  row_of plan dep id actor = record {
    id = dep;
    cluster_id = id;
    operation = plan.operation;
    status = DeploymentStatus.running;
    started_at = none;
    finished_at = none;
    error_message = none;
    log_path = if plan.keeps_log_path then some (env.log_root <> "/" <> dep <> ".log") else none;
    actor_id = nullable_int actor;
  }

  unfoldable pub launch : Plan → Ctx → ℕ → String → String → Exec String
  unfolding new_deployment_id
  launch plan ctx actor id profile = do
    dep ← new_deployment_id
    on_error (run_command env create_log) (modify (unlock_cluster id))
    on_error (statement env ctx λ now. create_deployment now (row_of plan dep id actor))
        (modify (unlock_cluster id))
    on_error (statement env ctx λ now. update_cluster_status now id plan.target)
        (modify (unlock_cluster id))
    audit env ctx actor plan.action id Outcome.started plan.details
    modify (register dep)
    modify (spawn (job_of plan dep id profile actor))
    pure dep
