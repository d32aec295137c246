-- ===== src/Deployments/Start.antt =====
-- `Deploy` and `Destroy` of deployments/executor.go and `Upgrade` of deployments/upgrade.go: the
-- part that runs in the request, up to the start of the goroutine.
pub mod Launch
pub mod Rows
pub mod Launched
pub mod Granting
use bandolier.Prelude.{
  ℕ, String, Bool, true, false, List, [], ◌∷◌, ◌++◌, Option, none, some, if◌then◌else◌, eqb,
}
use bandolier.Text.{◌<>◌}
use bandolier.Status.{Status, TransitionError, deploying, destroying, upgrading, can_transition}
use bandolier.Store.Tables.{
  Cluster, Operation, deploy_op, destroy_op, upgrade_op, DeploymentStatus, Action, cluster_deploy,
  cluster_destroy, cluster_upgrade, Outcome, Details, Detail,
}
use bandolier.Store.Clusters.{get_cluster}
use bandolier.Result.{
  Error, Result, ok, err, refused, invalid_transition, locked, in_progress, failure,
}
use bandolier.World.{Ctx, Env, World, Job}
use bandolier.World.Exec.{Exec, pure, raise, ◌>>=◌, ◌>>◌}
use bandolier.World.Calls.{query}
use bandolier.Deployments.Effects.{lock_cluster}
use Launch.{Plan, launch}

abbrev pub deploy_plan : Plan
deploy_plan = record {
  operation = deploy_op;
  target = deploying;
  action = cluster_deploy;
  details = [];
  k3s_version = "";
  keeps_log_path = false;
}

abbrev pub destroy_plan : Plan
destroy_plan = record {
  operation = destroy_op;
  target = destroying;
  action = cluster_destroy;
  details = [];
  k3s_version = "";
  keeps_log_path = false;
}

abbrev pub upgrade_plan : String → Plan
upgrade_plan version = record {
  operation = upgrade_op;
  target = upgrading;
  action = cluster_upgrade;
  details = ("k3s_version", Detail.text version) ∷ [];
  k3s_version = version;
  keeps_log_path = true;
}

-- `clusters.CanTransition`, with the error that the caller makes of its refusal.
unfoldable pub check_move : (TransitionError → Error) → Status → Status → Exec (Unit {0})
check_move wrap from to w =
    (elim (can_transition from to) [ none ↦ ok tt | some e ↦ err (wrap e) ], w)

-- `if !e.Mutex.TryLock(clusterID) { return "", … }`
unfoldable pub take_lock : Error → String → Exec (Unit {0})
take_lock busy id = do got ← lock_cluster id; if got then pure tt else raise busy

module _ (env : Env) where
  -- `e.Registry.Get`
  unfoldable pub get_profile : String → Exec (Unit {0})
  get_profile name w =
      (if env.is_registered name then ok tt else err (failure ("unknown profile: " <> name)), w)

  -- The steps that the three operations share.
  unfoldable pub start : (TransitionError → Error) → Error → Plan → Ctx → ℕ → String → Exec String
  unfolding check_move take_lock get_profile
  start wrap busy plan ctx actor id = do
    c ← query env ctx (get_cluster id)
    check_move wrap c.status plan.target
    get_profile c.profile
    take_lock busy id
    launch env plan ctx actor id c.profile

  unfoldable pub deploy : Ctx → ℕ → String → Exec String
  unfolding start
  deploy = start refused in_progress deploy_plan

  unfoldable pub destroy : Ctx → ℕ → String → Exec String
  unfolding start
  destroy = start (λ e. invalid_transition) locked destroy_plan

  unfoldable pub upgrade : String → Ctx → ℕ → String → Exec String
  unfolding start
  upgrade version = start (λ e. invalid_transition) locked (upgrade_plan version)
