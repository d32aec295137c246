-- ===== src/Apps/Executor.antt =====
-- `Install`, `Upgrade` and `Uninstall` of api/internal/apps/executor.go and `InstallBundle` of
-- bundle.go: the part that runs in the request, up to the start of the goroutine.
pub mod Starting
use Prim.Native.String
use bandolier.Prelude.{
  ℕ, String, Bool, true, false, not, ◌&&◌, ◌||◌, List, [], ◌∷◌, ◌++◌, Option, none, some, ◌==◌,
  if◌then◌else◌, length, lookup, insert, erase,
}
use bandolier.Text.{◌<>◌, error_text}
use bandolier.Store.Tables.{
  Install, InstallOperation, DeploymentStatus, Action, app_install, app_upgrade, app_uninstall,
  app_bundle_install, Outcome, Details, Detail,
}
use bandolier.Result.{
  of_apps, Error, Result, ok, err, cluster_busy, system_release, install_not_cancellable, failure,
}
use bandolier.World.{Ctx, Env, World, create_log}
use bandolier.World.Exec.{Exec, pure, raise, modify, catch, ◌>>=◌, ◌>>◌}
use bandolier.World.Calls.{statement, run_command}
use bandolier.Deployments.Effects.{unlock_cluster, audit, first_call}
use bandolier.Deployments.Start.{take_lock}
use bandolier.Apps.Types.{
  InstallRequest, BundleInstallRequest, Work, run_helm, run_uninstall, run_bundle, AppJob,
  CatalogEntry,
}
use bandolier.Apps.Store.{create_install}
use bandolier.Apps.Catalog.{find_curated}

unfoldable pub register_install : String → World → World
register_install id w = record w {
  apps = record w.apps { cancels = insert id none w.apps.cancels };
}

unfoldable pub deregister_install : String → World → World
deregister_install id w = record w { apps = record w.apps { cancels = erase id w.apps.cancels } }

-- `Executor.Cancel`
unfoldable pub cancel_install : String → Exec (Unit {0})
cancel_install id w = elim (lookup id w.apps.cancels) [
  | none ↦ (err (of_apps install_not_cancellable), w)
  | some called ↦ (
    ok tt,
    record w {
      apps = record w.apps { cancels = insert id (first_call w.clock called) w.apps.cancels };
    },
  )
]

abbrev pub is_system : String → Bool
is_system release = release == "traefik"

-- What the requests differ in: the row, but for its id, and what the goroutine is to do.
pub record InstallPlan : Type 0 where
  pub row : Install
  pub action : Action
  pub details : Details
  pub work : Work

abbrev pub app_job : InstallPlan → String → ℕ → AppJob
app_job plan id actor = record {
  install_id = id;
  cluster_id = plan.row.cluster_id;
  work = plan.work;
  actor = actor;
}

abbrev pub spawn_install : AppJob → World → World
spawn_install j w = record w { apps = record w.apps { jobs = w.apps.jobs ++ j ∷ [] } }

-- `if err != nil { e.Mutex.Unlock(clusterID); return "", fmt.Errorf("<prefix>: %w", err) }`
unfoldable pub or_unlock {ℓ} : {A : Type ℓ} → String → String → Exec A → Exec A
or_unlock cluster_id prefix m =
    catch m
      (λ e. modify (unlock_cluster cluster_id) >>= λ _. raise (failure (prefix <> error_text e)))

-- The row that a request starts with; `CreateInstall` fills in the times.
abbrev pub new_row : String → String → String → String → String → InstallOperation → Install
new_row cluster_id chart version release namespace operation = record {
  id = "";
  cluster_id = cluster_id;
  chart = chart;
  version = version;
  release_name = release;
  namespace = namespace;
  hostname = none;
  operation = operation;
  status = DeploymentStatus.running;
  atomic = false;
  values_hash = none;
  started_at = 0;
  finished_at = none;
  error_message = none;
  actor_id = none;
  hostname_unclaimed = false;
}

abbrev pub optional : String → Option String
optional s = if s == "" then none else some s

abbrev pub work_details : InstallRequest → Details
work_details req =
    ("chart", Detail.text req.chart)
    ∷ ("version", Detail.text req.version)
    ∷ ("release_name", Detail.text req.release_name)
    ∷ ("namespace", Detail.text req.namespace)
    ∷ []

abbrev pub uninstall_details : String → String → Details
uninstall_details release namespace =
    ("release_name", Detail.text release) ∷ ("namespace", Detail.text namespace) ∷ []

abbrev path_of : Option CatalogEntry → String
path_of none = ""
path_of (some e) = e.ingress_value_path

-- The value path of the ingress, from the curated entry of that release name.
unfoldable pub resolve_ingress : InstallRequest → InstallRequest
unfolding find_curated
resolve_ingress req =
    if not (req.hostname == "")
      && req.ingress_value_path == ""
      && not (path_of (find_curated req.release_name) == "")
    then record req { ingress_value_path = path_of (find_curated req.release_name) }
    else req

module _ (env : Env) where
  -- `newID`
  unfoldable pub new_install_id : Exec String
  new_install_id w = (ok (env.random_id w.clock), w)

  abbrev pub hash_values : String → String
  hash_values yaml = if yaml == "" then "" else env.sha256 yaml

  -- The steps that the four requests share. The actor is 0 where the context has none.
  unfoldable pub start_install : Ctx → ℕ → InstallPlan → Exec String
  unfolding new_install_id or_unlock
  start_install ctx actor plan = do
    take_lock (of_apps cluster_busy) plan.row.cluster_id
    id ← new_install_id
    or_unlock plan.row.cluster_id "open log: " (run_command env create_log)
    or_unlock plan.row.cluster_id "create install row: "
        (statement env ctx λ now. create_install now (record plan.row { id = id }))
    audit env ctx actor plan.action plan.row.cluster_id Outcome.started
        (("install_id", Detail.text id) ∷ plan.details)
    modify (register_install id)
    modify (spawn_install (app_job plan id actor))
    pure id

  abbrev pub helm_plan : String → InstallRequest → InstallOperation → Action → InstallPlan
  helm_plan cluster_id req op action = record {
    row = record (new_row cluster_id req.chart req.version req.release_name req.namespace op) {
      hostname = optional req.hostname;
      atomic = req.atomic;
      values_hash = optional (hash_values req.values);
    };
    action = action;
    details = work_details req;
    work = run_helm req op;
  }

  -- `Executor.run`
  unfoldable pub run_request :
      InstallOperation → Action → Ctx → ℕ → String → InstallRequest → Exec String
  unfolding start_install resolve_ingress
  run_request op action ctx actor cluster_id req =
      start_install ctx actor (helm_plan cluster_id (resolve_ingress req) op action)

  unfoldable pub install_app : Ctx → ℕ → String → InstallRequest → Exec String
  unfolding run_request
  install_app = run_request InstallOperation.install app_install

  unfoldable pub upgrade_app : Ctx → ℕ → String → InstallRequest → Exec String
  unfolding run_request
  upgrade_app = run_request InstallOperation.upgrade app_upgrade

  abbrev pub uninstall_plan : String → String → String → InstallPlan
  uninstall_plan cluster_id release namespace = record {
    row = new_row cluster_id "" "" release namespace InstallOperation.uninstall;
    action = app_uninstall;
    details = uninstall_details release namespace;
    work = run_uninstall release namespace;
  }

  unfoldable pub uninstall_app : Ctx → ℕ → String → String → String → Bool → Exec String
  unfolding start_install
  uninstall_app ctx actor cluster_id release namespace force =
      if is_system release && not force
      then raise (of_apps system_release)
      else start_install ctx actor (uninstall_plan cluster_id release namespace)

  abbrev pub bundle_plan : String → BundleInstallRequest → String → InstallPlan
  bundle_plan cluster_id req fqdn = record {
    row =
        record (new_row cluster_id ("bundle/" <> req.bundle) req.version req.bundle "-"
          InstallOperation.install) { atomic = req.atomic };
    action = app_bundle_install;
    details =
        ("bundle", Detail.text req.bundle)
        ∷ ("bundle_version", Detail.text req.version)
        ∷ ("chart_count", Detail.number (length req.choices))
        ∷ [];
    work = run_bundle req fqdn;
  }

  unfoldable pub install_bundle : Ctx → ℕ → String → BundleInstallRequest → String → Exec String
  unfolding start_install
  install_bundle ctx actor cluster_id req fqdn =
      start_install ctx actor (bundle_plan cluster_id req fqdn)
