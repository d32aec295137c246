-- ===== src/Apps/Goroutines.antt =====
-- `runInstallOrUpgrade` and `runUninstall` of api/internal/apps/executor.go.
pub mod Specs
use bandolier.Prelude.{
  String, Bool, true, false, not, ◌&&◌, List, [], ◌∷◌, Option, none, some, ◌==◌, if◌then◌else◌,
}
use bandolier.Text.{◌<>◌, error_text}
use bandolier.Store.Tables.{
  InstallOperation, install, upgrade, uninstall, Action, app_install, app_upgrade, app_uninstall,
}
use bandolier.Result.{Result, ok, err, failure}
use bandolier.World.{Env, write_file}
use bandolier.World.Exec.{Exec, pure, raise, ignore, attempt, modify, ◌>>=◌, ◌>>◌}
use bandolier.World.Calls.{statement, run_command}
use bandolier.Deployments.Effects.{emit, started_event}
use bandolier.Apps.Types.{InstallRequest}
use bandolier.Apps.Store.{mark_hostname_unclaimed}
use bandolier.Apps.Helm.{
  helm_install_release, helm_upgrade_release, helm_uninstall_release, helm_factory_for,
}
use bandolier.Apps.Probe.{probe_hostname_claimed}
use bandolier.Apps.Executor.{work_details, uninstall_details}
use bandolier.Apps.Run.{AppTask, Subject, say, finish, add_chart_repo, with_install_defers}

abbrev pub operation_name : InstallOperation → String
operation_name install = "install"
operation_name upgrade = "upgrade"
operation_name uninstall = "uninstall"

abbrev pub action_of : InstallOperation → Action
action_of install = app_install
action_of upgrade = app_upgrade
action_of uninstall = app_uninstall

abbrev pub helm_subject : InstallRequest → InstallOperation → Subject
helm_subject req op = record {
  action = action_of op;
  step = "helm." <> operation_name op;
  details = work_details req;
}

abbrev pub uninstall_subject : String → String → Subject
uninstall_subject release namespace = record {
  action = app_uninstall;
  step = "helm.uninstall";
  details = uninstall_details release namespace;
}

abbrev pub error_of : Result (Unit {0}) → Option String
error_of (ok u) = none
error_of (err e) = some (error_text e)

module _ (env : Env) (t : AppTask) where
  -- The values file, and its path; no file and the empty path without values.
  unfoldable pub write_values : String → String → Exec String
  write_values name values = if values == "" then pure "" else (do
    run_command env (write_file (env.log_root <> "/" <> name) values)
    pure (env.log_root <> "/" <> name))

  unfoldable pub run_operation : InstallOperation → InstallRequest → String → Exec (Unit {0})
  run_operation install req path = helm_install_release env t.install_id req path
  run_operation upgrade req path = helm_upgrade_release env t.install_id req path
  run_operation uninstall req path = raise (failure "unknown op \"uninstall\"")

  abbrev warning : InstallRequest → String
  warning req =
      "warning: hostname \"" <> req.hostname
      <> "\" not claimed by any Ingress or IngressRoute in namespace \"" <> req.namespace
      <> "\". Chart may use a different value path. Open the install modal's Advanced ▸ Hostname value path to override.\n"

  abbrev pub note_unclaimed : InstallRequest → Result Bool → Exec (Unit {0})
  note_unclaimed req (ok false) = do
    ignore (statement env t.ctx λ now. mark_hostname_unclaimed t.install_id true)
    say t (warning req)
  note_unclaimed req _ = pure tt

  -- The probe is best effort, and is made only after a success with a hostname.
  unfoldable pub probe_hostname : InstallRequest → String → Option String → Exec (Unit {0})
  unfolding probe_hostname_claimed
  probe_hostname req kubeconfig none = if req.hostname == "" then pure tt else (do
    claimed ← attempt (probe_hostname_claimed env kubeconfig req.namespace req.hostname)
    note_unclaimed req claimed)
  probe_hostname req kubeconfig (some e) = pure tt

  module _ (req : InstallRequest) (op : InstallOperation) where
    abbrev pub conclude : String → Result (Unit {0}) → Exec (Unit {0})
    conclude kubeconfig r = do
      probe_hostname req kubeconfig (error_of r)
      finish env t (helm_subject req op) (error_of r)

    abbrev pub with_values : String → Result String → Exec (Unit {0})
    with_values kubeconfig (err e) = do
      say t ("write values file: " <> error_text e <> "\n")
      finish env t (helm_subject req op) (some ("write values: " <> error_text e))
    with_values kubeconfig (ok path) = do
      modify (emit t.install_id (started_event ("helm." <> operation_name op)))
      r ← attempt (run_operation op req path)
      conclude kubeconfig r

    abbrev pub with_helm : Result String → Exec (Unit {0})
    with_helm (err e) = do
      say t ("helm factory error: " <> error_text e <> "\n")
      finish env t (helm_subject req op) (some ("helm unavailable: " <> error_text e))
    with_helm (ok kubeconfig) = do
      add_chart_repo env t req.chart
      path ← attempt (write_values (t.install_id <> ".values.yaml") req.values)
      with_values kubeconfig path

    unfoldable pub install_or_upgrade_body : Exec (Unit {0})
    unfolding write_values run_operation probe_hostname finish add_chart_repo helm_factory_for
    install_or_upgrade_body = do
      found ← attempt (helm_factory_for env t.ctx t.cluster_id)
      with_helm found

    unfoldable pub run_install_or_upgrade : Exec (Unit {0})
    unfolding install_or_upgrade_body
    run_install_or_upgrade = with_install_defers t install_or_upgrade_body

  module _ (release namespace : String) where
    abbrev pub uninstall_with : Result String → Exec (Unit {0})
    uninstall_with (err e) = do
      say t ("helm factory error: " <> error_text e <> "\n")
      finish env t (uninstall_subject release namespace)
          (some ("helm unavailable: " <> error_text e))
    uninstall_with (ok kubeconfig) = do
      modify (emit t.install_id (started_event "helm.uninstall"))
      r ← attempt (helm_uninstall_release env t.install_id release namespace)
      finish env t (uninstall_subject release namespace) (error_of r)

    unfoldable pub uninstall_body : Exec (Unit {0})
    unfolding helm_uninstall_release finish helm_factory_for
    uninstall_body = do
      found ← attempt (helm_factory_for env t.ctx t.cluster_id)
      uninstall_with found

    unfoldable pub run_uninstall_release : Exec (Unit {0})
    unfolding uninstall_body
    run_uninstall_release = with_install_defers t uninstall_body
