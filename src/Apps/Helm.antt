-- ===== src/Apps/Helm.antt =====
-- api/internal/apps/helm.go and factory.go: the helm CLI on a kubeconfig from Vault. The arguments
-- of each call are those of the source; the text that the CLI prints is the environment's.
pub mod Specs
use bandolier.Prelude.{
  String, List, [], ◌∷◌, ◌++◌, Option, none, some, ◌==◌, if◌then◌else◌, Bool, map,
}
use bandolier.Text.{◌<>◌}
use bandolier.Hub.{log}
use bandolier.Apps.Types.{InstallRequest}
use bandolier.Apps.HelmTimeout.{helm_install_timeout_flag}
use bandolier.Result.{Result, ok, err, failure}
use bandolier.World.{Ctx, Env, Line, stdout, playbook_event, helm, make_temp_dir, write_file, World}
use bandolier.World.Exec.{Exec, pure, raise, ◌>>=◌, ◌>>◌}
use bandolier.World.Calls.{vault_get, text_field, run_command, read_output, tick}
use bandolier.Vault.{kubeconfig_path}
use bandolier.Deployments.Effects.{must, emit, log_event}

abbrev pub value_path : InstallRequest → String
value_path req = if req.ingress_value_path == "" then "ingress.hostname" else req.ingress_value_path

-- The arguments after the name of the subcommand; `timeout` is the variable of the environment.
unfoldable pub install_options : String → InstallRequest → String → List String
unfolding helm_install_timeout_flag
install_options timeout req values_path =
    req.release_name
      ∷ req.chart
      ∷ "--version"
      ∷ req.version
      ∷ "--namespace"
      ∷ req.namespace
      ∷ "--create-namespace"
      ∷ "--wait"
      ∷ "--timeout"
      ∷ helm_install_timeout_flag timeout
      ∷ (if req.atomic then "--atomic" ∷ [] else [])
    ++ (if req.hostname == ""
        then []
        else "--set"
          ∷ (value_path req <> "=" <> req.hostname)
          ∷ "--set"
          ∷ "ingress.enabled=true"
          ∷ "--set"
          ∷ "ingress.className=traefik"
          ∷ [])
    ++ (if req.storage_class == ""
        then []
        else "--set" ∷ ("global.storageClass=" <> req.storage_class) ∷ [])
    ++ (if values_path == "" then [] else "-f" ∷ values_path ∷ [])

unfoldable pub build_install_args : String → InstallRequest → String → List String
unfolding install_options
build_install_args timeout req values_path = "install" ∷ install_options timeout req values_path

unfoldable pub build_upgrade_args : String → InstallRequest → String → List String
unfolding install_options
build_upgrade_args timeout req values_path =
    ("upgrade" ∷ install_options timeout req values_path) ++ "--install" ∷ []

-- `teeWriter.Write` of executor.go, for each line.
unfoldable pub tee_lines : String → List Line → World → World
tee_lines id [] w = w
tee_lines id (stdout text ∷ ls) w = tee_lines id ls (emit id (log_event text) w)
tee_lines id (playbook_event ∷ ls) w = tee_lines id ls w

module _ (env : Env) where
  -- A call whose error carries what the command printed.
  unfoldable pub combined_output : String → List String → Exec (Unit {0})
  combined_output label args w = (
    elim (env.outcome (helm args) w.clock) [
      | none ↦ ok tt
      | some e ↦ err (failure (label <> ": " <> e <> ": " <> env.output (helm args) w.clock))
    ],
    tick w,
  )

  unfoldable pub repo_add : String → String → Exec (Unit {0})
  unfolding combined_output
  repo_add name url =
      combined_output ("helm repo add " <> name)
        ("repo" ∷ "add" ∷ "--force-update" ∷ name ∷ url ∷ [])

  unfoldable pub repo_remove : String → Exec (Unit {0})
  unfolding combined_output
  repo_remove name = combined_output ("helm repo remove " <> name) ("repo" ∷ "remove" ∷ name ∷ [])

  unfoldable pub repo_update : Exec (Unit {0})
  unfolding combined_output
  repo_update = combined_output "helm repo update" ("repo" ∷ "update" ∷ [])

  -- A command whose output goes to the log and the hub.
  unfoldable pub run_helm_cli : String → List String → Exec (Unit {0})
  unfolding tee_lines
  run_helm_cli id args w =
      run_command env (helm args) (tee_lines id (env.printed (helm args) w.clock) w)

  unfoldable pub helm_install_release : String → InstallRequest → String → Exec (Unit {0})
  unfolding run_helm_cli build_install_args
  helm_install_release id req path = run_helm_cli id (build_install_args env.helm_timeout req path)

  unfoldable pub helm_upgrade_release : String → InstallRequest → String → Exec (Unit {0})
  unfolding run_helm_cli build_upgrade_args
  helm_upgrade_release id req path = run_helm_cli id (build_upgrade_args env.helm_timeout req path)

  abbrev pub uninstall_args : String → String → List String
  uninstall_args release namespace =
      "uninstall" ∷ release ∷ "--namespace" ∷ namespace ∷ "--wait" ∷ []

  unfoldable pub helm_uninstall_release : String → String → String → Exec (Unit {0})
  unfolding run_helm_cli
  helm_uninstall_release id release namespace = run_helm_cli id (uninstall_args release namespace)

  -- `vaultHelmFactory.For`: the path of the kubeconfig that the wrapper is bound to.
  unfoldable pub helm_factory_for : Ctx → String → Exec String
  helm_factory_for ctx cluster_id = do
    data_ ←
        must (λ msg. raise (failure msg)) "read kubeconfig from vault: "
          (vault_get env ctx (kubeconfig_path cluster_id))
    if text_field "yaml" data_ == ""
        then raise (failure ("kubeconfig for cluster \"" <> cluster_id <> "\" missing or empty"))
        else pure tt
    dir ←
        must (λ msg. raise (failure msg)) "create temp kubeconfig dir: "
          (read_output env make_temp_dir)
    must (λ msg. raise (failure msg)) "write temp kubeconfig: "
        (run_command env (write_file (dir <> "/kubeconfig") (text_field "yaml" data_)))
    pure (dir <> "/kubeconfig")
