-- ===== src/Apps/Requests.antt =====
-- `ExecHandler` of api/internal/apps/handlers.go: the requests that install, upgrade and uninstall.
-- The body comes decoded, `none` for a text that is no JSON; `ingress_value_path` is never sent, so
-- it is empty.
pub mod Placeholders
pub mod Clean
pub mod Serve
use bandolier.Prelude.{
  ℕ, String, Bool, not, ◌&&◌, ◌||◌, List, [], ◌∷◌, Option, none, some, ◌==◌, ltb, eqb,
  if◌then◌else◌, length,
}
use bandolier.Text.{◌<>◌, trim_space, decimal, error_text}
use bandolier.Response.{Response, accepted, bad_request, not_found_answer, conflict, server_error}
use bandolier.Store.Clusters.{get_cluster}
use bandolier.Store.Tables.{Cluster}
use bandolier.Result.{of_apps, Error, Result, ok, err, cluster_busy, system_release}
use bandolier.World.{Ctx, Env, World, Secret}
use bandolier.World.Exec.{Exec, pure, attempt, modify, ◌>>=◌, ◌>>◌}
use bandolier.World.Calls.{query, vault_get, text_field}
use bandolier.Vault.{network_path}
use bandolier.Apps.Types.{InstallRequest, BundleChartChoice, BundleInstallRequest}
use bandolier.Apps.Bundle.{storage_of}
use bandolier.Apps.Cache.{cache_invalidate}
use bandolier.Apps.StorageClasses.{valid_storage_class_name, valid_hostname}
use bandolier.Apps.Executor.{install_app, upgrade_app, uninstall_app, install_bundle}

abbrev pub trimmed : InstallRequest → InstallRequest
trimmed req = record req {
  chart = trim_space req.chart;
  version = trim_space req.version;
  release_name = trim_space req.release_name;
  namespace = trim_space req.namespace;
  storage_class = trim_space req.storage_class;
  hostname = trim_space req.hostname;
}

-- The release name of the URL takes the place of the one in the body.
abbrev pub trimmed_upgrade : String → InstallRequest → InstallRequest
trimmed_upgrade release req = record (trimmed req) { release_name = trim_space release }

abbrev pub bad_storage_class : String → Bool
bad_storage_class s = not (s == "") && not (valid_storage_class_name s)

abbrev pub bad_hostname : String → Bool
bad_hostname s = not (s == "") && not (valid_hostname s)

abbrev pub install_incomplete : InstallRequest → Bool
install_incomplete req =
    req.chart == "" || req.version == "" || req.release_name == "" || req.namespace == ""

abbrev pub upgrade_incomplete : InstallRequest → Bool
upgrade_incomplete req = req.chart == "" || req.version == "" || req.namespace == ""

abbrev pub forget_releases : String → World → World
forget_releases id w = record w {
  apps = record w.apps { releases = cache_invalidate id w.apps.releases };
}

-- 409 for a busy cluster.
abbrev pub start_error : Error → Response
start_error (of_apps cluster_busy) = conflict "cluster busy"
start_error e = server_error (error_text e)

-- Also 400 for a system release.
abbrev pub uninstall_error : Error → Response
uninstall_error (of_apps system_release) = bad_request (error_text (of_apps system_release))
uninstall_error e = start_error e

abbrev pub bundle_error : Error → Response
bundle_error (of_apps cluster_busy) = conflict "deployment in progress"
bundle_error e = server_error (error_text e)

-- The cached releases of a cluster are dropped when an operation starts.
abbrev pub answer_start : (Error → Response) → String → Result String → Exec Response
answer_start refusal cluster_id (ok id) = do modify (forget_releases cluster_id); pure (accepted id)
answer_start refusal cluster_id (err e) = pure (refusal e)

abbrev pub bad_choice : BundleChartChoice → Option String
bad_choice c =
    if bad_storage_class (storage_of c.storage_class)
    then some "invalid storage_class in choices"
    else (if bad_hostname c.hostname then some "invalid hostname in choices" else none)

unfoldable pub bad_choices : List BundleChartChoice → Option String
bad_choices [] = none
bad_choices (c ∷ cs) =
    let rest = bad_choices cs in elim (bad_choice c) [ some e ↦ some e | none ↦ rest ]

abbrev pub max_bundle_choices : ℕ
max_bundle_choices = 50

-- What is wrong with the body of a bundle request.
unfoldable pub bundle_refusal : BundleInstallRequest → Option String
unfolding bad_choices
bundle_refusal req =
    if req.bundle == "" || req.version == "" || eqb (length req.choices) 0
    then some "bundle, version, choices required"
    else (if ltb max_bundle_choices (length req.choices)
        then some ("bundle has " <> decimal (length req.choices) <> " choices, max 50 allowed")
        else bad_choices req.choices)

module _ (env : Env) (ctx : Ctx) (actor : ℕ) (cluster_id : String) where
  -- The checks on the body, and the operation that it starts.
  abbrev pub checked :
      Bool → String → (InstallRequest → Exec String) → InstallRequest → Exec Response
  checked incomplete required start req =
      if incomplete
      then pure (bad_request required)
      else (if bad_storage_class req.storage_class
          then pure (bad_request "invalid storage_class")
          else (if bad_hostname req.hostname
              then pure (bad_request "invalid hostname")
              else (do r ← attempt (start req); answer_start start_error cluster_id r)))

  abbrev pub install_checked : InstallRequest → Exec Response
  install_checked req =
      checked (install_incomplete req) "chart, version, release_name, namespace required"
        (install_app env ctx actor cluster_id) req

  abbrev pub upgrade_checked : InstallRequest → Exec Response
  upgrade_checked req =
      checked (upgrade_incomplete req) "chart, version, namespace required"
        (upgrade_app env ctx actor cluster_id) req

  unfoldable pub install_handler : Option InstallRequest → Exec Response
  unfolding install_app valid_storage_class_name valid_hostname trim_space cache_invalidate
  install_handler none = pure (bad_request "invalid json")
  install_handler (some req) = install_checked (trimmed req)

  unfoldable pub upgrade_handler : String → Option InstallRequest → Exec Response
  unfolding upgrade_app valid_storage_class_name valid_hostname trim_space cache_invalidate
  upgrade_handler release none = pure (bad_request "invalid json")
  upgrade_handler release (some req) = upgrade_checked (trimmed_upgrade release req)

  -- The namespace and the force flag of the body.
  unfoldable pub uninstall_handler : String → Option (String × Bool) → Exec Response
  unfolding uninstall_app trim_space cache_invalidate
  uninstall_handler release none = pure (bad_request "invalid json")
  uninstall_handler release (some body) =
      if trim_space body.0 == "" then pure (bad_request "namespace required") else (do
        r ← attempt (uninstall_app env ctx actor cluster_id release (trim_space body.0) body.1)
        answer_start uninstall_error cluster_id r)

  abbrev pub fqdn_of : Result Secret → String
  fqdn_of (ok s) = text_field "fqdn" s
  fqdn_of (err e) = ""

  abbrev pub bundle_on : BundleInstallRequest → Result Cluster → Exec Response
  bundle_on req (err e) = pure (not_found_answer "cluster not found")
  bundle_on req (ok c) = do
    network ← attempt (vault_get env ctx (network_path cluster_id))
    r ← attempt (install_bundle env ctx actor cluster_id req (fqdn_of network))
    answer_start bundle_error cluster_id r

  abbrev pub bundle_checked : BundleInstallRequest → Option String → Exec Response
  bundle_checked req (some e) = pure (bad_request e)
  bundle_checked req none = do c ← attempt (query env ctx (get_cluster cluster_id)); bundle_on req c

  unfoldable pub bundle_handler : Option BundleInstallRequest → Exec Response
  unfolding install_bundle bundle_refusal cache_invalidate
  bundle_handler none = pure (bad_request "invalid json")
  bundle_handler (some req) = bundle_checked req (bundle_refusal req)

-- The four requests of the router.
pub data Request : Type 0 where
  install_request : Option InstallRequest → Request
  upgrade_request : String → Option InstallRequest → Request
  uninstall_request : String → Option (String × Bool) → Request
  bundle_request : Option BundleInstallRequest → Request

unfoldable pub serve : Env → Ctx → ℕ → String → Request → Exec Response
unfolding install_handler upgrade_handler uninstall_handler bundle_handler
serve env ctx actor id (install_request body) = install_handler env ctx actor id body
serve env ctx actor id (upgrade_request release body) =
    upgrade_handler env ctx actor id release body
serve env ctx actor id (uninstall_request release body) =
    uninstall_handler env ctx actor id release body
serve env ctx actor id (bundle_request body) = bundle_handler env ctx actor id body
