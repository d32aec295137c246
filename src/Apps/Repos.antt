-- ===== src/Apps/Repos.antt =====
-- `RepoHandler` of api/internal/apps/repos.go: the helm repositories of a cluster.
pub mod Laws
use bandolier.Prelude.{ℕ, String, ◌||◌, List, [], ◌∷◌, Option, none, some, ◌==◌, if◌then◌else◌}
use bandolier.Text.{◌<>◌, trim_space, error_text}
use bandolier.Response.{
  Response, no_content, bad_request, not_found_answer, server_error, created, Reply, sent, refused,
}
use bandolier.Store.Tables.{Repo, Action, app_repo_add, app_repo_remove, Outcome, Details, Detail}
use bandolier.Store.Audits.{nullable_int}
use bandolier.Result.{of_apps, Result, ok, err, repo_not_found}
use bandolier.World.{Ctx, Env, World}
use bandolier.World.Exec.{Exec, pure, attempt, ignore, modify, ◌>>=◌, ◌>>◌}
use bandolier.World.Calls.{query, statement}
use bandolier.Deployments.Effects.{audit}
use bandolier.Apps.Cache.{cache_invalidate}
use bandolier.Apps.Helm.{repo_add, repo_remove, helm_factory_for}
use bandolier.Apps.Store.{create_repo, delete_repo, list_repos}

abbrev pub reason : String → Details
reason r = ("reason", Detail.text r) ∷ []

abbrev pub named : String → String → Details → Details
named name url rest = ("name", Detail.text name) ∷ ("url", Detail.text url) ∷ rest

abbrev pub forget_catalog : String → World → World
forget_catalog id w = record w {
  apps = record w.apps { catalog = cache_invalidate id w.apps.catalog };
}

module _ (env : Env) (ctx : Ctx) (actor : ℕ) (cluster_id : String) where
  unfoldable pub list_repos_handler : Exec (Reply (List Repo))
  unfolding list_repos
  list_repos_handler w =
      (attempt (query env ctx λ db. ok (list_repos cluster_id db)) >>= λ r. pure (answer r)) w
    where
      answer : Result (List Repo) → Reply (List Repo)
      answer (ok rs) = sent rs
      answer (err e) = refused (server_error (error_text e))

  -- An audit row of the outcome, and the answer.
  abbrev pub answered : Action → Outcome → Details → Response → Exec Response
  answered action outcome details response = do
    audit env ctx actor action cluster_id outcome details
    pure response

  abbrev pub add_failed : Details → Response → Exec Response
  add_failed = answered app_repo_add Outcome.failure

  abbrev pub remove_failed : Details → Response → Exec Response
  remove_failed = answered app_repo_remove Outcome.failure

  module _ (name url : String) where
    abbrev pub on_row : Result ℕ → Exec Response
    on_row (err e) =
        add_failed
          (named name url
            (("reason", Detail.text "db_error") ∷ ("error", Detail.text (error_text e)) ∷ []))
          (server_error (error_text e))
    on_row (ok id) = do
      modify (forget_catalog cluster_id)
      answered app_repo_add Outcome.success (named name url []) (created id)

    abbrev pub on_added : Result (Unit {0}) → Exec Response
    on_added (err e) =
        add_failed
          (named name url (
            ("reason", Detail.text "helm_repo_add_failed")
            ∷ ("error", Detail.text (error_text e))
            ∷ []))
          (bad_request ("helm repo add failed: " <> error_text e))
    on_added (ok u) = do
      r ←
          attempt
            (statement env ctx λ now. create_repo now cluster_id name url (nullable_int actor))
      on_row r

    abbrev pub on_helm : Result String → Exec Response
    on_helm (err e) =
        add_failed
          (named name url (
            ("reason", Detail.text "helm_unavailable")
            ∷ ("error", Detail.text (error_text e))
            ∷ []))
          (server_error "helm unavailable")
    on_helm (ok kubeconfig) = do r ← attempt (repo_add env name url); on_added r

    -- The names are trimmed.
    unfoldable pub add_checked : Exec Response
    unfolding create_repo repo_add helm_factory_for cache_invalidate
    add_checked =
        if name == "" || url == ""
        then add_failed (named name url (reason "missing_fields"))
            (bad_request "name and url required")
        else (do found ← attempt (helm_factory_for env ctx cluster_id); on_helm found)

  -- `RepoHandler.Add`: the name and the url of the body.
  unfoldable pub add_repo_handler : Option (String × String) → Exec Response
  unfolding add_checked trim_space
  add_repo_handler none = add_failed (reason "invalid_json") (bad_request "invalid json")
  add_repo_handler (some body) = add_checked (trim_space body.0) (trim_space body.1)

  module _ (name : String) where
    abbrev pub named_reason : String → Details
    named_reason r = ("reason", Detail.text r) ∷ ("name", Detail.text name) ∷ []

    abbrev pub on_deleted : Result (Unit {0}) → Exec Response
    on_deleted (ok u) = do
      modify (forget_catalog cluster_id)
      answered app_repo_remove Outcome.success (("name", Detail.text name) ∷ []) no_content
    on_deleted (err (of_apps repo_not_found)) =
        remove_failed (named_reason "not_found") (not_found_answer "repo not found")
    on_deleted (err e) =
        remove_failed
          (("reason", Detail.text "db_error")
            ∷ ("error", Detail.text (error_text e))
            ∷ ("name", Detail.text name)
            ∷ [])
          (server_error (error_text e))

    abbrev pub remove_with : Result String → Exec Response
    remove_with (err e) =
        remove_failed
          (("reason", Detail.text "helm_unavailable")
            ∷ ("error", Detail.text (error_text e))
            ∷ ("name", Detail.text name)
            ∷ [])
          (server_error "helm unavailable")
    remove_with (ok kubeconfig) = do
      ignore (repo_remove env name)
      r ← attempt (statement env ctx λ now. delete_repo cluster_id name)
      on_deleted r

    -- `RepoHandler.Remove`: the error of helm is dropped.
    unfoldable pub remove_repo_handler : Exec Response
    unfolding delete_repo repo_remove helm_factory_for cache_invalidate
    remove_repo_handler =
        if name == ""
        then remove_failed (reason "missing_name") (bad_request "name required")
        else (do found ← attempt (helm_factory_for env ctx cluster_id); remove_with found)
