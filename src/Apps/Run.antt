-- ===== src/Apps/Run.antt =====
-- The goroutines of api/internal/apps/executor.go: `runInstallOrUpgrade` and `runUninstall`, with
-- their deferred calls and the closure `finish`. The log file and the removal of temporary files
-- are left out.
use Prim.Native.Char
use bandolier.Prelude.{
  ℕ, String, Bool, true, false, List, [], ◌∷◌, ◌++◌, Option, none, some, ◌==◌, eqb, if◌then◌else◌,
  get_or,
}
use bandolier.Text.{◌<>◌, error_text}
use bandolier.Store.Tables.{Repo, DeploymentStatus, Action, Outcome, Details, Detail}
use bandolier.Result.{Result, ok, err}
use bandolier.World.{Ctx, Env}
use bandolier.World.Exec.{Exec, pure, ignore, attempt, modify, ◌>>=◌, ◌>>◌}
use bandolier.World.Calls.{statement, query, background, ctx_done}
use bandolier.Deployments.Effects.{
  finish_status, audit, emit, complete_event, ended_event, log_event, unlock_cluster,
}
use bandolier.Apps.Store.{finish_install, list_repos}
use bandolier.Apps.Helm.{repo_add, repo_update}
use bandolier.Apps.Executor.{deregister_install}

-- What a goroutine is told: its context, its install and cluster, and who asked for it.
pub record AppTask : Type 0 where
  pub ctx : Ctx
  pub install_id : String
  pub cluster_id : String
  pub actor : ℕ

-- `fmt.Fprintf(tee, …)`
abbrev pub say : AppTask → String → Exec (Unit {0})
say t line = modify (emit t.install_id (log_event line))

-- `defer e.deregister(id); defer e.Mutex.Unlock(clusterID)`: the last one is run first.
abbrev pub with_install_defers {ℓ} : {A : Type ℓ} → AppTask → Exec A → Exec A
with_install_defers t m w =
    let (r, w') = m w in (r, deregister_install t.install_id (unlock_cluster t.cluster_id w'))

abbrev pub is_some {ℓ} : {A : Type ℓ} → Option A → Bool
is_some none = false
is_some (some a) = true

-- `opErr.Error()`, or the empty text.
abbrev pub message : Option String → String
message none = ""
message (some e) = e

abbrev pub exit_code : Option String → ℕ
exit_code none = 0
exit_code (some e) = 1

abbrev pub error_details : String → Details
error_details msg = if msg == "" then [] else ("error", Detail.text msg) ∷ []

-- The operation that an install row and its audit rows are about.
pub record Subject : Type 0 where
  pub action : Action
  pub step : String
  pub details : Details

abbrev pub with_first : Char.Char → Option String → Option String
with_first c none = none
with_first c (some s) = some (String.◌∷◌ c s)

-- The text before the first `/`.
unfoldable pub before_slash : String → Option String
before_slash String.[] = none
before_slash (String.◌∷◌ c s) =
    let rest = with_first c (before_slash s) in if eqb (Char.code c) 0x2f then some "" else rest

abbrev pub not_empty : Option String → Option String
not_empty none = none
not_empty (some s) = if s == "" then none else some s

-- `splitChartRepo`: none without a `/`, or with one at the start.
unfoldable pub split_chart_repo : String → Option String
unfolding before_slash
split_chart_repo chart = not_empty (before_slash chart)

abbrev pub factory_default_repos : List (String × String)
factory_default_repos =
    ("traefik", "https://traefik.github.io/charts")
    ∷ ("bitnami", "https://charts.bitnami.com/bitnami")
    ∷ ("grafana", "https://grafana.github.io/helm-charts")
    ∷ ("prometheus-community", "https://prometheus-community.github.io/helm-charts")
    ∷ []

-- The operator's repo of that name, or the factory's, or the empty text.
unfoldable pub repo_url : String → List Repo → String
repo_url name [] = get_or name "" factory_default_repos
repo_url name (r ∷ rs) = if r.name == name then r.url else repo_url name rs

abbrev pub ok_or_empty {ℓ} : {A : Type ℓ} → Result (List A) → List A
ok_or_empty (ok rs) = rs
ok_or_empty (err e) = []

module _ (env : Env) (t : AppTask) where
  abbrev pub finish_with : Subject → DeploymentStatus × Outcome → Option String → Exec (Unit {0})
  finish_with s verdict op_err = do
    ignore
        (statement env background λ now. finish_install now t.install_id verdict.0 (message op_err))
    audit env background t.actor s.action t.cluster_id verdict.1
        (("install_id", Detail.text t.install_id) ∷ s.details ++ error_details (message op_err))
    modify (emit t.install_id (ended_event s.step (exit_code op_err)))
    modify (emit t.install_id (complete_event verdict.0 (message op_err)))

  -- `finish`: `ctx.Err()` is read first, and the records are written on a fresh context.
  unfoldable pub finish : Subject → Option String → Exec (Unit {0})
  unfolding finish_status
  finish s op_err w =
      finish_with s (finish_status (ctx_done t.ctx w.clock) (is_some op_err)) op_err w

  -- `lookupRepoURL`
  unfoldable pub lookup_repo_url : String → Exec String
  unfolding repo_url
  lookup_repo_url name = do
    repos ← attempt (query env t.ctx λ db. ok (list_repos t.cluster_id db))
    pure (repo_url name (ok_or_empty repos))

  abbrev pub complain : String → Result (Unit {0}) → Exec (Unit {0})
  complain prefix (ok u) = pure tt
  complain prefix (err e) = say t (prefix <> error_text e <> "\n")

  abbrev pub add_known : String → String → Exec (Unit {0})
  add_known name url = if url == "" then pure tt else (do
    added ← attempt (repo_add env name url)
    complain ("helm repo add " <> name <> ": ") added
    ignore (repo_update env))

  abbrev pub add_found : Option String → Exec (Unit {0})
  add_found none = pure tt
  add_found (some name) = do url ← lookup_repo_url name; add_known name url

  -- The chart's repo is added anew for each run of helm; an error is only logged.
  unfoldable pub add_chart_repo : String → Exec (Unit {0})
  unfolding split_chart_repo lookup_repo_url
  add_chart_repo chart = add_found (split_chart_repo chart)
