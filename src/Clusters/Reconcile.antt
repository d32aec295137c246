-- ===== src/Clusters/Reconcile.antt =====
-- `ReconcileFactoryRepos` of api/internal/clusters/factory_repo_reconcile.go. The log is left out.
pub mod Names
pub mod Laws
use bandolier.Prelude.{String, Bool, false, ◌||◌, List, [], ◌∷◌, none, ◌==◌, if◌then◌else◌}
use bandolier.Store.Tables.{Cluster, Repo}
use bandolier.Store.Clusters.{list_clusters}
use bandolier.Result.{Result, ok, err}
use bandolier.World.{Ctx, Env}
use bandolier.World.Exec.{Exec, pure, attempt, ignore, ◌>>=◌, ◌>>◌}
use bandolier.World.Calls.{statement, query}
use bandolier.Apps.Store.{create_repo, list_repos}
use bandolier.Clusters.Create.{FactoryRepo, factory_repos}

-- `existingNames[name]`
abbrev pub has_existing : String → List Repo → Bool
has_existing name [] = false
has_existing name (r ∷ rs) = r.name == name || has_existing name rs

module _ (env : Env) (ctx : Ctx) where
  -- A repo that cannot be added is passed over.
  unfoldable pub add_missing : String → List Repo → List FactoryRepo → Exec (Unit {0})
  add_missing cluster_id existing [] = pure tt
  add_missing cluster_id existing (r ∷ rs) = do
    (if has_existing r.name existing
        then pure tt
        else ignore (statement env ctx λ now. create_repo now cluster_id r.name r.url none))
    add_missing cluster_id existing rs

  abbrev pub reconcile_listed : String → Result (List Repo) → Exec (Unit {0})
  reconcile_listed cluster_id (err e) = pure tt
  reconcile_listed cluster_id (ok existing) = add_missing cluster_id existing factory_repos

  unfoldable pub reconcile_each : List Cluster → Exec (Unit {0})
  unfolding add_missing
  reconcile_each [] = pure tt
  reconcile_each (c ∷ cs) = do
    existing ← attempt (query env ctx λ db. ok (list_repos c.id db))
    reconcile_listed c.id existing
    reconcile_each cs

  unfoldable pub reconcile_factory_repos : Exec (Unit {0})
  unfolding reconcile_each
  reconcile_factory_repos = do
    clusters ← query env ctx λ db. ok (list_clusters db)
    reconcile_each clusters
