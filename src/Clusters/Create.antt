-- ===== src/Clusters/Create.antt =====
-- `Handler.Create` of api/internal/clusters/handlers.go, with `FactoryRepos`. The body comes
-- decoded: the name and the profile, `none` for a text that is no JSON.
pub mod Laws
use bandolier.Prelude.{
  ℕ, String, Bool, false, not, ◌||◌, List, [], ◌∷◌, Option, none, some, ◌==◌, if◌then◌else◌,
}
use bandolier.Text.{error_text}
use bandolier.Status.{pending}
use bandolier.Store.Tables.{Cluster, Outcome, Detail, Details, cluster_create, app_repo_add}
use bandolier.Store.Audits.{nullable_int}
use bandolier.Store.Clusters.{create_cluster}
use bandolier.Result.{Error, Result, ok, err, duplicate_name}
use bandolier.Response.{
  Response, Reply, sent, refused, bad_request, conflict, server_error, not_implemented,
}
use bandolier.World.{Ctx, Env, World}
use bandolier.World.Exec.{Exec, pure, attempt, ◌>>=◌, ◌>>◌}
use bandolier.World.Calls.{statement}
use bandolier.Apps.Store.{create_repo}
use bandolier.Deployments.Effects.{audit}

pub record FactoryRepo : Type 0 where
  pub name : String
  pub url : String

abbrev factory : String → String → FactoryRepo
factory name url = record { name = name; url = url }

abbrev pub factory_repos : List FactoryRepo
factory_repos =
    factory "bitnami" "https://charts.bitnami.com/bitnami"
    ∷ factory "grafana" "https://grafana.github.io/helm-charts"
    ∷ factory "prometheus-community" "https://prometheus-community.github.io/helm-charts"
    ∷ factory "traefik" "https://traefik.github.io/charts"
    ∷ factory "longhorn" "https://charts.longhorn.io"
    ∷ factory "wikijs" "https://charts.js.wiki"
    ∷ []

abbrev pub named : FactoryRepo → Details → Details
named r rest = ("name", Detail.text r.name) ∷ ("url", Detail.text r.url) ∷ rest

-- `time.Now()` of the row, and the digits of `newID`.
abbrev pub new_cluster_row : Env → String → String → World → Cluster
new_cluster_row env name profile w = record {
  id = env.random_id w.clock;
  name = name;
  profile = profile;
  status = pending;
  created_at = w.clock;
  updated_at = w.clock;
  pending_forget = false;
}

module _ (env : Env) (ctx : Ctx) (uid : ℕ) where
  module _ (cluster_id : String) where
    abbrev pub seed_audited : FactoryRepo → Result ℕ → Exec (Unit {0})
    seed_audited r (err e) = audit env ctx uid app_repo_add cluster_id Outcome.failure (
        ("reason", Detail.text "seed_failed")
        ∷ named r (("error", Detail.text (error_text e)) ∷ []))
    seed_audited r (ok id) =
        audit env ctx uid app_repo_add cluster_id Outcome.success
          (named r (("factory", Detail.flag Bool.true) ∷ []))

    unfoldable pub seed_repos : List FactoryRepo → Exec (Unit {0})
    seed_repos [] = pure tt
    seed_repos (r ∷ rs) = do
      added ←
          attempt
            (statement env ctx λ now. create_repo now cluster_id r.name r.url (nullable_int uid))
      seed_audited r added
      seed_repos rs

  abbrev pub create_refused : String → Response → Exec (Reply Cluster)
  create_refused reason r = do
    audit env ctx uid cluster_create "" Outcome.failure (("reason", Detail.text reason) ∷ [])
    pure (refused r)

  abbrev pub row_created : Cluster → Result (Unit {0}) → Exec (Reply Cluster)
  row_created c (err duplicate_name) =
      create_refused "duplicate_name" (conflict "cluster name already exists")
  row_created c (err e) = create_refused "db_error" (server_error (error_text e))
  row_created c (ok u) = do
    seed_repos c.id factory_repos
    audit env ctx uid cluster_create c.id Outcome.success
        (("name", Detail.text c.name) ∷ ("profile", Detail.text c.profile) ∷ [])
    pure (sent c)

  unfoldable pub create_row : String → String → Exec (Reply Cluster)
  unfolding seed_repos
  create_row name profile w =
      let c = new_cluster_row env name profile w in
      (attempt (statement env ctx λ now. create_cluster now c) >>= row_created c) w

  unfoldable pub create_handler : Option (String × String) → Exec (Reply Cluster)
  unfolding create_row
  create_handler none = create_refused "invalid_json" (bad_request "invalid json")
  create_handler (some body) =
      if body.0 == "" || body.1 == ""
      then create_refused "missing_fields" (bad_request "name and profile required")
      else (if not (env.is_registered body.1)
          then create_refused "unknown_profile" (bad_request "unknown profile")
          else (if not (env.is_enabled body.1)
              then create_refused "profile_not_implemented"
                  (not_implemented "profile not yet implemented in this release")
              else create_row body.0 body.1))
