-- ===== src/Store/Deployments.antt =====
-- api/internal/store/deployments.go
use bandolier.Prelude.{
  ℕ, zero, suc, String, Bool, true, false, List, [], ◌∷◌, ◌++◌, Option, none, some, ◌==◌, ◌&&◌,
  if◌then◌else◌, keep, reverse, eqb, find_row, update_rows,
}
use bandolier.Result.{Result, ok, err, not_found, failure}
use bandolier.Store.Tables.{Deployment, DeploymentStatus, running, User, Db}
use bandolier.Store.Clusters.{has_row}

abbrev pub has_user : ℕ → List User → Bool
has_user u [] = false
has_user u (r ∷ rs) = if eqb r.id u then true else has_user u rs

-- `REFERENCES users(id)`: NULL refers to nobody.
abbrev pub actor_known : Option ℕ → Db → Bool
actor_known none db = true
actor_known (some u) db = has_user u db.users

-- The statement names six columns: `log_path` is not among them and stays NULL.
unfoldable pub create_deployment : ℕ → Deployment → Db → Result (Unit {0}) × Db
create_deployment now d db =
    if has_row (λ r. r.id) d.id db.deployments
    then (err (failure "UNIQUE constraint failed: deployments.id"), db)
    else (if has_row (λ r. r.id) d.cluster_id db.clusters && actor_known d.actor_id db
        then (
          ok tt,
          record db {
            deployments =
                db.deployments
                ++ record d {
                  started_at = some now;
                  finished_at = none;
                  error_message = none;
                  log_path = none;
                }
                  ∷ [];
          },
        )
        else (err (failure "FOREIGN KEY constraint failed"), db))

abbrev pub with_end : DeploymentStatus → ℕ → String → Deployment → Deployment
with_end s now msg d = record d { status = s; finished_at = some now; error_message = some msg }

-- No row affected is no error here.
unfoldable pub finish_deployment :
    ℕ → String → DeploymentStatus → String → Db → Result (Unit {0}) × Db
finish_deployment now id s msg db = (
  ok tt,
  record db { deployments = update_rows (λ d. d.id) id (with_end s now msg) db.deployments },
)

abbrev pub is_running : DeploymentStatus → Bool
is_running running = true
is_running _ = false

-- `ORDER BY started_at ASC`
unfoldable pub list_running_deployments : Db → List Deployment
list_running_deployments db = keep (λ d. is_running d.status) db.deployments

abbrev pub take {ℓ} : {A : Type ℓ} → ℕ → List A → List A
take zero xs = []
take (suc n) [] = []
take (suc n) (x ∷ xs) = x ∷ take n xs

-- `ORDER BY started_at DESC`, with a `LIMIT` only if `limit` is positive.
unfoldable pub list_deployments_for_cluster : String → ℕ → Db → List Deployment
list_deployments_for_cluster id limit db =
    let newest = reverse (keep (λ d. d.cluster_id == id) db.deployments) in
    if eqb limit 0 then newest else take limit newest

unfoldable pub get_deployment : String → Db → Result Deployment
get_deployment id db = elim (find_row (λ d. d.id) id db.deployments) [
  | none ↦ err not_found
  | some d ↦ ok d
]
