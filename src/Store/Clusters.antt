-- ===== src/Store/Clusters.antt =====
-- api/internal/store/clusters.go
use bandolier.Prelude.{
  ℕ, String, Bool, false, List, [], ◌∷◌, ◌++◌, none, some, ◌==◌, ◌||◌, if◌then◌else◌, keep, map,
  find_row, update_rows, delete_rows,
}
use bandolier.Status.{Status, ready, same_status}
use bandolier.Result.{Result, ok, err, not_found, duplicate_name, failure}
use bandolier.Store.Tables.{Cluster, Db}

-- Whether a row with this key is there.
abbrev pub has_row {ℓ} : {A : Type ℓ} → (A → String) → String → List A → Bool
has_row key k [] = false
has_row key k (r ∷ rs) = key r == k || has_row key k rs

-- The UNIQUE constraint on the name and the primary key decide whether the row is taken.
unfoldable pub create_cluster : ℕ → Cluster → Db → Result (Unit {0}) × Db
create_cluster now c db =
    if has_row (λ r. r.name) c.name db.clusters
    then (err duplicate_name, db)
    else (if has_row (λ r. r.id) c.id db.clusters
        then (err (failure "UNIQUE constraint failed: clusters.id"), db)
        else (
          ok tt,
          record db {
            clusters =
                db.clusters
                ++ record c { created_at = now; updated_at = now; pending_forget = false } ∷ [];
          },
        ))

unfoldable pub get_cluster : String → Db → Result Cluster
get_cluster id db = elim (find_row (λ r. r.id) id db.clusters) [
  | none ↦ err not_found
  | some c ↦ ok c
]

-- `ORDER BY created_at`: the order of insertion.
unfoldable pub list_clusters : Db → List Cluster
list_clusters db = db.clusters

-- `UPDATE clusters SET … WHERE id = ?`, and `ErrNotFound` when no row was affected.
unfoldable pub update_cluster : (Cluster → Cluster) → String → Db → Result (Unit {0}) × Db
update_cluster f id db =
    if has_row (λ r. r.id) id db.clusters
    then (ok tt, record db { clusters = update_rows (λ r. r.id) id f db.clusters })
    else (err not_found, db)

abbrev pub with_status : Status → ℕ → Cluster → Cluster
with_status s now c = record c { status = s; updated_at = now }

abbrev pub with_latch : Bool → ℕ → Cluster → Cluster
with_latch b now c = record c { pending_forget = b; updated_at = now }

unfoldable pub update_cluster_status : ℕ → String → Status → Db → Result (Unit {0}) × Db
unfolding update_cluster
update_cluster_status now id s db = update_cluster (with_status s now) id db

unfoldable pub set_pending_forget : ℕ → String → Bool → Db → Result (Unit {0}) × Db
unfolding update_cluster
set_pending_forget now id b db = update_cluster (with_latch b now) id db

-- `ON DELETE CASCADE` takes the deployments, repos and installs of the cluster with it.
unfoldable pub delete_cluster : String → Db → Result (Unit {0}) × Db
delete_cluster id db =
    if has_row (λ r. r.id) id db.clusters
    then (
      ok tt,
      record db {
        clusters = delete_rows (λ r. r.id) id db.clusters;
        deployments = delete_rows (λ d. d.cluster_id) id db.deployments;
        repos = delete_rows (λ r. r.cluster_id) id db.repos;
        installs = delete_rows (λ i. i.cluster_id) id db.installs;
      },
    )
    else (err not_found, db)

unfoldable pub list_ready_clusters : Db → List String
list_ready_clusters db = map (λ c. c.id) (keep (λ c. same_status c.status ready) db.clusters)
