-- ===== src/Deployments/Start/Rows.antt =====
-- The rows that a request leaves: the deployment's, and the status of the cluster.
use bandolier.Prelude.{
  ℕ, String, true, false, ◌≡◌, refl, ◌==◌, eq_refl, arith, List, [], ◌∷◌, none, some, find_row,
  find_row-append, Bool-cases, inl, inr, find_row-update_rows,
}
use bandolier.Status.{Status}
use bandolier.Result.{is_ok}
use bandolier.Store.Tables.{Db, DeploymentStatus, Deployment, Cluster}
use bandolier.Store.Clusters.{has_row, update_cluster_status, update_cluster, with_status}
use bandolier.Store.Deployments.{create_deployment}
use bandolier.Deployments.Outcome.{row_status, cluster_status}
use bandolier.Deployments.Finish.Recorded.{Recorded}

find_row-none :
    {A : Type 0} (key : A → String) (k : String) (rs : List A)
    → has_row key k rs ≡ false
    → find_row key k rs ≡ none
unfolding find_row
find_row-none key k [] h = refl
find_row-none key k (r ∷ rs) h = ground (arith, find_row-none key k rs)

find_row-some :
    {A : Type 0} (key : A → String) (k : String) (rs : List A)
    → has_row key k rs ≡ true
    → (r : A) × (find_row key k rs ≡ some r)
unfolding find_row
find_row-some key k [] h = cc
find_row-some key k (r ∷ rs) h = elim (Bool-cases (key r == k)) [
  | inl e ↦ (r, rw e refl)
  | inr e ↦ let (x, f) = find_row-some key k rs (ground arith) in (x, rw e f)
]

-- A row that was taken is there afterwards.
pub create_deployment-row :
    (now : ℕ) (d : Deployment) (db : Db)
    → is_ok (create_deployment now d db).0 ≡ true
    → row_status d.id (create_deployment now d db).1 ≡ some d.status
unfolding create_deployment
create_deployment-row now d db h = ground (
  arith,
  eq_refl d.id,
  find_row-none (λ (r : Deployment). r.id) d.id db.deployments,
  find_row-append (λ (r : Deployment). r.id) d.id db.deployments
      (record d {
        started_at = some now;
        finished_at = none;
        error_message = none;
        log_path = none;
      }),
)

set_status :
    (now : ℕ) (id : String) (c : Status) (db : Db)
    → has_row (λ (r : Cluster). r.id) id db.clusters ≡ true
    → cluster_status id (update_cluster_status now id c db).1 ≡ some c
unfolding update_cluster_status update_cluster
set_status now id c db h =
    let (r, f) = find_row-some (λ (r : Cluster). r.id) id db.clusters h in
    rw
      (
        h,
        find_row-update_rows (λ (r : Cluster). r.id) (with_status c now) (λ r. refl) id id
            db.clusters,
        eq_refl,
        f,
      )
      refl

pub update_cluster_status-Recorded :
    (now : ℕ) (dep id : String) (s : DeploymentStatus) (c : Status) (db : Db)
    → row_status dep db ≡ some s
    → is_ok (update_cluster_status now id c db).0 ≡ true
    → Recorded dep id s c (update_cluster_status now id c db).1
unfolding update_cluster_status update_cluster
update_cluster_status-Recorded now dep id s c db h k = record {
  row = ground arith;
  cluster = set_status now id c db (ground arith);
}
