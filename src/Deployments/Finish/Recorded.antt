-- ===== src/Deployments/Finish/Recorded.antt =====
-- What the terminal statements do to the row of the deployment and to the cluster's status.
use bandolier.Prelude.{
  ℕ, String, true, ◌≡◌, refl, eq_refl, arith, List, [], ◌∷◌, some, find_row, find_row-update_rows,
}
use bandolier.Status.{Status}
use bandolier.Store.Tables.{Db, Cluster, Deployment, DeploymentStatus}
use bandolier.Store.Clusters.{has_row, update_cluster_status, update_cluster, with_status}
use bandolier.Store.Deployments.{finish_deployment, with_end}
use bandolier.Deployments.Outcome.{row_status, cluster_status}

-- The row of the deployment and the row of the cluster are there.
pub record Tracked (dep id : String) (db : Db) : Type 0 where
  pub deployment : Deployment
  pub is_deployment : find_row (λ d. d.id) dep db.deployments ≡ some deployment
  pub cluster : Cluster
  pub is_cluster : find_row (λ c. c.id) id db.clusters ≡ some cluster

-- They have these statuses.
pub record Recorded (dep id : String) (s : DeploymentStatus) (c : Status) (db : Db) : Type 0 where
  pub row : row_status dep db ≡ some s
  pub cluster : cluster_status id db ≡ some c

pub has_row-find_row :
    {A : Type 0} (key : A → String) (k : String) (rs : List A) (r : A)
    → find_row key k rs ≡ some r
    → has_row key k rs ≡ true
unfolding find_row
has_row-find_row key k [] r h = cc
has_row-find_row key k (s ∷ rs) r h = ground (arith, has_row-find_row key k rs r)

pub finish_deployment-row :
    (now : ℕ) (dep id : String) (s : DeploymentStatus) (msg : String) (db : Db)
    → Tracked dep id db
    → (row_status dep (finish_deployment now dep s msg db).1 ≡ some s)
      × Tracked dep id (finish_deployment now dep s msg db).1
unfolding finish_deployment
finish_deployment-row now dep id s msg db t = (
  rw
      (
        find_row-update_rows (λ d. d.id) (with_end s now msg) (λ d. refl) dep dep db.deployments,
        eq_refl,
        t.is_deployment,
      )
      refl,
  record {
    deployment = with_end s now msg t.deployment;
    is_deployment =
        rw
          (
            find_row-update_rows (λ d. d.id) (with_end s now msg) (λ d. refl) dep dep
                db.deployments,
            eq_refl,
            t.is_deployment,
          )
          refl;
    cluster = t.cluster;
    is_cluster = t.is_cluster;
  },
)

pub update_cluster_status-row :
    (now : ℕ) (dep id : String) (s : DeploymentStatus) (c : Status) (db : Db)
    → row_status dep db ≡ some s
    → Tracked dep id db
    → Recorded dep id s c (update_cluster_status now id c db).1
unfolding update_cluster_status update_cluster
update_cluster_status-row now dep id s c db h t = record {
  row = rw (has_row-find_row (λ r. r.id) id db.clusters t.cluster t.is_cluster) h;
  cluster =
      rw
        (
          has_row-find_row (λ r. r.id) id db.clusters t.cluster t.is_cluster,
          find_row-update_rows (λ r. r.id) (with_status c now) (λ r. refl) id id db.clusters,
          eq_refl,
          t.is_cluster,
        )
        refl;
}
