-- ===== src/Store/Integrity.antt =====
-- The keys and the references of the schema in store/migrations, under the statements of the store.
use bandolier.Prelude.{
  ℕ, String, Bool, true, ◌≡◌, refl, List, [], ◌∷◌, ◌&&◌, eq_iff, arith, All, All-append,
  update_rows, delete_rows, Bool-cases, inl, inr,
}
use bandolier.Status.{Status}
use bandolier.Store.Tables.{Cluster, Deployment, DeploymentStatus, Db}
use bandolier.Store.Clusters.{
  has_row, create_cluster, update_cluster, update_cluster_status, set_pending_forget,
  delete_cluster, with_status, with_latch,
}
use bandolier.Store.Deployments.{create_deployment, finish_deployment, actor_known, with_end}
use bandolier.Store.Audits.{Entry, insert_audit_entry}
use bandolier.Store.Keys.{
  Distinct, has_row-append, has_row-update_rows, has_row-delete_rows, Distinct-append,
  Distinct-update_rows, Distinct-keep,
}

abbrev cluster_id : Cluster → String
cluster_id c = c.id

abbrev cluster_name : Cluster → String
cluster_name c = c.name

abbrev deployment_id : Deployment → String
deployment_id d = d.id

-- `REFERENCES clusters(id)`: the cluster of the deployment is there.
abbrev pub Refers : List Cluster → Deployment → Type 0
Refers cs d = has_row (λ c. c.id) d.cluster_id cs ≡ true

pub record IsSound (db : Db) : Type 0 where
  pub cluster_ids : Distinct (λ c. c.id) db.clusters
  pub cluster_names : Distinct (λ c. c.name) db.clusters
  pub deployment_ids : Distinct (λ d. d.id) db.deployments
  pub references : All (Refers db.clusters) db.deployments

Refers-All :
    (cs cs' : List Cluster)
    → ((k : String) → has_row cluster_id k cs ≡ true → has_row cluster_id k cs' ≡ true)
    → (ds : List Deployment) → All (Refers cs) ds
    → All (Refers cs') ds
Refers-All cs cs' m [] h = tt
Refers-All cs cs' m (d ∷ ds) h = (m d.cluster_id h.0, Refers-All cs cs' m ds h.1)

Refers-update_rows :
    (cs : List Cluster) (f : Deployment → Deployment)
    → ((d : Deployment) → (f d).cluster_id ≡ d.cluster_id)
    → (j : String) (ds : List Deployment) → All (Refers cs) ds
    → All (Refers cs) (update_rows deployment_id j f ds)
unfolding update_rows
Refers-update_rows cs f same j [] h = tt
Refers-update_rows cs f same j (d ∷ ds) h =
    ground (arith, same d, Refers-update_rows cs f same j ds)

Refers-delete_rows :
    (cs : List Cluster) (j : String) (ds : List Deployment)
    → All (Refers cs) ds
    → All (Refers (delete_rows cluster_id j cs)) (delete_rows (λ d. d.cluster_id) j ds)
unfolding delete_rows
Refers-delete_rows cs j [] h = tt
Refers-delete_rows cs j (d ∷ ds) h = ground (
  arith,
  eq_iff d.cluster_id j,
  eq_iff j d.cluster_id,
  has_row-delete_rows cluster_id d.cluster_id j cs,
  Refers-delete_rows cs j ds,
)

create_cluster-IsSound :
    (now : ℕ) (c : Cluster) (db : Db) → IsSound db → IsSound (create_cluster now c db).1
unfolding create_cluster
create_cluster-IsSound now c db h = elim (Bool-cases (has_row cluster_name c.name db.clusters)) [
  | inl dup ↦ rw dup h
  | inr fresh ↦ elim (Bool-cases (has_row cluster_id c.id db.clusters)) [
    | inl dup ↦ rw fresh (rw dup h)
    | inr fresh_id ↦ rw fresh (
        rw fresh_id (record {
          cluster_ids = Distinct-append cluster_id db.clusters _ fresh_id h.cluster_ids;
          cluster_names = Distinct-append cluster_name db.clusters _ fresh h.cluster_names;
          deployment_ids = h.deployment_ids;
          references =
              Refers-All db.clusters _
                (λ k e. rw (has_row-append cluster_id k db.clusters _) (ground arith))
                db.deployments h.references;
        }))
  ]
]

update_cluster-IsSound :
    (f : Cluster → Cluster) (id : String) (db : Db)
    → ((c : Cluster) → (f c).id ≡ c.id)
    → ((c : Cluster) → (f c).name ≡ c.name)
    → IsSound db
    → IsSound (update_cluster f id db).1
unfolding update_cluster
update_cluster-IsSound f id db same_id same_name h =
    elim (Bool-cases (has_row cluster_id id db.clusters)) [
      | inl there ↦ rw there (record {
        cluster_ids =
            Distinct-update_rows cluster_id cluster_id f same_id id db.clusters h.cluster_ids;
        cluster_names =
            Distinct-update_rows cluster_name cluster_id f same_name id db.clusters h.cluster_names;
        deployment_ids = h.deployment_ids;
        references =
            Refers-All db.clusters _
              (λ k e. rw (has_row-update_rows cluster_id cluster_id f same_id k id db.clusters) e)
              db.deployments h.references;
      })
      | inr missing ↦ rw missing h
    ]

delete_cluster-IsSound : (id : String) (db : Db) → IsSound db → IsSound (delete_cluster id db).1
unfolding delete_cluster delete_rows
delete_cluster-IsSound id db h = elim (Bool-cases (has_row cluster_id id db.clusters)) [
  | inl there ↦ rw there (record {
    cluster_ids = Distinct-keep cluster_id _ db.clusters h.cluster_ids;
    cluster_names = Distinct-keep cluster_name _ db.clusters h.cluster_names;
    deployment_ids = Distinct-keep deployment_id _ db.deployments h.deployment_ids;
    references = Refers-delete_rows db.clusters id db.deployments h.references;
  })
  | inr missing ↦ rw missing h
]

create_deployment-IsSound :
    (now : ℕ) (d : Deployment) (db : Db) → IsSound db → IsSound (create_deployment now d db).1
unfolding create_deployment
create_deployment-IsSound now d db h =
    elim (Bool-cases (has_row deployment_id d.id db.deployments)) [
      | inl dup ↦ rw dup h
      | inr fresh ↦
          elim (Bool-cases
            (has_row cluster_id d.cluster_id db.clusters && actor_known d.actor_id db)) [
              | inl known ↦ rw fresh (
                  rw known (record {
                    cluster_ids = h.cluster_ids;
                    cluster_names = h.cluster_names;
                    deployment_ids =
                        Distinct-append deployment_id db.deployments _ fresh h.deployment_ids;
                    references =
                        All-append (Refers db.clusters) db.deployments _ h.references
                          (ground arith, tt);
                  }))
              | inr unknown ↦ rw fresh (rw unknown h)
            ]
    ]

finish_deployment-IsSound :
    (now : ℕ) (id : String) (s : DeploymentStatus) (msg : String) (db : Db)
    → IsSound db
    → IsSound (finish_deployment now id s msg db).1
unfolding finish_deployment
finish_deployment-IsSound now id s msg db h = record {
  cluster_ids = h.cluster_ids;
  cluster_names = h.cluster_names;
  deployment_ids =
      Distinct-update_rows deployment_id deployment_id (with_end s now msg) (λ d. refl) id
        db.deployments h.deployment_ids;
  references =
      Refers-update_rows db.clusters (with_end s now msg) (λ d. refl) id db.deployments
        h.references;
}

insert_audit_entry-IsSound :
    (now : ℕ) (e : Entry) (db : Db) → IsSound db → IsSound (insert_audit_entry now e db).1
unfolding insert_audit_entry
insert_audit_entry-IsSound now e db h = ground arith

-- The statements of the store that change clusters, deployments or the audit log.
pub data Statement : Type 0 where
  add_cluster : Cluster → Statement
  set_status : String → Status → Statement
  set_latch : String → Bool → Statement
  drop_cluster : String → Statement
  add_deployment : Deployment → Statement
  end_deployment : String → DeploymentStatus → String → Statement
  add_audit : Entry → Statement

unfoldable pub execute : ℕ → Statement → Db → Db
execute now (add_cluster c) db = (create_cluster now c db).1
execute now (set_status id s) db = (update_cluster_status now id s db).1
execute now (set_latch id b) db = (set_pending_forget now id b db).1
execute now (drop_cluster id) db = (delete_cluster id db).1
execute now (add_deployment d) db = (create_deployment now d db).1
execute now (end_deployment id s msg) db = (finish_deployment now id s msg db).1
execute now (add_audit e) db = (insert_audit_entry now e db).1

execute-IsSound : (now : ℕ) (s : Statement) (db : Db) → IsSound db → IsSound (execute now s db)
unfolding execute update_cluster_status set_pending_forget
execute-IsSound now (add_cluster c) db h = create_cluster-IsSound now c db h
execute-IsSound now (set_status id s) db h =
    update_cluster-IsSound (with_status s now) id db (λ c. refl) (λ c. refl) h
execute-IsSound now (set_latch id b) db h =
    update_cluster-IsSound (with_latch b now) id db (λ c. refl) (λ c. refl) h
execute-IsSound now (drop_cluster id) db h = delete_cluster-IsSound id db h
execute-IsSound now (add_deployment d) db h = create_deployment-IsSound now d db h
execute-IsSound now (end_deployment id s msg) db h = finish_deployment-IsSound now id s msg db h
execute-IsSound now (add_audit e) db h = insert_audit_entry-IsSound now e db h

unfoldable pub execute_all : List (ℕ × Statement) → Db → Db
execute_all [] db = db
execute_all ((now, s) ∷ rest) db = execute_all rest (execute now s db)

-- From a sound database, any sequence of statements leads to a sound one: cluster ids, cluster
-- names and deployment ids stay unique, and no deployment refers to a cluster that is gone.
pub execute_all-IsSound :
    (ss : List (ℕ × Statement)) (db : Db) → IsSound db → IsSound (execute_all ss db)
unfolding execute_all
execute_all-IsSound [] db h = h
execute_all-IsSound ((now, s) ∷ rest) db h =
    execute_all-IsSound rest (execute now s db) (execute-IsSound now s db h)
