-- ===== src/Clusters/Forget/Laws.antt =====
-- What is left of a cluster that was forgotten.
use bandolier.Prelude.{
  ℕ, String, true, ◌≡◌, refl, ◌==◌, eq_refl, arith, List, [], ◌∷◌, none, find_row,
  find_row-delete_rows, keep, Bool-cases, inl, inr, delete_rows,
}
use bandolier.Status.{Status}
use bandolier.Result.{is_ok}
use bandolier.Store.Tables.{Db, Cluster, Deployment, Outcome, Details, Action}
use bandolier.Store.Clusters.{has_row, delete_cluster}
use bandolier.Store.Audits.{Entry, insert_audit_entry}
use bandolier.World.{Ctx, Env, World}
use bandolier.World.Triples.{Ends-ok, Spec, Spec-bind, Spec-ignore, Spec-catch, Spec-raise}
use bandolier.World.Rules.{any-Spec, Ends-always}
use bandolier.World.Returns.{statement_ok-Spec}
use bandolier.Clusters.Forget.{purge_vault_secrets, forget_cluster}
use bandolier.Deployments.Effects.{audit}

-- No row of the cluster is left, and no deployment of it.
pub record Gone (id : String) (db : Db) : Type 0 where
  pub cluster : find_row (λ c. c.id) id db.clusters ≡ none
  pub deployments : keep (λ d. d.cluster_id == id) db.deployments ≡ []

keep-delete_rows :
    (id : String) (ds : List Deployment)
    → keep (λ d. d.cluster_id == id) (delete_rows (λ d. d.cluster_id) id ds) ≡ []
unfolding delete_rows
keep-delete_rows id [] = refl
keep-delete_rows id (d ∷ ds) = ground (arith, keep-delete_rows id ds)

pub delete_cluster-Gone :
    (id : String) (db : Db)
    → is_ok (delete_cluster id db).0 ≡ true
    → Gone id (delete_cluster id db).1
unfolding delete_cluster
delete_cluster-Gone id db h = elim (Bool-cases (has_row (λ (c : Cluster). c.id) id db.clusters)) [
  | inl e ↦ rw e (record {
    cluster = rw (find_row-delete_rows (λ (c : Cluster). c.id) id id db.clusters, eq_refl) refl;
    deployments = keep-delete_rows id db.deployments;
  })
  | inr e ↦ absurd (ground arith)
]

audit-Gone :
    (now : ℕ) (e : Entry) (id : String) (db : Db)
    → Gone id db
    → Gone id (insert_audit_entry now e db).1
unfolding insert_audit_entry
audit-Gone now e id db g = record {
  cluster = ground (arith, g.cluster);
  deployments = ground (arith, g.deployments);
}

pub audit-Gone-Spec :
    {E : World → Type 0} (env : Env) (ctx : Ctx) (actor : ℕ) (action : Action) (id target : String)
    (o : Outcome) (d : Details)
    → Spec (λ w. Gone id w.db) (λ w. Gone id w.db) E (audit env ctx actor action target o d)
unfolding audit
audit-Gone-Spec env ctx actor action id target o d = Spec-ignore _ (
    statement_ok-Spec env ctx _ (λ w g. g)
      (λ w g. Ends-always (λ v. Gone id v.db) _ _ (audit-Gone w.clock _ id w.db g)))

-- The rows are gone whenever the deletion reports no error.
pub forget_cluster-Spec :
    {P : World → Type 0} (env : Env) (ctx : Ctx) (id name : String) (s : Status) (actor : ℕ)
    → Spec P (λ w. Gone id w.db) (λ v. Unit {0}) (forget_cluster env ctx id name s actor)
unfolding forget_cluster
forget_cluster-Spec env ctx id name s actor =
    Spec-bind {Q = λ v. Unit {0}} _ _ (any-Spec (purge_vault_secrets env ctx id)) (λ errs.
      Spec-bind {Q = λ w. Gone id w.db} _ _
        (Spec-catch {E' = λ v. Unit {0}} _ _
          (statement_ok-Spec env ctx _ (λ w p. tt)
            (λ w p.
              Ends-ok (λ v. Gone id v.db) (λ v. Unit {0}) _ _ (λ o. delete_cluster-Gone id w.db o)
                tt))
          (λ e. Spec-bind {Q = λ v. Unit {0}} _ _ (any-Spec _) (λ _. Spec-raise (λ w p. tt) e)))
        (λ _. audit-Gone-Spec env ctx actor _ id id _ _))
