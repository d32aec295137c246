-- ===== src/Deployments/Teardown/Latch.antt =====
-- The column pending_forget under the statements that `runDestroy` makes.
use mathlib.Core.Option
use bandolier.Prelude.{
  ℕ, String, Bool, true, false, ◌≡◌, refl, arith, Option, some, find_row, find_row-update_rows,
}
use bandolier.Status.{Status}
use bandolier.Result.{Result}
use bandolier.Store.Tables.{Db, Cluster, DeploymentStatus, Action, Outcome, Details}
use bandolier.Store.Clusters.{
  update_cluster, update_cluster_status, set_pending_forget, with_status, with_latch,
}
use bandolier.Store.Deployments.{finish_deployment}
use bandolier.Store.Audits.{Entry, insert_audit_entry}
use bandolier.World.{Ctx, Env, World}
use bandolier.World.Exec.{ignore}
use bandolier.World.Calls.{statement, background}
use bandolier.World.Triples.{Spec, Spec-bind, Spec-ignore, Spec-pure}
use bandolier.World.Rules.{Ends-always}
use bandolier.World.Returns.{statement_ok-Spec}
use bandolier.Deployments.Effects.{audit, emit}
use bandolier.Deployments.Finish.{Task, record_failure, record_success}
use bandolier.Deployments.Stable.{Stable}
use bandolier.Deployments.Teardown.{audit_latch}

-- The row of the cluster is there, and its latch is `b`.
abbrev pub latch_of : String → Db → Option Bool
latch_of id db =
    Option.map (λ (c : Cluster). c.pending_forget) (find_row (λ c. c.id) id db.clusters)

pub record Latched (id : String) (b : Bool) (w : World) : Type 0 where
  pub latch : latch_of id w.db ≡ some b

pub Latched-Stable : (dep id : String) (b : Bool) → Stable dep (Latched id b)
unfolding emit
Latched-Stable dep id b = record {
  on_emit = λ e w i l. record { latch = l.latch };
  on_call = λ v w l. record { latch = l.latch };
}

finish_deployment-latch :
    (now : ℕ) (dep id : String) (s : DeploymentStatus) (msg : String) (db : Db) (b : Bool)
    → latch_of id db ≡ some b
    → latch_of id (finish_deployment now dep s msg db).1 ≡ some b
unfolding finish_deployment
finish_deployment-latch now dep id s msg db b h = h

update_cluster_status-latch :
    (now : ℕ) (j id : String) (s : Status) (db : Db) (b : Bool)
    → latch_of id db ≡ some b
    → latch_of id (update_cluster_status now j s db).1 ≡ some b
unfolding update_cluster_status update_cluster
update_cluster_status-latch now j id s db b h = ground (
  arith,
  find_row-update_rows (λ (c : Cluster). c.id) (with_status s now) (λ c. refl) j id db.clusters,
)

insert_audit_entry-latch :
    (now : ℕ) (e : Entry) (id : String) (db : Db) (b : Bool)
    → latch_of id db ≡ some b
    → latch_of id (insert_audit_entry now e db).1 ≡ some b
unfolding insert_audit_entry
insert_audit_entry-latch now e id db b h = ground arith

module _ (env : Env) (id : String) (b : Bool) where
  keeps-Spec :
      {E : World → Type 0} (ctx : Ctx) (body : ℕ → Db → Result (Unit {0}) × Db)
      → ((now : ℕ) (db : Db) → latch_of id db ≡ some b → latch_of id (body now db).1 ≡ some b)
      → Spec (Latched id b) (Latched id b) E (ignore (statement env ctx body))
  keeps-Spec ctx body h = Spec-ignore _ (
      statement_ok-Spec env ctx body (λ w l. record { latch = l.latch })
        (λ w l. Ends-always (Latched id b) _ _ (record { latch = h w.clock w.db l.latch })))

  pub audit-Latched-Spec :
      {E : World → Type 0} (ctx : Ctx) (actor : ℕ) (action : Action) (target : String) (o : Outcome)
      (d : Details)
      → Spec (Latched id b) (Latched id b) E (audit env ctx actor action target o d)
  unfolding audit
  audit-Latched-Spec ctx actor action target o d =
      keeps-Spec ctx _ (λ now db h. insert_audit_entry-latch now _ id db b h)

  pub record_failure-Latched-Spec :
      {E : World → Type 0} (t : Task) (s : DeploymentStatus) (msg : String)
      → Spec (Latched id b) (Latched id b) E (record_failure env t s msg)
  unfolding record_failure
  record_failure-Latched-Spec t s msg =
      Spec-bind _ _
        (keeps-Spec background _ (λ now db h. finish_deployment-latch now t.dep_id id s msg db b h))
        (λ _.
          keeps-Spec background _
            (λ now db h. update_cluster_status-latch now t.cluster_id id _ db b h))

  pub record_success-Latched-Spec :
      {E : World → Type 0} (t : Task) (target : Status) (action : Action) (d : Details)
      → Spec (Latched id b) (Latched id b) E (record_success env t target action d)
  unfolding record_success
  record_success-Latched-Spec t target action d =
      Spec-bind _ _
        (keeps-Spec t.ctx _ (λ now db h.
          finish_deployment-latch now t.dep_id id DeploymentStatus.succeeded "" db b h))
        (λ _.
          Spec-bind _ _
            (keeps-Spec t.ctx _
              (λ now db h. update_cluster_status-latch now t.cluster_id id target db b h))
            (λ _. audit-Latched-Spec t.ctx t.actor action t.cluster_id Outcome.succeeded d))

  pub audit_latch-Latched-Spec :
      {E : World → Type 0} (t : Task) (had : Bool)
      → Spec (Latched id b) (Latched id b) E (audit_latch env t had)
  audit_latch-Latched-Spec t false = Spec-pure (λ w l. l) tt
  audit_latch-Latched-Spec t true = audit-Latched-Spec background t.actor _ t.cluster_id _ _

-- An open latch stays open, whatever becomes of the statement that clears it.
set_pending_forget-latch :
    (now : ℕ) (j id : String) (db : Db)
    → latch_of id db ≡ some false
    → latch_of id (set_pending_forget now j false db).1 ≡ some false
unfolding set_pending_forget update_cluster
set_pending_forget-latch now j id db h = ground (
  arith,
  find_row-update_rows (λ (c : Cluster). c.id) (with_latch false now) (λ c. refl) j id db.clusters,
)

pub clear_open-Spec :
    {E : World → Type 0} (env : Env) (ctx : Ctx) (id j : String)
    → Spec
        (Latched id false)
        (Latched id false)
        E
        (ignore (statement env ctx λ now. set_pending_forget now j false))
clear_open-Spec env ctx id j =
    keeps-Spec env id false ctx _ (λ now db h. set_pending_forget-latch now j id db h)
