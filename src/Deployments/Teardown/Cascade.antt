-- ===== src/Deployments/Teardown/Cascade.antt =====
-- The closure `fail` of `runDestroy` and the cascade latch.
use bandolier.Prelude.{
  ℕ, String, Bool, true, false, ◌≡◌, refl, eq_refl, some, find_row, find_row-update_rows, map-some,
}
use bandolier.Result.{failure}
use bandolier.Store.Tables.{Db, Cluster, DeploymentStatus, Outcome, cluster_destroy}
use bandolier.Store.Clusters.{update_cluster, set_pending_forget, with_latch}
use bandolier.World.{Env, World}
use bandolier.World.Exec.{modify}
use bandolier.World.Calls.{background, ctx_done}
use bandolier.World.Triples.{Spec, Spec-bind, Spec-attempt, Spec-modify, Spec-raise}
use bandolier.World.Rules.{IsQuiet, background-IsLive, statement_live-Spec, Ends-always}
use bandolier.Deployments.Effects.{emit, complete_event, finish_status}
use bandolier.Deployments.Finish.{Task}
use bandolier.Deployments.Finish.Recorded.{has_row-find_row}
use bandolier.Deployments.Stable.{query-Spec}
use bandolier.Deployments.Teardown.{clear_latch, fail_destroy, fail_destroy_with, had_latch}
use bandolier.Deployments.Teardown.Latch.{
  Latched, Latched-Stable, latch_of, record_failure-Latched-Spec, audit-Latched-Spec,
  audit_latch-Latched-Spec, clear_open-Spec,
}

-- Where the row is there, the statement that clears the latch clears it.
set_pending_forget-open :
    (now : ℕ) (id : String) (db : Db) (b : Bool)
    → latch_of id db ≡ some b
    → latch_of id (set_pending_forget now id false db).1 ≡ some false
unfolding set_pending_forget update_cluster
set_pending_forget-open now id db b h =
    let (r, f) =
      map-some (λ (c : Cluster). c.pending_forget) (find_row (λ c. c.id) id db.clusters) b h in
    rw
      (
        has_row-find_row (λ c. c.id) id db.clusters r f,
        find_row-update_rows (λ (c : Cluster). c.id) (with_latch false now) (λ c. refl) id id
            db.clusters,
        eq_refl,
        f,
      )
      refl

module _ (env : Env) (t : Task) where
  abbrev Latch : Bool → World → Type 0
  Latch b = Latched t.cluster_id b

  pub clear_set-Spec :
      {E : World → Type 0} (b : Bool)
      → IsQuiet env
      → Spec (Latch b) (Latch false) E (clear_latch env t)
  unfolding clear_latch
  clear_set-Spec b quiet = statement_live-Spec env background quiet background-IsLive _ (λ w l.
      Ends-always (Latch false) _ _
        (record { latch = set_pending_forget-open w.clock t.cluster_id w.db b l.latch }))

  pub emit_latched-Spec :
      {E : World → Type 0} (b : Bool) (s : DeploymentStatus) (msg : String)
      → Spec (Latch b) (Latch b) E (modify (emit t.dep_id (complete_event s msg)))
  unfolding emit
  emit_latched-Spec b s msg = Spec-modify _ (λ w l. record { latch = l.latch })

  module _ (b : Bool) (clear : Spec (Latch b) (Latch false) (Latch false) (clear_latch env t)) where
    fail_with_latched-Spec :
        {A : Type 0} {Q : World → Type 0} (s : DeploymentStatus) (o : Outcome) (msg : String)
        → Spec (Latch b) Q (Latch false) (fail_destroy_with env t {A = A} (s, o) msg)
    unfolding fail_destroy_with
    fail_with_latched-Spec {A} {Q} s o msg =
        Spec-bind {Q = Latch b} _ _ (record_failure-Latched-Spec env t.cluster_id b t s msg) (λ _.
          Spec-bind {Q = Latch b} _ _
            (Spec-attempt _ (query-Spec (Latched-Stable t.dep_id t.cluster_id b) env background _))
            (λ c. Spec-bind {Q = Latch false} _ _ clear (λ _.
              Spec-bind {Q = Latch false} _ _
                (audit-Latched-Spec env t.cluster_id false background t.actor cluster_destroy
                  t.cluster_id o _)
                (λ _.
                  Spec-bind {Q = Latch false} _ _
                    (audit_latch-Latched-Spec env t.cluster_id false t (had_latch c))
                    (λ _.
                      Spec-bind {Q = Latch false} _ _ (emit_latched-Spec false s msg)
                        (λ _. Spec-raise (λ w k. k) (failure msg)))))))

    pub fail_latched-Spec :
        {A : Type 0} {Q : World → Type 0} (msg : String)
        → Spec (Latch b) Q (Latch false) (fail_destroy env t {A = A} msg)
    unfolding fail_destroy
    fail_latched-Spec {A} {Q} msg = record {
      at = λ w l.
          (fail_with_latched-Spec {A = A} {Q = Q} (finish_status (ctx_done t.ctx w.clock) true).0
              (finish_status (ctx_done t.ctx w.clock) true).1 msg).at
            w l;
    }

-- A latch that is open stays open in any case.
pub clear_open :
    (env : Env) (t : Task)
    → Spec
        (Latched t.cluster_id false)
        (Latched t.cluster_id false)
        (Latched t.cluster_id false)
        (clear_latch env t)
unfolding clear_latch
clear_open env t = clear_open-Spec env background t.cluster_id t.cluster_id
