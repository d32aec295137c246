-- ===== src/Deployments/Teardown/Forgets.antt =====
-- `runDestroy` with and without the cascade latch: the row of the cluster at its end.
use bandolier.Prelude.{String, Bool, true, false, ◌≡◌, refl, arith, [], some, find_row, map-some}
use bandolier.Status.{Status, destroyed}
use bandolier.Result.{Result, ok, err, is_ok}
use bandolier.Store.Tables.{Db, Cluster, DeploymentStatus, cluster_destroy}
use bandolier.Store.Clusters.{get_cluster, delete_cluster}
use bandolier.World.{Env, World}
use bandolier.World.Exec.{attempt}
use bandolier.World.Calls.{query, tick}
use bandolier.World.Triples.{
  Spec, Ends, Ends-either, Ends-sure, Spec-bind, Spec-attempt, Spec-modify, Spec-catch,
}
use bandolier.World.Rules.{IsQuiet, IsLive, statement_sure-Spec, query_quiet, bind-ok}
use bandolier.World.Returns.{Never, SpecR, SpecR-pure, const-Ends}
use bandolier.World.Attempts.{SpecR-attempt-query}
use bandolier.Clusters.Forget.{forget_cluster, purge_vault_secrets, purge_paths}
use bandolier.Clusters.Forget.Laws.{Gone, delete_cluster-Gone, audit-Gone-Spec}
use bandolier.Deployments.Effects.{emit, deregister, unlock_cluster}
use bandolier.Deployments.Finish.{Task, announce_success}
use bandolier.Deployments.Finish.Recorded.{has_row-find_row}
use bandolier.Deployments.Finish.Release.{unlock_cluster-db}
use bandolier.Deployments.Stable.{Stable}
use bandolier.Deployments.Teardown.{
  destroy_body, run_destroy, cascade_forget, forget_latched, forget_row,
}
use bandolier.Deployments.Teardown.Specs.{tear_down-Spec, print-Spec}
use bandolier.Deployments.Teardown.Forget.{delete_paths-Spec, report_forget-Spec}
use bandolier.Deployments.Teardown.Latch.{
  Latched, Latched-Stable, latch_of, record_success-Latched-Spec,
}
use bandolier.Deployments.Teardown.Cascade.{
  fail_latched-Spec, clear_set-Spec, emit_latched-Spec, clear_open,
}

found-latch :
    (id : String) (db : Db) (c : Cluster) (b : Bool)
    → get_cluster id db ≡ ok c
    → latch_of id db ≡ some b
    → c.pending_forget ≡ b
unfolding get_cluster
found-latch id db c b e h = ground arith

latched-found :
    (id : String) (db : Db) (b : Bool)
    → latch_of id db ≡ some b
    → (c : Cluster) × (find_row (λ r. r.id) id db.clusters ≡ some c)
latched-found id db b h =
    map-some (λ (c : Cluster). c.pending_forget) (find_row (λ c. c.id) id db.clusters) b h

row-found :
    (id : String) (db : Db) (c : Cluster)
    → find_row (λ r. r.id) id db.clusters ≡ some c
    → get_cluster id db ≡ ok c
unfolding get_cluster
row-found id db c f = ground arith

module _ (env : Env) (t : Task) where
  not-Latched-SpecR :
      {E : World → Type 0} (c : Cluster) (w : World)
      → c.pending_forget ≡ false
      → Latched t.cluster_id false w
      → SpecR
          (λ v. v.db ≡ w.db)
          (λ u v. Latched t.cluster_id false v)
          E
          (forget_latched env t (ok c))
  not-Latched-SpecR c w e l = rw e (SpecR-pure tt (λ v p. record { latch = rw p l.latch }))

  cascade_open-Spec :
      {E : World → Type 0}
      → Spec (Latched t.cluster_id false) (Latched t.cluster_id false) E (cascade_forget env t)
  unfolding cascade_forget
  cascade_open-Spec {E} = record {
    at = λ w l. const-Ends (Latched t.cluster_id false) E _ _ (
        (SpecR-attempt-query {P = λ v. v.db ≡ w.db} w.db env t.ctx (get_cluster t.cluster_id)
            (forget_latched env t) (λ v p. p) (λ v p. p)
            (λ c found.
              not-Latched-SpecR c w (found-latch t.cluster_id w.db c false found l.latch) l)
            (λ e. SpecR-pure tt (λ v p. record { latch = rw p l.latch }))).at
          w refl);
  }

  open_body-Spec :
      Spec
        (Latched t.cluster_id false)
        (Latched t.cluster_id false)
        (Latched t.cluster_id false)
        (destroy_body env t)
  unfolding destroy_body
  open_body-Spec =
      Spec-bind _ _
        (tear_down-Spec t (Latched-Stable t.dep_id t.cluster_id false) env
          (λ A msg. fail_latched-Spec env t false (clear_open env t) msg))
        (λ _.
          Spec-bind _ _
            (record_success-Latched-Spec env t.cluster_id false t destroyed cluster_destroy [])
            (λ _.
              Spec-bind _ _ cascade_open-Spec
                (λ _. emit_latched-Spec env t false DeploymentStatus.succeeded "")))

-- The database after a goroutine is the one after its body.
after_defers :
    (t : Task) (w : World) → (deregister t.dep_id (unlock_cluster t.cluster_id w)).db ≡ w.db
unfolding deregister
after_defers t w = unlock_cluster-db t.cluster_id w

-- Without the latch, a destroy never forgets the cluster: however it ends, and whatever the
-- commands, Vault and the database answer, the cluster's row is still there, its latch open.
pub run_destroy_keeps_row :
    (env : Env) (t : Task) (w : World)
    → latch_of t.cluster_id w.db ≡ some false
    → latch_of t.cluster_id (run_destroy env t w).1.db ≡ some false
unfolding run_destroy
run_destroy_keeps_row env t w open' =
    rw (after_defers t (destroy_body env t w).1)
      (Ends-either (Latched t.cluster_id false) (destroy_body env t w).0 (destroy_body env t w).1
        ((open_body-Spec env t).at w (record { latch = open' }))).latch

Gone-Stable : (dep id : String) → Stable dep (λ w. Gone id w.db)
unfolding emit
Gone-Stable dep id = record { on_emit = λ e w i g. g; on_call = λ v w g. g }

module _ (env : Env) (t : Task) (quiet : IsQuiet env) (live : IsLive t.ctx) where
  abbrev Set : World → Type 0
  Set = Latched t.cluster_id true

  abbrev Left : World → Type 0
  Left w = Gone t.cluster_id w.db

  delete_row :
      (id : String) (db : Db) → latch_of id db ≡ some true → is_ok (delete_cluster id db).0 ≡ true
  unfolding delete_cluster
  delete_row id db h =
      let (c, f) = latched-found id db true h in
      rw (has_row-find_row (λ (r : Cluster). r.id) id db.clusters c f) refl

  forget-Spec :
      (name : String) (s : Status)
      → Spec Set Left Left (forget_cluster env t.ctx t.cluster_id name s t.actor)
  unfolding forget_cluster purge_vault_secrets
  forget-Spec name s =
      Spec-bind {Q = Set} _ _
        (delete_paths-Spec (Latched-Stable t.dep_id t.cluster_id true) env t.ctx
          (purge_paths t.cluster_id))
        (λ errs.
          Spec-bind {Q = Left} _ _
            (Spec-catch {E' = Never} _ _
              (statement_sure-Spec env t.ctx quiet live _ (λ w l.
                Ends-sure Left Never _ _ (delete_row t.cluster_id w.db l.latch)
                  (delete_cluster-Gone t.cluster_id w.db (delete_row t.cluster_id w.db l.latch))))
              (λ e. record { at = λ w n. absurd n }))
            (λ _. audit-Gone-Spec env t.ctx t.actor _ t.cluster_id t.cluster_id _ _))

  forget_row-Spec : {E : World → Type 0} (c : Cluster) → Spec Set Left E (forget_row env t c)
  forget_row-Spec c =
      Spec-bind _ _ (print-Spec t (Latched-Stable t.dep_id t.cluster_id true) _) (λ _.
        Spec-bind _ _ (Spec-attempt _ (forget-Spec c.name destroyed))
          (report_forget-Spec t (Gone-Stable t.dep_id t.cluster_id) env))

  asked :
      (w : World) (c : Cluster)
      → find_row (λ r. r.id) t.cluster_id w.db.clusters ≡ some c
      → attempt (query env t.ctx (get_cluster t.cluster_id)) w ≡ (ok (ok c), tick w)
  unfolding attempt
  asked w c f =
      rw
        (
          query_quiet env t.ctx (get_cluster t.cluster_id) w quiet.sql (live.never w.clock),
          row-found t.cluster_id w.db c f,
        )
        refl

  announce_gone-Spec : {E : World → Type 0} → Spec Left Left E (announce_success t)
  unfolding emit
  announce_gone-Spec = Spec-modify _ (λ w g. g)

  cascade_set-Spec : {E : World → Type 0} → Spec Set Left E (cascade_forget env t)
  unfolding cascade_forget
  cascade_set-Spec {E} = record {
    at = λ w l.
        let (c, f) = latched-found t.cluster_id w.db true l.latch in
        rw
          (bind-ok (attempt (query env t.ctx (get_cluster t.cluster_id))) (forget_latched env t)
            (ok c) w (tick w) (asked w c f))
          (rw (found-latch t.cluster_id w.db c true (row-found t.cluster_id w.db c f) l.latch)
            ((forget_row-Spec {E = E} c).at (tick w) (record { latch = l.latch })));
  }

  set_body-Spec : Spec Set Left (Latched t.cluster_id false) (destroy_body env t)
  unfolding destroy_body
  set_body-Spec =
      Spec-bind _ _
        (tear_down-Spec t (Latched-Stable t.dep_id t.cluster_id true) env
          (λ A msg. fail_latched-Spec env t true (clear_set-Spec env t true quiet) msg))
        (λ _.
          Spec-bind _ _
            (record_success-Latched-Spec env t.cluster_id true t destroyed cluster_destroy [])
            (λ _. Spec-bind _ _ cascade_set-Spec (λ _. announce_gone-Spec)))

-- The end of a destroy that was to forget the cluster: the rows are gone if it ran through, and the
-- latch is open if it failed.
abbrev pub Forgotten : String → Result (Unit {0}) → World → Type 0
Forgotten id (ok u) w = Gone id w.db
Forgotten id (err e) w = latch_of id w.db ≡ some false

defers-Forgotten :
    (t : Task) (r : Result (Unit {0})) (w : World)
    → Ends (λ v. Gone t.cluster_id v.db) (Latched t.cluster_id false) r w
    → Forgotten t.cluster_id r (deregister t.dep_id (unlock_cluster t.cluster_id w))
defers-Forgotten t (ok u) w g = rw (after_defers t w) g
defers-Forgotten t (err e) w l = rw (after_defers t w) l.latch

-- No statement fails, the destroy is never cancelled, and the latch of its cluster was set: if the
-- destroy runs through, then the cluster's row and its deployments are gone; if a step fails, then
-- the row is there with the latch open, so that the next plain destroy does not forget it.
pub run_destroy-Forgotten :
    (env : Env) (t : Task) (w : World)
    → IsQuiet env
    → IsLive t.ctx
    → latch_of t.cluster_id w.db ≡ some true
    → Forgotten t.cluster_id (run_destroy env t w).0 (run_destroy env t w).1
unfolding run_destroy
run_destroy-Forgotten env t w quiet live set =
    defers-Forgotten t (destroy_body env t w).0 (destroy_body env t w).1
      ((set_body-Spec env t quiet live).at w (record { latch = set }))
