-- ===== src/Clusters/Create/Laws.antt =====
-- Which clusters the handler creates.
use bandolier.Prelude.{
  ℕ, suc, String, Bool, true, false, not, ◌||◌, ◌≡◌, refl, List, [], ◌∷◌, ◌++◌, Option, none, some,
  ◌==◌, arith, ◌∙◌, if◌then◌else◌,
}
use bandolier.Status.{pending}
use bandolier.Store.Tables.{Db, Cluster, Outcome, Details, Action}
use bandolier.Store.Audits.{Entry, insert_audit_entry}
use bandolier.Store.Clusters.{create_cluster, has_row}
use bandolier.Result.{
  of_apps, Error, Result, ok, err, is_ok, not_found, duplicate_name, invalid_transition, locked,
  in_progress, not_cancellable, ctx_cancelled, failure,
}
use bandolier.Response.{Response, Reply, sent, refused}
use bandolier.World.{Ctx, Env, World}
use bandolier.World.Exec.{Exec}
use bandolier.World.Triples.{Spec, Spec-pure, Spec-bind, Spec-ignore, Spec-attempt, Ends, Ends-by}
use bandolier.World.Rules.{Ends-always}
use bandolier.World.Returns.{
  Never, Returns, SpecR, SpecR-bind, SpecR-pure, if-SpecR, statement_ok-Spec,
}
use bandolier.World.Attempts.{SpecR-attempt}
use bandolier.Clusters.Reconcile.Names.{create_repo-clusters}
use bandolier.Deployments.Effects.{audit}
use bandolier.Clusters.Create.{
  FactoryRepo, new_cluster_row, seed_audited, seed_repos, create_refused, row_created, create_row,
  create_handler,
}

abbrev pub Rows : List Cluster → World → Type 0
Rows cs w = w.db.clusters ≡ cs

audit-clusters :
    (now : ℕ) (e : Entry) (db : Db) → (insert_audit_entry now e db).1.clusters ≡ db.clusters
unfolding insert_audit_entry
audit-clusters now e db = ground arith

audit-Rows :
    {E : World → Type 0} (cs : List Cluster) (env : Env) (ctx : Ctx) (actor : ℕ) (action : Action)
    (target : String) (o : Outcome) (d : Details)
    → Spec (Rows cs) (Rows cs) E (audit env ctx actor action target o d)
unfolding audit
audit-Rows cs env ctx actor action target o d = Spec-ignore _ (
    statement_ok-Spec env ctx _ (λ w h. h)
      (λ w h. Ends-always (Rows cs) _ _ (rw (audit-clusters w.clock _ w.db) h)))

-- The row `c` was asked for, its profile can be deployed, and no cluster had its name.
pub record Created (env : Env) (body : Option (String × String)) (w₀ : World) (c : Cluster)
    (w : World) : Type 0 where
  pub asked : body ≡ some (c.name, c.profile)
  pub filled : (c.name == "" || c.profile == "") ≡ false
  pub registered : env.is_registered c.profile ≡ true
  pub enabled : env.is_enabled c.profile ≡ true
  pub free : has_row (λ r. r.name) c.name w₀.db.clusters ≡ false
  pub pending : c.status ≡ pending
  pub clusters : w.db.clusters ≡ w₀.db.clusters ++ c ∷ []

abbrev pub CreatedIf : Env → Option (String × String) → World → Reply Cluster → World → Type 0
CreatedIf env body w₀ (sent c) w = Created env body w₀ c w
CreatedIf env body w₀ (refused r) w = Rows w₀.db.clusters w

record At (n : ℕ) (cs : List Cluster) (w : World) : Type 0 where
  clock : w.clock ≡ n
  clusters : Rows cs w

create_cluster-ok :
    (now : ℕ) (c : Cluster) (db : Db)
    → is_ok (create_cluster now c db).0 ≡ true
    → (has_row (λ r. r.name) c.name db.clusters ≡ false)
      × ((create_cluster now c db).1.clusters
          ≡ db.clusters
            ++ record c { created_at = now; updated_at = now; pending_forget = false } ∷ [])
unfolding create_cluster
create_cluster-ok now c db h = ground arith

create_cluster-err :
    (now : ℕ) (c : Cluster) (db : Db)
    → is_ok (create_cluster now c db).0 ≡ false
    → (create_cluster now c db).1.clusters ≡ db.clusters
unfolding create_cluster
create_cluster-err now c db h = ground arith

record Fresh (cs : List Cluster) (c : Cluster) (w : World) : Type 0 where
  free : has_row (λ r. r.name) c.name cs ≡ false
  clusters : Rows (cs ++ c ∷ []) w

module _ (env : Env) (ctx : Ctx) (uid : ℕ) where
  seed_audited-Rows :
      {E : World → Type 0} (r : FactoryRepo) (added : Result ℕ) (id : String) (cs : List Cluster)
      → Spec (Rows cs) (Rows cs) E (seed_audited env ctx uid id r added)
  seed_audited-Rows r (ok n) id cs = audit-Rows cs env ctx uid _ id _ _
  seed_audited-Rows r (err e) id cs = audit-Rows cs env ctx uid _ id _ _

  seed_repos-Rows :
      {E : World → Type 0} (rs : List FactoryRepo) (id : String) (cs : List Cluster)
      → Spec (Rows cs) (Rows cs) E (seed_repos env ctx uid id rs)
  unfolding seed_repos
  seed_repos-Rows [] id cs = Spec-pure (λ w h. h) tt
  seed_repos-Rows (r ∷ rs) id cs =
      Spec-bind {Q = Rows cs} _ _
        (Spec-attempt _ (
          statement_ok-Spec env ctx _ (λ w h. h)
            (λ w h.
              Ends-always (Rows cs) _ _
                (rw (create_repo-clusters w.clock id r.name r.url _ w.db) h))))
        (λ added.
          Spec-bind {Q = Rows cs} _ _ (seed_audited-Rows r added id cs)
            (λ u. seed_repos-Rows rs id cs))

  module _ (body : Option (String × String)) (w₀ : World) where
    abbrev R : Reply Cluster → World → Type 0
    R = CreatedIf env body w₀

    refused-SpecR :
        (reason : String) (r : Response)
        → SpecR (Rows w₀.db.clusters) R Never (create_refused env ctx uid reason r)
    refused-SpecR reason r =
        SpecR-bind {Q = Rows w₀.db.clusters} _ _ (audit-Rows w₀.db.clusters env ctx uid _ "" _ _)
          (λ u. SpecR-pure _ (λ w h. h))

    failed-SpecR :
        (c : Cluster) (e : Error)
        → SpecR (Rows w₀.db.clusters) R Never (row_created env ctx uid c (err e))
    failed-SpecR c not_found = refused-SpecR _ _
    failed-SpecR c duplicate_name = refused-SpecR _ _
    failed-SpecR c invalid_transition = refused-SpecR _ _
    failed-SpecR c locked = refused-SpecR _ _
    failed-SpecR c in_progress = refused-SpecR _ _
    failed-SpecR c not_cancellable = refused-SpecR _ _
    failed-SpecR c (of_apps e) = refused-SpecR _ _
    failed-SpecR c ctx_cancelled = refused-SpecR _ _
    failed-SpecR c (failure s) = refused-SpecR _ _
    failed-SpecR c (Error.refused t) = refused-SpecR _ _

    done-SpecR :
        (c : Cluster)
        → ((w : World) → Rows (w₀.db.clusters ++ c ∷ []) w → Created env body w₀ c w)
        → SpecR (Rows (w₀.db.clusters ++ c ∷ [])) R Never (row_created env ctx uid c (ok tt))
    done-SpecR c make =
        let cs = w₀.db.clusters ++ c ∷ [] in
        SpecR-bind {Q = Rows cs} _ _ (seed_repos-Rows _ c.id cs) (λ u.
          SpecR-bind {Q = Rows cs} _ _ (audit-Rows cs env ctx uid _ c.id _ _)
            (λ u. SpecR-pure _ make))

    inserted :
        (name profile : String) (v w : World)
        → At v.clock w₀.db.clusters w
        → Ends
            (Fresh w₀.db.clusters (new_cluster_row env name profile v))
            (Rows w₀.db.clusters)
            (create_cluster w.clock (new_cluster_row env name profile v) w.db).0
            (record w {
              clock = suc w.clock;
              db = (create_cluster w.clock (new_cluster_row env name profile v) w.db).1;
            })
    inserted name profile v w p =
        let c = new_cluster_row env name profile v in
        Ends-by (Fresh w₀.db.clusters c) (Rows w₀.db.clusters) _ _
          (λ h.
            let (free, rows) = create_cluster-ok w.clock c w.db h in
            record {
              free = rw (← p.clusters) free;
              clusters = rw (rows, p.clusters, p.clock) refl;
            })
          (λ h. create_cluster-err w.clock c w.db h ∙ p.clusters)

    create_row-SpecR :
        (name profile : String)
        → body ≡ some (name, profile)
        → (name == "" || profile == "") ≡ false
        → env.is_registered profile ≡ true
        → env.is_enabled profile ≡ true
        → SpecR (Rows w₀.db.clusters) R Never (create_row env ctx uid name profile)
    unfolding create_row
    create_row-SpecR name profile asked filled registered enabled = record {
      at = λ v h.
          let c = new_cluster_row env name profile v in
          (SpecR-attempt (Fresh w₀.db.clusters c) (Rows w₀.db.clusters) _
              (row_created env ctx uid c)
              (statement_ok-Spec {P = At v.clock w₀.db.clusters} env ctx _ (λ w p. p.clusters)
                (λ w p. inserted name profile v w p))
              (λ u. record {
                at = λ w f.
                    (done-SpecR c (λ w rows. record {
                      asked = asked;
                      filled = filled;
                      registered = registered;
                      enabled = enabled;
                      free = f.free;
                      pending = refl;
                      clusters = rows;
                    })).at
                      w f.clusters;
              })
              (failed-SpecR c)).at
            v (record { clock = refl; clusters = h });
    }

    -- A test that guards an early return.
    passed-SpecR :
        (b : Bool) (m n : Exec (Reply Cluster))
        → SpecR (Rows w₀.db.clusters) R Never m
        → (b ≡ true → SpecR (Rows w₀.db.clusters) R Never n)
        → SpecR (Rows w₀.db.clusters) R Never (if not b then m else n)
    passed-SpecR true m n sm sn = sn refl
    passed-SpecR false m n sm sn = sm

    create-SpecR :
        (o : Option (String × String))
        → body ≡ o
        → SpecR (Rows w₀.db.clusters) R Never (create_handler env ctx uid o)
    unfolding create_handler
    create-SpecR none e = refused-SpecR _ _
    create-SpecR (some b) e =
        if-SpecR (b.0 == "" || b.1 == "") _ _ (λ empty. refused-SpecR _ _)
          (λ filled. passed-SpecR (env.is_registered b.1) _ _ (refused-SpecR _ _) (λ registered.
            passed-SpecR (env.is_enabled b.1) _ _ (refused-SpecR _ _)
              (λ enabled. create_row-SpecR b.0 b.1 e filled registered enabled)))

-- An answer 201 means that the body asked for the name and the profile of the answer, neither is
-- empty, the profile is registered and enabled, no cluster had the name, and the pending row of the
-- answer is the only change of the clusters. After any other answer they are as they were.
pub create_handler-CreatedIf :
    (env : Env) (ctx : Ctx) (uid : ℕ) (body : Option (String × String)) (w : World)
    → Returns
        (CreatedIf env body w)
        Never
        (create_handler env ctx uid body w).0
        (create_handler env ctx uid body w).1
create_handler-CreatedIf env ctx uid body w = (create-SpecR env ctx uid body w body refl).at w refl
