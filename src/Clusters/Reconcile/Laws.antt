-- ===== src/Clusters/Reconcile/Laws.antt =====
-- After a reconciliation no factory repo is missing.
use bandolier.Prelude.{
  String, Bool, true, false, ◌&&◌, ◌≡◌, refl, List, [], ◌∷◌, none, arith, ◌∙◌, sym, eq_refl,
  if◌then◌else◌,
}
use bandolier.Store.Tables.{Cluster, Repo}
use bandolier.Store.Clusters.{has_row, list_clusters}
use bandolier.Result.{Result, ok}
use bandolier.World.{Ctx, Env, World}
use bandolier.World.Exec.{Exec, pure, attempt, ignore, ◌>>=◌}
use bandolier.World.Calls.{statement, query, tick}
use bandolier.World.Triples.{Spec, Spec-pure, Spec-bind, Spec-weaken, Ends}
use bandolier.World.Returns.{Never}
use bandolier.World.Rules.{Ends-always, IsQuiet, IsLive, statement_live-Spec, query_quiet}
use bandolier.Apps.Store.{create_repo, list_repos, has_repo}
use bandolier.Clusters.Create.{FactoryRepo, factory_repos}
use bandolier.Clusters.Reconcile.{
  has_existing, add_missing, reconcile_listed, reconcile_each, reconcile_factory_repos,
}
use bandolier.Clusters.Reconcile.Names.{
  has_existing-list_repos, create_repo-adds, create_repo-keeps, create_repo-clusters,
}

-- The clusters are the same, and no repo is gone.
pub record Since (w₀ w : World) : Type 0 where
  pub clusters : w.db.clusters ≡ w₀.db.clusters
  pub keeps : (id n : String) → has_repo id n w₀.db.repos ≡ true → has_repo id n w.db.repos ≡ true

abbrev pub seeded : String → List FactoryRepo → List Repo → Bool
seeded id [] repos = true
seeded id (r ∷ rs) repos = has_repo id r.name repos && seeded id rs repos

abbrev pub all_seeded : List Cluster → List Repo → Bool
all_seeded [] repos = true
all_seeded (c ∷ cs) repos = seeded c.id factory_repos repos && all_seeded cs repos

abbrev IsThere : String → World → Type 0
IsThere id w = has_row (λ c. c.id) id w.db.clusters ≡ true

Since-refl : (w : World) → Since w w
Since-refl w = record { clusters = refl; keeps = λ id n h. h }

Since-trans : (u v w : World) → Since u v → Since v w → Since u w
Since-trans u v w s t = record {
  clusters = t.clusters ∙ s.clusters;
  keeps = λ id n h. t.keeps id n (s.keeps id n h);
}

-- Also, `b` holds of the repos.
record With (w₀ : World) (b : List Repo → Bool) (w : World) : Type 0 where
  since : Since w₀ w
  holds : b w.db.repos ≡ true

seeded-Since :
    (id : String) (rs : List FactoryRepo) (v w : World)
    → Since v w
    → seeded id rs v.db.repos ≡ true
    → seeded id rs w.db.repos ≡ true
seeded-Since id [] v w s h = refl
seeded-Since id (r ∷ rs) v w s h = ground (arith, s.keeps id r.name, seeded-Since id rs v w s)

both : {a b : Bool} → a ≡ true → b ≡ true → (a && b) ≡ true
both {a} {b} e f = ground arith

both_left : (a b : Bool) → (a && b) ≡ true → a ≡ true
both_left a b e = ground arith

both_right : (a b : Bool) → (a && b) ≡ true → b ≡ true
both_right a b e = ground arith

abbrev all_rows : List Cluster → List Cluster → Bool
all_rows [] ds = true
all_rows (c ∷ cs) ds = has_row (λ d. d.id) c.id ds && all_rows cs ds

all_rows-more :
    (cs : List Cluster) (d : Cluster) (ds : List Cluster)
    → all_rows cs ds ≡ true
    → all_rows cs (d ∷ ds) ≡ true
all_rows-more [] d ds h = refl
all_rows-more (c ∷ cs) d ds h = ground (arith, all_rows-more cs d ds)

all_rows_self : (cs : List Cluster) → all_rows cs cs ≡ true
all_rows_self [] = refl
all_rows_self (c ∷ cs) = ground (arith, eq_refl c.id, all_rows_self cs, all_rows-more cs c cs)

tick_start : (w x : World) → Since (tick w) x → Since w x
tick_start w x s = record { clusters = s.clusters; keeps = s.keeps }

module _ (env : Env) (ctx : Ctx) (quiet : IsQuiet env) (live : IsLive ctx) where
  add_one-Spec :
      {E : World → Type 0} (id : String) (existing : List Repo) (r : FactoryRepo) (w₀ : World)
      (b : Bool)
      → (b ≡ true → has_repo id r.name w₀.db.repos ≡ true)
      → IsThere id w₀
      → Spec (Since w₀) (With w₀ (has_repo id r.name)) E (
          if b
          then pure tt
          else ignore (statement env ctx λ now. create_repo now id r.name r.url none))
  add_one-Spec id existing r w₀ true known row =
      Spec-pure (λ w s. record { since = s; holds = s.keeps id r.name (known refl) }) tt
  add_one-Spec id existing r w₀ false known row = statement_live-Spec env ctx quiet live _ (λ w s.
      Ends-always (With w₀ (has_repo id r.name)) _ _ (record {
        since = record {
          clusters = create_repo-clusters w.clock id r.name r.url none w.db ∙ s.clusters;
          keeps = λ j m h. create_repo-keeps w.clock id r.name r.url none w.db j m (s.keeps j m h);
        };
        holds = create_repo-adds w.clock id r.name r.url none w.db (rw s.clusters row);
      }))

  add_missing-Spec :
      (rs : List FactoryRepo) (id : String) (existing : List Repo) (w₀ : World)
      → ((n : String) → has_existing n existing ≡ true → has_repo id n w₀.db.repos ≡ true)
      → IsThere id w₀
      → Spec (Since w₀) (With w₀ (seeded id rs)) Never (add_missing env ctx id existing rs)
  unfolding add_missing
  add_missing-Spec [] id existing w₀ known row =
      Spec-pure (λ w s. record { since = s; holds = refl }) tt
  add_missing-Spec (r ∷ rs) id existing w₀ known row =
      Spec-bind {Q = With w₀ (has_repo id r.name)} _ _
        (add_one-Spec id existing r w₀ (has_existing r.name existing) (known r.name) row)
        (λ u. record {
          at = λ v q.
              (Spec-weaken (add_missing env ctx id existing rs)
                  (λ x s. record {
                    since = Since-trans w₀ v x q.since s.since;
                    holds = both (s.since.keeps id r.name q.holds) s.holds;
                  })
                  (λ x e. e)
                  (add_missing-Spec rs id existing v (λ n h. q.since.keeps id n (known n h))
                    (rw q.since.clusters row))).at
                v (Since-refl v);
        })

  at_query :
      (Q : World → Type 0) (id : String) (w : World) (f : Result (List Repo) → Exec (Unit {0}))
      → Ends Q Never
          (f (ok (list_repos id w.db)) (tick w)).0
          (f (ok (list_repos id w.db)) (tick w)).1
      → Ends Q Never
          ((attempt (query env ctx λ db. ok (list_repos id db)) >>= f) w).0
          ((attempt (query env ctx λ db. ok (list_repos id db)) >>= f) w).1
  unfolding attempt ◌>>=◌
  at_query Q id w f h = rw (query_quiet env ctx _ w quiet.sql (live.never w.clock)) h

  tick-Since : (w₀ w : World) → Since w₀ w → Since w₀ (tick w)
  tick-Since w₀ w s = record { clusters = s.clusters; keeps = s.keeps }

  each-Spec :
      (cs : List Cluster) (w₀ : World)
      → all_rows cs w₀.db.clusters ≡ true
      → Spec (Since w₀) (With w₀ (all_seeded cs)) Never (reconcile_each env ctx cs)
  unfolding reconcile_each
  each-Spec [] w₀ rows = Spec-pure (λ w s. record { since = s; holds = refl }) tt
  each-Spec (c ∷ cs) w₀ rows = record {
    at = λ w s.
        let v = tick w in
        at_query _ c.id w _ (
          (Spec-bind {P = Since v} {Q = With v (seeded c.id factory_repos)}
              (reconcile_listed env ctx c.id (ok (list_repos c.id w.db)))
              (λ u. reconcile_each env ctx cs)
              (add_missing-Spec factory_repos c.id (list_repos c.id w.db) v
                (λ n h. sym (has_existing-list_repos c.id n w.db) ∙ h)
                (rw s.clusters (both_left _ _ rows)))
              (λ u. record {
                at = λ x q.
                    (Spec-weaken (reconcile_each env ctx cs)
                        (λ y t. record {
                          since =
                              Since-trans w₀ x y (Since-trans w₀ v x (tick-Since w₀ w s) q.since)
                                t.since;
                          holds =
                              both (seeded-Since c.id factory_repos x y t.since q.holds) t.holds;
                        })
                        (λ y e. e)
                        (each-Spec cs x
                          (rw (q.since.clusters, s.clusters) (both_right _ _ rows)))).at
                      x (Since-refl x);
              })).at
            v (Since-refl v));
  }

-- What the start of the program finds after the reconciliation: the clusters are the same, each of
-- them has every factory repo, and no repo is gone.
pub record Reconciled (w₀ w : World) : Type 0 where
  pub since : Since w₀ w
  pub complete : all_seeded w.db.clusters w.db.repos ≡ true

-- If no statement fails and the context lives, then ReconcileFactoryRepos comes to an end without
-- an error, every cluster has every factory repo, and the clusters and the repos that were there
-- are still there.
pub reconcile_factory_repos-Reconciled :
    (env : Env) (ctx : Ctx) (w : World)
    → IsQuiet env
    → IsLive ctx
    → Ends
        (Reconciled w)
        Never
        (reconcile_factory_repos env ctx w).0
        (reconcile_factory_repos env ctx w).1
unfolding reconcile_factory_repos list_clusters ◌>>=◌
reconcile_factory_repos-Reconciled env ctx w quiet live =
    rw (query_quiet env ctx _ w quiet.sql (live.never w.clock)) (
      (Spec-weaken (reconcile_each env ctx w.db.clusters)
          (λ x q. record { since = tick_start w x q.since; complete = rw q.since.clusters q.holds })
          (λ x e. e)
          (each-Spec env ctx quiet live w.db.clusters (tick w) (all_rows_self w.db.clusters))).at
        (tick w) (Since-refl (tick w)))
