-- ===== src/Deployments/Recover/Laws.antt =====
-- What the start of the api does to the deployments of the process before it.
use bandolier.Prelude.{String, ◌≡◌, refl, List, [], ◌∷◌, All}
use bandolier.Result.{ok}
use bandolier.Store.Tables.{Deployment}
use bandolier.Store.Deployments.{list_running_deployments}
use bandolier.World.{Ctx, Env, World}
use bandolier.World.Exec.{Exec, catch}
use bandolier.World.Calls.{query, tick}
use bandolier.World.Rules.{Ends-always, IsQuiet, IsLive, statement_live-Spec, query_quiet, bind-ok}
use bandolier.World.Triples.{Spec, Ends-either, Spec-bind, Spec-pure, Spec-weaken}
use bandolier.Deployments.Recover.{close, close_all, recover_orphaned_deployments}
use bandolier.Deployments.Recover.Rows.{
  Pending, Closed, Errored, Pending-start, Pending-end, finish-Pending, status-Errored,
  status-Closed, latch-Closed, latch-Errored, finish-Closed, status-Pending, latch-Pending,
}
use bandolier.Deployments.Steps.{wrapped}

-- The rows still to close are `ds`, and the clusters of `done` are closed.
record Left (ds done : List Deployment) (w : World) : Type 0 where
  pending : Pending ds w.db
  closed : All (λ d. Closed d.cluster_id w.db) done

record Marked (ds done : List Deployment) (id : String) (w : World) : Type 0 where
  pending : Pending ds w.db
  closed : All (λ d. Closed d.cluster_id w.db) done
  errored : Errored id w.db

All-map :
    (P Q : Deployment → Type 0)
    → ((d : Deployment) → P d → Q d)
    → (ds : List Deployment) → All P ds
    → All Q ds
All-map P Q h [] a = tt
All-map P Q h (d ∷ ds) a = (h d a.0, All-map P Q h ds a.1)

abbrev Recovered : World → World → Type 0
Recovered w₀ w =
    Pending [] w.db
    × Unit {0}
    × All (λ d. Closed d.cluster_id w.db) (list_running_deployments w₀.db)

module _ (env : Env) (ctx : Ctx) (quiet : IsQuiet env) (live : IsLive ctx) where
  close-Spec :
      {E : World → Type 0} (d : Deployment) (ds done : List Deployment)
      → Spec (Left (d ∷ ds) done) (Left ds (d ∷ done)) E (close env ctx d)
  unfolding close
  close-Spec d ds done =
      Spec-bind {Q = Left ds done} _ _
        (statement_live-Spec env ctx quiet live _ (λ w p. Ends-always (Left ds done) _ _ (record {
          pending = finish-Pending w.clock _ d ds w.db p.pending;
          closed = All-map _ _ (λ x. finish-Closed w.clock _ d.id x.cluster_id w.db) done p.closed;
        })))
        (λ _.
          Spec-bind {Q = Marked ds done d.cluster_id} _ _
            (statement_live-Spec env ctx quiet live _ (λ w p.
              Ends-always (Marked ds done d.cluster_id) _ _ (record {
                pending = status-Pending w.clock d.cluster_id ds w.db p.pending;
                closed =
                    All-map _ _ (λ x. status-Closed w.clock d.cluster_id x.cluster_id w.db) done
                      p.closed;
                errored = status-Errored w.clock d.cluster_id w.db;
              })))
            (λ _. statement_live-Spec env ctx quiet live _ (λ w p.
              Ends-always (Left ds (d ∷ done)) _ _ (record {
                pending = latch-Pending w.clock d.cluster_id ds w.db p.pending;
                closed = (
                  latch-Errored w.clock d.cluster_id w.db p.errored,
                  All-map _ _ (λ x. latch-Closed w.clock d.cluster_id x.cluster_id w.db) done
                      p.closed,
                );
              }))))

  close_all-Spec :
      {E : World → Type 0} (ds done : List Deployment)
      → Spec
          (Left ds done)
          (λ w.
            Pending [] w.db
            × All (λ d. Closed d.cluster_id w.db) done
            × All (λ d. Closed d.cluster_id w.db) ds)
          E
          (close_all env ctx ds)
  unfolding close_all
  close_all-Spec [] done = Spec-pure (λ w p. (p.pending, p.closed, tt)) tt
  close_all-Spec (d ∷ ds) done = Spec-bind {Q = Left ds (d ∷ done)} _ _ (close-Spec d ds done) (λ _.
      Spec-weaken _ (λ w (p, c, r). (p, c.1, (c.0, r))) (λ w e. e) (close_all-Spec ds (d ∷ done)))

wrapped-ok :
    {A : Type 0} (prefix : String) (m : Exec A) (a : A) (w w' : World)
    → m w ≡ (ok a, w')
    → wrapped prefix m w ≡ (ok a, w')
unfolding catch
wrapped-ok prefix m a w w' e = rw e refl

recovery :
    (env : Env) (ctx : Ctx) (w : World)
    → IsQuiet env
    → IsLive ctx
    → recover_orphaned_deployments env ctx w
      ≡ close_all env ctx (list_running_deployments w.db) (tick w)
unfolding recover_orphaned_deployments
recovery env ctx w quiet live =
    bind-ok _ (close_all env ctx) (list_running_deployments w.db) w (tick w) (
      wrapped-ok _ (query env ctx λ db. ok (list_running_deployments db)) _ w (tick w) (
        query_quiet env ctx (λ db. ok (list_running_deployments db)) w quiet.sql
          (live.never w.clock)))

-- If no statement fails and the context lives, then no deployment is left running, and the cluster
-- of each one that was running is in `error` with its cascade latch open (or is not there).
pub recover-Closed :
    (env : Env) (ctx : Ctx) (w : World)
    → IsQuiet env
    → IsLive ctx
    → (list_running_deployments (recover_orphaned_deployments env ctx w).1.db ≡ [])
      × All
          (λ d. Closed d.cluster_id (recover_orphaned_deployments env ctx w).1.db)
          (list_running_deployments w.db)
unfolding list_running_deployments
recover-Closed env ctx w quiet live =
    let orphans = list_running_deployments w.db in
    let end = close_all env ctx orphans (tick w) in
    let recovered : Recovered w end.1 = Ends-either (Recovered w) end.0 end.1 (
      (close_all-Spec env ctx quiet live orphans []).at (tick w)
        (record { pending = Pending-start w.db.deployments; closed = tt })) in
    rw (recovery env ctx w quiet live) (Pending-end _ recovered.0, recovered.2)
