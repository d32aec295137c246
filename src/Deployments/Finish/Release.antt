-- ===== src/Deployments/Finish/Release.antt =====
-- What the deferred calls of a goroutine leave behind.
use bandolier.Prelude.{
  String, true, not, ◌≡◌, refl, ◌≢◌, ◌==◌, ◌&&◌, eq_refl, arith, none, lookup, lookup-erase,
}
use bandolier.Mutex.Laws.{is_locked, unlock_lem}
use bandolier.Result.{Result, ok, err}
use bandolier.Store.Tables.{DeploymentStatus}
use bandolier.World.{World}
use bandolier.World.Triples.{Ends}
use bandolier.Deployments.Effects.{unlock_cluster, deregister}
use bandolier.Deployments.Finish.{Task}
use bandolier.Deployments.Outcome.{SameControl, Announced, Stopped, Succeeded}

-- The lock of the cluster is free, those of the others are as they were, nothing was unlocked
-- twice, the operation can no longer be cancelled, and no goroutine was started.
pub record Released (t : Task) (w₀ w : World) : Type 0 where
  pub locks :
      (id : String) → is_locked id w.mutex ≡ (not (t.cluster_id == id) && is_locked id w₀.mutex)
  pub crashed : w.crashed ≡ w₀.crashed
  pub deregistered : lookup t.dep_id w.cancel_map ≡ none
  pub jobs : w.jobs ≡ w₀.jobs

-- The terminal event agrees with the result: `succeeded` if the steps ran through, and another
-- status if one failed.
abbrev pub Concluded : String → Result (Unit {0}) → World → Type 0
Concluded dep (ok u) w = Announced dep DeploymentStatus.succeeded w
Concluded dep (err e) w =
    (s : DeploymentStatus) × (s ≢ DeploymentStatus.succeeded) × Announced dep s w

pub unlock_cluster-hub : (id : String) (w : World) → (unlock_cluster id w).hub ≡ w.hub
unfolding unlock_cluster
unlock_cluster-hub id w = ground arith

pub unlock_cluster-db : (id : String) (w : World) → (unlock_cluster id w).db ≡ w.db
unfolding unlock_cluster
unlock_cluster-db id w = ground arith

pub unlock_cluster-clock : (id : String) (w : World) → (unlock_cluster id w).clock ≡ w.clock
unfolding unlock_cluster
unlock_cluster-clock id w = ground arith

module _ (t : Task) (w₀ w : World) where
  pub Announced-release :
      (s : DeploymentStatus)
      → Announced t.dep_id s w
      → Announced t.dep_id s (deregister t.dep_id (unlock_cluster t.cluster_id w))
  unfolding deregister
  Announced-release s a = record {
    older = a.older;
    now = a.now;
    msg = a.msg;
    history = rw (unlock_cluster-hub t.cluster_id w) a.history;
    early = a.early;
  }

  release-Released :
      SameControl w₀ w
      → is_locked t.cluster_id w₀.mutex ≡ true
      → Released t w₀ (deregister t.dep_id (unlock_cluster t.cluster_id w))
  unfolding deregister unlock_cluster
  release-Released (sm, sc, scm, sj) held =
      let (m, e, k) = unlock_lem t.cluster_id w.mutex (rw sm held) in
      record {
        locks = λ id. rw (e, k id, sm) refl;
        crashed = rw (e, sc) refl;
        deregistered = rw (e, lookup-erase, eq_refl) refl;
        jobs = rw (e, sj) refl;
      }

-- A body that ends in a terminal event, and leaves the control state alone, ends so after the
-- deferred calls too.
pub with_defers-Released :
    (t : Task) (w₀ : World)
    → is_locked t.cluster_id w₀.mutex ≡ true
    → (r : Result (Unit {0})) (w : World) → Ends (Succeeded t.dep_id w₀) (Stopped t.dep_id w₀) r w
    → Concluded t.dep_id r (deregister t.dep_id (unlock_cluster t.cluster_id w))
      × Released t w₀ (deregister t.dep_id (unlock_cluster t.cluster_id w))
with_defers-Released t w₀ held (ok u) w p =
    (Announced-release t w₀ w _ p.announced, release-Released t w₀ w p.control held)
with_defers-Released t w₀ held (err e) w p = (
  (p.status, p.unsuccessful, Announced-release t w₀ w _ p.announced),
  release-Released t w₀ w p.control held,
)
