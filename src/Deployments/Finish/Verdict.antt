-- ===== src/Deployments/Finish/Verdict.antt =====
-- From the body of a goroutine to the goroutine with its deferred calls.
use bandolier.Prelude.{String, Bool, true, false, ◌≡◌, refl}
use bandolier.Status.{Status, error}
use bandolier.Result.{Result, ok, err}
use bandolier.Store.Tables.{DeploymentStatus, Action, Details}
use bandolier.World.{Env, World}
use bandolier.World.Exec.{◌>>=◌}
use bandolier.World.Rules.{any-Spec, IsLive}
use bandolier.World.Triples.{Spec, Ends, Spec-bind, Spec-ignore, Spec-modify}
use bandolier.Deployments.Effects.{deregister, unlock_cluster, audit, finish_status}
use bandolier.Deployments.Finish.{Task, record_success, announce_success}
use bandolier.Deployments.Finish.Release.{
  Announced-release, unlock_cluster-db, unlock_cluster-clock,
}
use bandolier.Deployments.Finish.Settled.{Settled, FailedAt}

-- On a context that lives: an operation that ran through is settled as `succeeded`, one that
-- failed as `failed`.
abbrev pub Verdict : Task → Status → Result (Unit {0}) → World → Type 0
Verdict t target (ok u) w = Settled t DeploymentStatus.succeeded target w
Verdict t target (err e) w = Settled t DeploymentStatus.failed error w

-- On any context: one that failed is settled as `failed` or `cancelled`.
abbrev pub FailureVerdict : Task → Result (Unit {0}) → World → Type 0
FailureVerdict t (ok u) w = Unit
FailureVerdict t (err e) w = FailedAt t w

Settled-release :
    (t : Task) (s : DeploymentStatus) (c : Status) (w : World)
    → Settled t s c w
    → Settled t s c (deregister t.dep_id (unlock_cluster t.cluster_id w))
unfolding deregister
Settled-release t s c w p = record {
  announced = Announced-release t w w s p.announced;
  recorded = record {
    row = rw (unlock_cluster-db t.cluster_id w) p.recorded.row;
    cluster = rw (unlock_cluster-db t.cluster_id w) p.recorded.cluster;
  };
}

FailedAt-live :
    (t : Task) (w : World) → IsLive t.ctx → FailedAt t w → Settled t DeploymentStatus.failed error w
unfolding finish_status
FailedAt-live t w live f =
    bandolier.Prelude.subst (λ b. Settled t (finish_status b true).0 error w) (live.never f.time)
      f.settled

pub release-Verdict :
    (t : Task) (target : Status)
    → IsLive t.ctx
    → (r : Result (Unit {0})) (w : World)
    → Ends (Settled t DeploymentStatus.succeeded target) (FailedAt t) r w
    → Verdict t target r (deregister t.dep_id (unlock_cluster t.cluster_id w))
release-Verdict t target live (ok u) w p = Settled-release t _ target w p
release-Verdict t target live (err e) w p = Settled-release t _ error w (FailedAt-live t w live p)

pub release-FailureVerdict :
    (t : Task) (r : Result (Unit {0})) (w : World)
    → Ends (λ v. Unit {0}) (FailedAt t) r w
    → FailureVerdict t r (deregister t.dep_id (unlock_cluster t.cluster_id w))
unfolding deregister
release-FailureVerdict t (ok u) w p = tt
release-FailureVerdict t (err e) w p = record {
  time = p.time;
  since = rw (unlock_cluster-clock t.cluster_id w) p.since;
  settled = Settled-release t _ error w p.settled;
}

-- The records of a success do not fail, whatever the context.
pub success_any-Spec :
    {P E : World → Type 0} (env : Env) (t : Task) (target : Status) (action : Action) (d : Details)
    → Spec P (λ v. Unit {0}) E (record_success env t target action d >>= λ _. announce_success t)
unfolding record_success audit
success_any-Spec env t target action d =
    Spec-bind {Q = λ v. Unit {0}} _ _
      (Spec-bind {Q = λ v. Unit {0}} _ _ (Spec-ignore _ (any-Spec _)) (λ _.
        Spec-bind {Q = λ v. Unit {0}} _ _ (Spec-ignore _ (any-Spec _))
          (λ _. Spec-ignore _ (any-Spec _))))
      (λ _. Spec-modify _ (λ w p. tt))
