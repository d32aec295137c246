-- ===== src/Deployments/Teardown/Run.antt =====
-- How a destroy ends.
use bandolier.Prelude.{String, Bool, true, false, ◌≡◌, refl, ◌≢◌, [], All}
use bandolier.Status.{destroyed}
use bandolier.Result.{failure}
use bandolier.Store.Tables.{cluster_destroy, DeploymentStatus, Outcome}
use bandolier.Hub.History.{history_of}
use bandolier.Mutex.Laws.{is_locked}
use bandolier.World.{Env, World}
use bandolier.World.Calls.{background, ctx_done}
use bandolier.World.Rules.{statement-Spec}
use bandolier.World.Triples.{
  Spec, Spec-bind, Spec-attempt, Spec-ignore, Spec-pure, Spec-raise, Spec-modify,
}
use bandolier.Deployments.Effects.{finish_status}
use bandolier.Deployments.Finish.{Task}
use bandolier.Deployments.Finish.Specs.{
  InProgress-IsLoose, finish_status-ne-succeeded, stop, audit_row-Spec, record_failure-Spec,
  record_success-Spec, announce_success-Spec,
}
use bandolier.Deployments.Finish.Release.{Concluded, Released, with_defers-Released}
use bandolier.Deployments.Outcome.{IsEarly, InProgress, InProgress-Stable, Stopped, Succeeded}
use bandolier.Deployments.Stable.{query-Spec}
use bandolier.Deployments.Teardown.{
  audit_latch, clear_latch, fail_destroy, fail_destroy_with, destroy_body, run_destroy, had_latch,
}
use bandolier.Deployments.Teardown.Specs.{tear_down-Spec}
use bandolier.Deployments.Teardown.Forget.{cascade_forget-Spec}

module _ (env : Env) (t : Task) (w₀ : World) where
  abbrev Going : World → Type 0
  Going = InProgress t.dep_id w₀

  abbrev Failed : World → Type 0
  Failed = Stopped t.dep_id w₀

  audit_latch-Spec : {E : World → Type 0} (b : Bool) → Spec Going Going E (audit_latch env t b)
  audit_latch-Spec false = Spec-pure (λ w i. i) tt
  audit_latch-Spec true = audit_row-Spec env t w₀ background _ _ _

  clear_latch-Spec : {E : World → Type 0} → Spec Going Going E (clear_latch env t)
  unfolding clear_latch
  clear_latch-Spec =
      Spec-ignore _ (statement-Spec (InProgress-IsLoose t.dep_id w₀) env background _)

  fail_destroy_with-Spec :
      {A : Type 0} {Q : World → Type 0} (s : DeploymentStatus) (o : Outcome) (msg : String)
      → s ≢ DeploymentStatus.succeeded
      → Spec Going Q Failed (fail_destroy_with env t {A = A} (s, o) msg)
  unfolding fail_destroy_with
  fail_destroy_with-Spec {A} {Q} s o msg h =
      Spec-bind {Q = Going} _ _ (record_failure-Spec env t w₀ s msg) (λ _.
        Spec-bind {Q = Going} _ _
          (Spec-attempt _ (query-Spec (InProgress-Stable t.dep_id w₀) env background _))
          (λ c. Spec-bind {Q = Going} _ _ clear_latch-Spec (λ _.
            Spec-bind {Q = Going} _ _ (audit_row-Spec env t w₀ background _ o _) (λ _.
              Spec-bind {Q = Going} _ _ (audit_latch-Spec (had_latch c)) (λ _.
                Spec-bind {Q = Failed} _ _ (Spec-modify _ (λ w i. stop env t w₀ s msg w h i))
                  (λ _. Spec-raise (λ w k. k) (failure msg)))))))

  fail_destroy-Spec :
      {A : Type 0} {Q : World → Type 0} (msg : String)
      → Spec Going Q Failed (fail_destroy env t {A = A} msg)
  unfolding fail_destroy
  fail_destroy-Spec {A} {Q} msg = record {
    at = λ w i.
        (fail_destroy_with-Spec {A = A} {Q = Q} (finish_status (ctx_done t.ctx w.clock) true).0
            (finish_status (ctx_done t.ctx w.clock) true).1 msg
            (finish_status-ne-succeeded (ctx_done t.ctx w.clock))).at
          w i;
  }

  destroy_body-Spec : Spec Going (Succeeded t.dep_id w₀) Failed (destroy_body env t)
  unfolding destroy_body
  destroy_body-Spec =
      Spec-bind _ _
        (tear_down-Spec t (InProgress-Stable t.dep_id w₀) env (λ A msg. fail_destroy-Spec msg))
        (λ _. Spec-bind _ _ (record_success-Spec env t w₀ destroyed cluster_destroy []) (λ _.
          Spec-bind _ _
            (cascade_forget-Spec t (InProgress-Stable t.dep_id w₀) (InProgress-IsLoose t.dep_id w₀)
              env)
            (λ _. announce_success-Spec env t w₀)))

-- When the goroutine of a destroy ends, whatever the commands, Vault and the database answer,
-- whenever it is cancelled, and whether or not it forgets the cluster: exactly one terminal event
-- was published, it is the last of the history, and says `succeeded` exactly if no step failed;
-- and the cluster's lock is free, no other lock was touched, nothing was unlocked twice, and the
-- cancel func is gone. It starts with the lock held and before any terminal event.
pub run_destroy-Concluded :
    (env : Env) (t : Task) (w : World)
    → is_locked t.cluster_id w.mutex ≡ true
    → All IsEarly (history_of t.dep_id w.hub)
    → Concluded t.dep_id (run_destroy env t w).0 (run_destroy env t w).1
      × Released t w (run_destroy env t w).1
unfolding run_destroy
run_destroy-Concluded env t w held early =
    with_defers-Released t w held (destroy_body env t w).0 (destroy_body env t w).1 (
      (destroy_body-Spec env t w).at w
        (record { control = (refl, refl, refl, refl); early = early }))
