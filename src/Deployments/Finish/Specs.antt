-- ===== src/Deployments/Finish/Specs.antt =====
-- What `fail` and the records of a success do to the control state and the events.
use bandolier.Prelude.{String, Bool, true, false, ◌≢◌}
use bandolier.Status.{Status}
use bandolier.Result.{failure}
use bandolier.Store.Tables.{DeploymentStatus, Action, Outcome, Details}
use bandolier.World.{Ctx, Env, World}
use bandolier.World.Calls.{ctx_done, background}
use bandolier.World.Rules.{IsLoose, statement-Spec}
use bandolier.World.Triples.{Spec, Spec-bind, Spec-raise, Spec-ignore, Spec-modify}
use bandolier.Deployments.Effects.{audit, emit, complete_event, finish_status}
use bandolier.Deployments.Finish.{Task, fail, record_failure, record_success, announce_success}
use bandolier.Deployments.Outcome.{InProgress, Stopped, Succeeded, announce}

pub InProgress-IsLoose : (dep : String) (w₀ : World) → IsLoose (InProgress dep w₀)
InProgress-IsLoose dep w₀ db w p = record { control = p.control; early = p.early }

pub finish_status-ne-succeeded : (b : Bool) → (finish_status b true).0 ≢ DeploymentStatus.succeeded
unfolding finish_status
finish_status-ne-succeeded true e = cc
finish_status-ne-succeeded false e = cc

module _ (env : Env) (t : Task) (w₀ : World) where
  abbrev Going : World → Type 0
  Going = InProgress t.dep_id w₀

  abbrev Failed : World → Type 0
  Failed = Stopped t.dep_id w₀

  pub audit_row-Spec :
      {E : World → Type 0} (ctx : Ctx) (action : Action) (o : Outcome) (d : Details)
      → Spec Going Going E (audit env ctx t.actor action t.cluster_id o d)
  unfolding audit
  audit_row-Spec ctx action o d =
      Spec-ignore _ (statement-Spec (InProgress-IsLoose t.dep_id w₀) env ctx _)

  pub record_failure-Spec :
      {E : World → Type 0} (s : DeploymentStatus) (msg : String)
      → Spec Going Going E (record_failure env t s msg)
  unfolding record_failure
  record_failure-Spec s msg =
      Spec-bind _ _
        (Spec-ignore _ (statement-Spec (InProgress-IsLoose t.dep_id w₀) env background _))
        (λ _. Spec-ignore _ (statement-Spec (InProgress-IsLoose t.dep_id w₀) env background _))

  pub stop :
      (s : DeploymentStatus) (msg : String) (w : World)
      → s ≢ DeploymentStatus.succeeded
      → Going w
      → Failed (emit t.dep_id (complete_event s msg) w)
  unfolding emit
  stop s msg w h i = record {
    control = i.control;
    status = s;
    unsuccessful = h;
    announced = announce t.dep_id s msg w i.early;
  }

  -- A failure leaves the control state alone and announces itself, whatever the database does.
  pub fail-Spec :
      {A : Type 0} {Q : World → Type 0} (action : Action) (d : Details) (msg : String)
      → Spec Going Q Failed (fail env {A = A} t action d msg)
  unfolding fail
  fail-Spec {A} {Q} action d msg = record {
    at = λ w i.
        (Spec-bind {Q = Going} _ _ (record_failure-Spec _ msg) (λ _.
            Spec-bind {Q = Going} _ _ (audit_row-Spec background action _ _) (λ _.
              Spec-bind {Q = Failed} _ _
                (Spec-modify _
                  (λ v. stop _ msg v (finish_status-ne-succeeded (ctx_done t.ctx w.clock))))
                (λ _. Spec-raise (λ v k. k) (failure msg))))).at
          w i;
  }

  -- The records of a success touch the database only.
  pub record_success-Spec :
      {E : World → Type 0} (target : Status) (action : Action) (d : Details)
      → Spec Going Going E (record_success env t target action d)
  unfolding record_success
  record_success-Spec target action d =
      Spec-bind _ _ (Spec-ignore _ (statement-Spec (InProgress-IsLoose t.dep_id w₀) env t.ctx _))
        (λ _.
          Spec-bind _ _
            (Spec-ignore _ (statement-Spec (InProgress-IsLoose t.dep_id w₀) env t.ctx _))
            (λ _. audit_row-Spec t.ctx action Outcome.succeeded d))

  pub announce_success-Spec :
      {E : World → Type 0} → Spec Going (Succeeded t.dep_id w₀) E (announce_success t)
  unfolding emit
  announce_success-Spec = Spec-modify _ (λ w i. record {
    control = i.control;
    announced = announce t.dep_id DeploymentStatus.succeeded "" w i.early;
  })
