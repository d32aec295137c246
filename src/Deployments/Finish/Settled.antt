-- ===== src/Deployments/Finish/Settled.antt =====
-- `fail` and the records of a success on a database that does not fail: the row, the cluster's
-- status and the terminal event.
use bandolier.Prelude.{ap, ◌∙◌, ℕ, suc, String, true, ◌≡◌, some, arith}
use bandolier.Status.{Status, error}
use bandolier.Store.Tables.{Db, DeploymentStatus, Action, Outcome, Details}
use bandolier.Store.Audits.{Entry, insert_audit_entry}
use bandolier.Store.Clusters.{update_cluster_status}
use bandolier.Store.Deployments.{finish_deployment}
use bandolier.World.{Ctx, Env, World}
use bandolier.World.Exec.{modify, ignore, raise, ◌>>=◌}
use bandolier.World.Calls.{statement, ctx_done, background}
use bandolier.World.Rules.{Ends-always, IsQuiet, IsLive, background-IsLive, statement_live-Spec}
use bandolier.Result.{Result, ok, err}
use bandolier.World.Triples.{Ends, Spec, Spec-bind, Spec-raise, Spec-modify}
use bandolier.Deployments.Effects.{audit, emit, complete_event, finish_status}
use bandolier.Deployments.Finish.{Task, fail, record_failure, record_success, announce_success}
use bandolier.Deployments.Finish.Recorded.{
  Tracked, Recorded, finish_deployment-row, update_cluster_status-row,
}
use bandolier.Deployments.Outcome.{InProgress, Unrecorded, Announced, announce, row_status}

-- The terminal event and the row say `s`, the cluster's status is `c`.
pub record Settled (t : Task) (s : DeploymentStatus) (c : Status) (w : World) : Type 0 where
  pub announced : Announced t.dep_id s w
  pub recorded : Recorded t.dep_id t.cluster_id s c w.db

-- The end of a failure: its status is read off the context at the time at which the three last
-- statements, those of the row, the cluster and the audit log, begin.
pub record FailedAt (t : Task) (w : World) : Type 0 where
  pub time : ℕ
  pub since : w.clock ≡ suc (suc (suc time))
  pub settled : Settled t (finish_status (ctx_done t.ctx time) true).0 error w

-- The row is written, the cluster not yet.
pub record RowWritten (t : Task) (w₀ : World) (s : DeploymentStatus) (w : World) : Type 0 where
  pub progress : InProgress t.dep_id w₀ w
  pub row : row_status t.dep_id w.db ≡ some s
  pub tracked : Tracked t.dep_id t.cluster_id w.db

pub record Written (t : Task) (w₀ : World) (s : DeploymentStatus) (c : Status) (w : World)
    : Type 0 where
  pub progress : InProgress t.dep_id w₀ w
  pub recorded : Recorded t.dep_id t.cluster_id s c w.db

move_db :
    {dep : String} {w₀ : World} (db : Db) (w : World)
    → InProgress dep w₀ w
    → InProgress dep w₀ (record w { clock = suc w.clock; db = db })
move_db db w p = record { control = p.control; early = p.early }

pub insert_audit_entry-Recorded :
    (now : ℕ) (e : Entry) (dep id : String) (s : DeploymentStatus) (c : Status) (db : Db)
    → Recorded dep id s c db
    → Recorded dep id s c (insert_audit_entry now e db).1
unfolding insert_audit_entry
insert_audit_entry-Recorded now e dep id s c db r = record {
  row = ground (arith, r.row);
  cluster = ground (arith, r.cluster);
}

statement-clock :
    (env : Env) {A : Type 0} (ctx : Ctx) (body : ℕ → Db → Result A × Db) (w : World)
    → (statement env ctx body w).1.clock ≡ suc w.clock
unfolding statement
statement-clock env ctx body w = ground arith

Ends-failed :
    {A : Type 0} (Q E F : World → Type 0) (r : Result A) (w : World)
    → (E w → F w)
    → Ends Q E r w
    → Ends Q F r w
Ends-failed Q E F (ok a) w h q = q
Ends-failed Q E F (err e) w h q = h q

module _ (env : Env) (quiet : IsQuiet env) (t : Task) (w₀ : World) where
  module _ (ctx : Ctx) (live : IsLive ctx) where
    write_row-Spec :
        {E : World → Type 0} (s : DeploymentStatus) (msg : String)
        → Tracked t.dep_id t.cluster_id w₀.db
        → Spec
            (Unrecorded t.dep_id w₀)
            (RowWritten t w₀ s)
            E
            (ignore (statement env ctx λ now. finish_deployment now t.dep_id s msg))
    write_row-Spec s msg tr = statement_live-Spec env ctx quiet live _ (λ w p.
        let (row, tracked) =
          finish_deployment-row w.clock t.dep_id t.cluster_id s msg w.db (rw p.db tr) in
        Ends-always (RowWritten t w₀ s) _ _
          (record { progress = move_db _ w p.progress; row = row; tracked = tracked }))

    write_status-Spec :
        {E : World → Type 0} (s : DeploymentStatus) (c : Status)
        → Spec
            (RowWritten t w₀ s)
            (Written t w₀ s c)
            E
            (ignore (statement env ctx λ now. update_cluster_status now t.cluster_id c))
    write_status-Spec s c = statement_live-Spec env ctx quiet live _ (λ w p.
        Ends-always (Written t w₀ s c) _ _ (record {
          progress = move_db _ w p.progress;
          recorded =
              update_cluster_status-row w.clock t.dep_id t.cluster_id s c w.db p.row p.tracked;
        }))

    Written-audit-Spec :
        {E : World → Type 0} (s : DeploymentStatus) (c : Status) (action : Action) (o : Outcome)
        (d : Details)
        → Spec
            (Written t w₀ s c)
            (Written t w₀ s c)
            E
            (audit env ctx t.actor action t.cluster_id o d)
    unfolding audit
    Written-audit-Spec s c action o d = statement_live-Spec env ctx quiet live _ (λ w p.
        Ends-always (Written t w₀ s c) _ _ (record {
          progress = move_db _ w p.progress;
          recorded =
              insert_audit_entry-Recorded w.clock _ t.dep_id t.cluster_id s c w.db p.recorded;
        }))

  settle-Spec :
      {E : World → Type 0} (s : DeploymentStatus) (c : Status) (msg : String)
      → Spec (Written t w₀ s c) (Settled t s c) E (modify (emit t.dep_id (complete_event s msg)))
  unfolding emit
  settle-Spec s c msg = Spec-modify _ (λ w p. record {
    announced = announce t.dep_id s msg w p.progress.early;
    recorded = record { row = p.recorded.row; cluster = p.recorded.cluster };
  })

  pub record_failure_settled-Spec :
      {E : World → Type 0} (s : DeploymentStatus) (msg : String)
      → Tracked t.dep_id t.cluster_id w₀.db
      → Spec (Unrecorded t.dep_id w₀) (Written t w₀ s error) E (record_failure env t s msg)
  unfolding record_failure
  record_failure_settled-Spec s msg tr =
      Spec-bind {Q = RowWritten t w₀ s} _ _ (write_row-Spec background background-IsLive s msg tr)
        (λ _. write_status-Spec background background-IsLive s error)

  fail-clock :
      (A : Type 0) (action : Action) (d : Details) (msg : String) (w : World)
      → (fail env {A = A} t action d msg w).1.clock ≡ suc (suc (suc w.clock))
  unfolding fail record_failure audit emit ignore raise modify ◌>>=◌
  fail-clock A action d msg w =
      statement-clock env background _ _
      ∙ ap suc (statement-clock env background _ _ ∙ ap suc (statement-clock env background _ _))

  module _ (tr : Tracked t.dep_id t.cluster_id w₀.db) where
    pub fail_settled-Spec :
        {A : Type 0} {Q : World → Type 0} (action : Action) (d : Details) (msg : String)
        → Spec (Unrecorded t.dep_id w₀) Q (FailedAt t) (fail env {A = A} t action d msg)
    unfolding fail
    fail_settled-Spec {A} {Q} action d msg = record {
      at = λ w i.
          let s = (finish_status (ctx_done t.ctx w.clock) true).0 in
          Ends-failed Q (Settled t s error) (FailedAt t) _ _
            (λ k. record { time = w.clock; since = fail-clock A action d msg w; settled = k })
            ((Spec-bind {Q = Written t w₀ s error} _ _ (record_failure_settled-Spec s msg tr) (λ _.
                Spec-bind {Q = Written t w₀ s error} _ _
                  (Written-audit-Spec background background-IsLive s error action _ _)
                  (λ _.
                    Spec-bind {Q = Settled t s error} _ _ (settle-Spec s error msg)
                      (λ _. Spec-raise (λ v k. k) _)))).at
              w i);
    }

    pub success_settled-Spec :
        {E : World → Type 0} (target : Status) (action : Action) (d : Details)
        → IsLive t.ctx
        → Spec
            (Unrecorded t.dep_id w₀)
            (Written t w₀ DeploymentStatus.succeeded target)
            E
            (record_success env t target action d)
    unfolding record_success
    success_settled-Spec target action d live =
        Spec-bind {Q = RowWritten t w₀ DeploymentStatus.succeeded} _ _
          (write_row-Spec t.ctx live DeploymentStatus.succeeded "" tr)
          (λ _.
            Spec-bind {Q = Written t w₀ DeploymentStatus.succeeded target} _ _
              (write_status-Spec t.ctx live DeploymentStatus.succeeded target)
              (λ _. Written-audit-Spec t.ctx live _ _ action _ d))

  pub announce-Settled-Spec :
      {E : World → Type 0} (c : Status)
      → Spec
          (Written t w₀ DeploymentStatus.succeeded c)
          (Settled t DeploymentStatus.succeeded c)
          E
          (announce_success t)
  announce-Settled-Spec c = settle-Spec DeploymentStatus.succeeded c ""
