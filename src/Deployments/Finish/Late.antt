-- ===== src/Deployments/Finish/Late.antt =====
-- A success on a context that was cancelled after the last step.
use bandolier.Prelude.{ℕ, suc, true, ◌≡◌, refl, ◌≤◌, arith, some, le→leb, All, ◌∙◌}
use bandolier.Status.{Status}
use bandolier.Result.{Result, ok}
use bandolier.Store.Tables.{Db, DeploymentStatus, Action, Details}
use bandolier.Hub.History.{history_of}
use bandolier.World.{Ctx, Env, World}
use bandolier.World.Exec.{◌>>=◌, ignore}
use bandolier.World.Calls.{statement, ctx_done, tick}
use bandolier.World.Rules.{statement_cancelled, bind-ok}
use bandolier.Deployments.Effects.{audit, emit}
use bandolier.Deployments.Finish.{Task, record_success, announce_success}
use bandolier.Deployments.Outcome.{IsEarly, Announced, announce}

done-later : (c : Ctx) (n : ℕ) (now : ℕ) → c.cancel_at ≡ some n → n ≤ now → ctx_done c now ≡ true
done-later c n now e le = rw e (le→leb n now le)

ignored_statement :
    (env : Env) {A : Type 0} (ctx : Ctx) (body : ℕ → Db → Result A × Db) (w : World)
    → ctx_done ctx w.clock ≡ true
    → ignore (statement env ctx body) w ≡ (ok tt, tick w)
unfolding ignore
ignored_statement env ctx body w done = rw (statement_cancelled env ctx body w done) refl

record_success_late :
    (env : Env) (t : Task) (target : Status) (action : Action) (d : Details) (n : ℕ) (w : World)
    → t.ctx.cancel_at ≡ some n
    → n ≤ w.clock
    → record_success env t target action d w ≡ (ok tt, tick (tick (tick w)))
unfolding record_success audit
record_success_late env t target action d n w e le =
    bind-ok _ _ tt w (tick w) (ignored_statement env t.ctx _ w (done-later t.ctx n w.clock e le))
    ∙ bind-ok _ _ tt (tick w) (tick (tick w))
        (ignored_statement env t.ctx _ (tick w) (done-later t.ctx n (suc w.clock) e (omega arith)))
    ∙ ignored_statement env t.ctx _ (tick (tick w))
        (done-later t.ctx n (suc (suc w.clock)) e (omega arith))

-- When the context is cancelled before the records of a success are written, none of them is: the
-- database stays as it was, and `succeeded` is announced all the same.
pub announce_success_late :
    (env : Env) (t : Task) (target : Status) (action : Action) (d : Details) (n : ℕ) (w : World)
    → t.ctx.cancel_at ≡ some n
    → n ≤ w.clock
    → All IsEarly (history_of t.dep_id w.hub)
    → ((record_success env t target action d >>= λ _. announce_success t) w).1.db ≡ w.db
      × Announced t.dep_id DeploymentStatus.succeeded
          ((record_success env t target action d >>= λ _. announce_success t) w).1
unfolding emit ◌>>=◌
announce_success_late env t target action d n w e le early =
    rw (record_success_late env t target action d n w e le)
      (refl, announce t.dep_id DeploymentStatus.succeeded "" (tick (tick (tick w))) early)
