-- ===== src/Apps/Runs/Settling.antt =====
-- What the row of an install says when its goroutine has ended.
use bandolier.Prelude.{
  ℕ, String, true, ◌≡◌, refl, eq_refl, arith, All, Option, some, find_row, find_row-update_rows,
}
use bandolier.Store.Tables.{Db, Install, DeploymentStatus, Outcome}
use bandolier.Store.Audits.{Entry, insert_audit_entry}
use bandolier.Hub.History.{history_of}
use bandolier.Result.{Result, ok, err}
use bandolier.World.{Env, World}
use bandolier.World.Exec.{Exec, ignore}
use bandolier.World.Calls.{statement, background, ctx_done}
use bandolier.World.Returns.{Never, statement_ok-Spec}
use bandolier.World.Rules.{Ends-always, IsQuiet, statement_live-Spec, background-IsLive}
use bandolier.World.Triples.{Spec, Spec-bind, Spec-ignore, Spec-modify, Ends}
use bandolier.Deployments.Effects.{emit, complete_event, audit, finish_status}
use bandolier.Deployments.Stable.{Stable}
use bandolier.Deployments.Outcome.{IsEarly, IsEarly-emit, announce, Announced}
use bandolier.Deployments.Finish.Must.{emit-Spec}
use bandolier.Deployments.Finish.Release.{unlock_cluster-db}
use bandolier.Apps.Types.{Work, run_helm, run_uninstall, run_bundle}
use bandolier.Apps.Store.{finish_install, mark_hostname_unclaimed, with_finish}
use bandolier.Apps.Executor.{deregister_install}
use bandolier.Apps.Run.{
  AppTask, Subject, finish, finish_with, message, with_install_defers, is_some,
}
use bandolier.Apps.Goroutines.Specs.{install_or_upgrade_body-Spec, uninstall_body-Spec}
use bandolier.Apps.Bundle.Specs.{bundle_body-Spec}
use bandolier.Apps.Outcome.{after_defers, Announced-after_defers}
use bandolier.Apps.Runs.{run_work}

-- The row of the install is there.
abbrev pub HasRow : String → Db → Type 0
HasRow id db = (i : Install) × (find_row (λ r. r.id) id db.installs ≡ some i)

-- It says that the install has ended so, and when.
record Ended (id : String) (s : DeploymentStatus) (db : Db) : Type 0 where
  row : Install
  found : find_row (λ r. r.id) id db.installs ≡ some row
  status : row.status ≡ s
  finished : is_some row.finished_at ≡ true

record Watched (id : String) (P : Db → Type 0) (w : World) : Type 0 where
  early : All IsEarly (history_of id w.hub)
  db : P w.db

-- The terminal event and the row agree.
pub record Agreed (id : String) (w : World) : Type 0 where
  pub status : DeploymentStatus
  pub announced : Announced id status w
  pub row : Install
  pub found : find_row (λ r. r.id) id w.db.installs ≡ some row
  pub recorded : row.status ≡ status
  pub finished : is_some row.finished_at ≡ true

Watched-Stable : (id : String) (P : Db → Type 0) → Stable id (Watched id P)
unfolding emit
Watched-Stable id P = record {
  on_emit = λ e w i p. record { early = IsEarly-emit id e w i p.early; db = p.db };
  on_call = λ v w p. record { early = p.early; db = p.db };
}

abbrev Going : String → World → Type 0
Going id = Watched id (HasRow id)

marked : (id : String) (db : Db) → HasRow id db → HasRow id (mark_hostname_unclaimed id true db).1
unfolding mark_hostname_unclaimed
marked id db (i, h) = (
  record i { hostname_unclaimed = true },
  rw
      (
        find_row-update_rows (λ (r : Install). r.id) (λ r. record r { hostname_unclaimed = true })
            (λ r. refl) id id db.installs,
        eq_refl,
        h,
      )
      refl,
)

ended :
    (now : ℕ) (id : String) (s : DeploymentStatus) (msg : String) (db : Db)
    → HasRow id db
    → Ended id s (finish_install now id s msg db).1
unfolding finish_install
ended now id s msg db (i, h) = record {
  row = with_finish now s msg i;
  found =
      rw
        (
          find_row-update_rows (λ (r : Install). r.id) (with_finish now s msg) (λ r. refl) id id
              db.installs,
          eq_refl,
          h,
        )
        refl;
  status = refl;
  finished = refl;
}

audited :
    (now : ℕ) (e : Entry) (id : String) (s : DeploymentStatus) (db : Db)
    → Ended id s db
    → Ended id s (insert_audit_entry now e db).1
unfolding insert_audit_entry
audited now e id s db k = record {
  row = k.row;
  found = ground (arith, k.found);
  status = k.status;
  finished = k.finished;
}

module _ (env : Env) (quiet : IsQuiet env) (t : AppTask) where
  marking :
      Spec
        (Going t.install_id)
        (Going t.install_id)
        Never
        (ignore (statement env t.ctx λ now. mark_hostname_unclaimed t.install_id true))
  marking = Spec-ignore _ (
      statement_ok-Spec env t.ctx _ (λ w p. record { early = p.early; db = p.db })
        (λ w p.
          Ends-always (Going t.install_id) _ _
            (record { early = p.early; db = marked t.install_id w.db p.db })))

  finish_with-Spec :
      (s : Subject) (verdict : DeploymentStatus × Outcome) (e : Option String)
      → Spec (Going t.install_id) (Agreed t.install_id) Never (finish_with env t s verdict e)
  unfolding audit emit
  finish_with-Spec s verdict e =
      Spec-bind {Q = Watched t.install_id (Ended t.install_id verdict.0)} _ _
        (statement_live-Spec env background quiet background-IsLive _ (λ w p.
          Ends-always (Watched t.install_id (Ended t.install_id verdict.0)) _ _ (record {
            early = p.early;
            db = ended w.clock t.install_id verdict.0 (message e) w.db p.db;
          })))
        (λ _.
          Spec-bind {Q = Watched t.install_id (Ended t.install_id verdict.0)} _ _
            (statement_live-Spec env background quiet background-IsLive _ (λ w p.
              Ends-always (Watched t.install_id (Ended t.install_id verdict.0)) _ _ (record {
                early = p.early;
                db = audited w.clock _ t.install_id verdict.0 w.db p.db;
              })))
            (λ _.
              Spec-bind _ _ (emit-Spec (Watched-Stable t.install_id _) _ refl)
                (λ _. Spec-modify _ (agree verdict.0 (message e)))))
    where
      agree :
          (s : DeploymentStatus) (msg : String) (w : World)
          → Watched t.install_id (Ended t.install_id s) w
          → Agreed t.install_id (emit t.install_id (complete_event s msg) w)
      agree s msg w p = record {
        status = s;
        announced = announce t.install_id s msg w p.early;
        row = p.db.row;
        found = p.db.found;
        recorded = p.db.status;
        finished = p.db.finished;
      }

  finish-Spec :
      (s : Subject) (e : Option String)
      → Spec (Going t.install_id) (Agreed t.install_id) Never (finish env t s e)
  unfolding finish
  finish-Spec s e = record {
    at = λ w. (finish_with-Spec s (finish_status (ctx_done t.ctx w.clock) (is_some e)) e).at w;
  }

  Agreed-after_defers : (w : World) → Agreed t.install_id w → Agreed t.install_id (after_defers t w)
  unfolding deregister_install
  Agreed-after_defers w a = record {
    status = a.status;
    announced = Announced-after_defers t w w a.status a.announced;
    row = a.row;
    found = rw (unlock_cluster-db t.cluster_id w) a.found;
    recorded = a.recorded;
    finished = a.finished;
  }

  settled :
      (body : Exec (Unit {0})) (w : World)
      → Spec (Going t.install_id) (Agreed t.install_id) Never body
      → Going t.install_id w
      → Agreed t.install_id (with_install_defers t body w).1
  settled body w sp g = ends (body w).0 (body w).1 (sp.at w g)
    where
      ends :
          (r : Result (Unit {0})) (v : World)
          → Ends (Agreed t.install_id) Never r v
          → Agreed t.install_id (after_defers t v)
      ends (ok u) v a = Agreed-after_defers v a
      ends (err e) v a = absurd a

-- Where no SQL statement fails of itself, the row of an install and its stream agree at the end: the
-- row has the status of the terminal event, and the time of the end, whether the operation
-- succeeded, failed or was cancelled. The row was there before any terminal event.
pub run_work-Agreed :
    (env : Env) (t : AppTask) (work : Work) (w : World)
    → IsQuiet env
    → All IsEarly (history_of t.install_id w.hub)
    → HasRow t.install_id w.db
    → Agreed t.install_id (run_work env t work w).1
unfolding run_work
run_work-Agreed env t (run_helm req op) w quiet early row =
    settled env quiet t _ w
      (install_or_upgrade_body-Spec t (Watched-Stable t.install_id _) env (marking env quiet t)
        (finish-Spec env quiet t) req op)
      (record { early = early; db = row })
run_work-Agreed env t (run_uninstall release namespace) w quiet early row =
    settled env quiet t _ w
      (uninstall_body-Spec t (Watched-Stable t.install_id _) env (marking env quiet t)
        (finish-Spec env quiet t) release namespace)
      (record { early = early; db = row })
run_work-Agreed env t (run_bundle req fqdn) w quiet early row =
    settled env quiet t _ w
      (bundle_body-Spec t (Watched-Stable t.install_id _) env req fqdn (finish-Spec env quiet t))
      (record { early = early; db = row })
