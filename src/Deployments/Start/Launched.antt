-- ===== src/Deployments/Start/Launched.antt =====
-- What `launch` leaves behind, under the lock that it is given.
use bandolier.World.Rules.{Ends-always}
use bandolier.Prelude.{
  ℕ, suc, String, false, ◌≡◌, refl, ◌==◌, ◌||◌, eq_refl, eq_iff, arith, [], ◌∷◌, ◌++◌, none, some,
  lookup, lookup-insert,
}
use bandolier.Mutex.Laws.{is_locked, unlock_lem}
use bandolier.Store.Tables.{Db, DeploymentStatus, Outcome}
use bandolier.Store.Clusters.{update_cluster_status}
use bandolier.Store.Deployments.{create_deployment}
use bandolier.World.{Ctx, Env, World, create_log}
use bandolier.World.Exec.{pure, modify, on_error, ◌>>=◌}
use bandolier.World.Calls.{statement, run_command}
use bandolier.World.Triples.{Ends-ok, Spec, Spec-ignore}
use bandolier.World.Returns.{SpecR, SpecR-bind, Spec-on_error, statement_ok-Spec}
use bandolier.Deployments.Effects.{unlock_cluster, register, audit}
use bandolier.Deployments.Outcome.{row_status}
use bandolier.Deployments.Finish.Recorded.{Recorded}
use bandolier.Deployments.Finish.Settled.{insert_audit_entry-Recorded}
use bandolier.Deployments.Start.Rows.{create_deployment-row, update_cluster_status-Recorded}
use bandolier.Deployments.Start.Launch.{Plan, job_of, spawn, launch, row_of, new_deployment_id}

-- No lock, cancel func or goroutine has come or gone.
pub record Untouched (w₀ w : World) : Type 0 where
  pub locks : (id : String) → is_locked id w.mutex ≡ is_locked id w₀.mutex
  pub crashed : w.crashed ≡ w₀.crashed
  pub cancel_map : w.cancel_map ≡ w₀.cancel_map
  pub jobs : w.jobs ≡ w₀.jobs

-- The cluster was free and is locked; nothing else has changed but the database and the time.
pub record Held (id : String) (w₀ w : World) : Type 0 where
  pub free : is_locked id w₀.mutex ≡ false
  pub locks : (j : String) → is_locked j w.mutex ≡ (id == j || is_locked j w₀.mutex)
  pub crashed : w.crashed ≡ w₀.crashed
  pub cancel_map : w.cancel_map ≡ w₀.cancel_map
  pub jobs : w.jobs ≡ w₀.jobs

-- The operation `dep` has started: its cluster, which was free, is locked, no other lock was
-- touched, the goroutine is there and can be cancelled, its row says `running` and the cluster's
-- status is the target.
pub record Launched (plan : Plan) (id profile : String) (actor : ℕ) (w₀ : World) (dep : String)
    (w : World) : Type 0 where
  pub free : is_locked id w₀.mutex ≡ false
  pub locks : (j : String) → is_locked j w.mutex ≡ (id == j || is_locked j w₀.mutex)
  pub crashed : w.crashed ≡ w₀.crashed
  pub registered : lookup dep w.cancel_map ≡ some none
  pub jobs : w.jobs ≡ w₀.jobs ++ job_of plan dep id profile actor ∷ []
  pub recorded : Recorded dep id DeploymentStatus.running plan.target w.db

record HeldWith (id : String) (w₀ : World) (P : Db → Type 0) (w : World) : Type 0 where
  held : Held id w₀ w
  db : P w.db

move_held :
    {id : String} {w₀ : World} (db : Db) (w : World)
    → Held id w₀ w
    → Held id w₀ (record w { clock = suc w.clock; db = db })
move_held db w h = record {
  free = h.free;
  locks = h.locks;
  crashed = h.crashed;
  cancel_map = h.cancel_map;
  jobs = h.jobs;
}

unlock-Untouched : (id : String) (w₀ w : World) → Held id w₀ w → Untouched w₀ (unlock_cluster id w)
unfolding unlock_cluster
unlock-Untouched id w₀ w h =
    let (m, e, k) = unlock_lem id w.mutex (rw (h.locks id, eq_refl) refl) in
    record {
      locks = λ j. rw (e, k j, h.locks j) ground (arith, eq_iff id j, h.free);
      crashed = rw e h.crashed;
      cancel_map = rw e h.cancel_map;
      jobs = rw e h.jobs;
    }

module _ (env : Env) (plan : Plan) (ctx : Ctx) (actor : ℕ) (id profile : String) (w₀ : World) where
  abbrev Busy : (Db → Type 0) → World → Type 0
  Busy = HeldWith id w₀

  abbrev Any : Db → Type 0
  Any db = Unit

  audit_start-Spec :
      (dep : String)
      → Spec
          (Busy (Recorded dep id DeploymentStatus.running plan.target))
          (Busy (Recorded dep id DeploymentStatus.running plan.target))
          (Untouched w₀)
          (audit env ctx actor plan.action id Outcome.started plan.details)
  unfolding audit
  audit_start-Spec dep = Spec-ignore _ (
      statement_ok-Spec env ctx _ (λ w p. record { held = move_held w.db w p.held; db = p.db })
        (λ w p.
          Ends-always (Busy (Recorded dep id DeploymentStatus.running plan.target)) _ _ (record {
            held = move_held _ w p.held;
            db = insert_audit_entry-Recorded w.clock _ dep id _ plan.target w.db p.db;
          })))

  create-Spec :
      (dep : String)
      → Spec
          (Busy Any)
          (Busy (λ db. row_status dep db ≡ some DeploymentStatus.running))
          (Untouched w₀)
          (on_error
            (statement env ctx λ now. create_deployment now (row_of env plan dep id actor))
            (modify (unlock_cluster id)))
  create-Spec dep =
      Spec-on_error (Held id w₀) _ _
        (statement_ok-Spec env ctx _ (λ w p. move_held w.db w p.held)
          (λ w p.
            Ends-ok {A = Unit {0}} (Busy (λ db. row_status dep db ≡ some DeploymentStatus.running))
              (Held id w₀) _ _
              (λ o. record {
                held = move_held _ w p.held;
                db = create_deployment-row w.clock (row_of env plan dep id actor) w.db o;
              })
              (move_held _ w p.held)))
        (unlock-Untouched id w₀)

  set_target-Spec :
      (dep : String)
      → Spec
          (Busy (λ db. row_status dep db ≡ some DeploymentStatus.running))
          (Busy (Recorded dep id DeploymentStatus.running plan.target))
          (Untouched w₀)
          (on_error
            (statement env ctx λ now. update_cluster_status now id plan.target)
            (modify (unlock_cluster id)))
  set_target-Spec dep =
      Spec-on_error (Held id w₀) _ _
        (statement_ok-Spec env ctx _ (λ w p. move_held w.db w p.held)
          (λ w p.
            Ends-ok {A = Unit {0}} (Busy (Recorded dep id DeploymentStatus.running plan.target))
              (Held id w₀) _ _
              (λ o. record {
                held = move_held _ w p.held;
                db = update_cluster_status-Recorded w.clock dep id _ plan.target w.db p.db o;
              })
              (move_held _ w p.held)))
        (unlock-Untouched id w₀)

  open_log-Spec :
      Spec
        (Held id w₀)
        (Busy Any)
        (Untouched w₀)
        (on_error (run_command env create_log) (modify (unlock_cluster id)))
  unfolding run_command
  open_log-Spec =
      Spec-on_error (Held id w₀) _ _
        (record {
          at = λ w h.
              Ends-ok {A = Unit {0}} (Busy Any) (Held id w₀) _ _
                (λ o. record { held = move_held w.db w h; db = tt }) (move_held w.db w h);
        })
        (unlock-Untouched id w₀)

  commit-SpecR :
      (dep : String)
      → SpecR
          (Busy (Recorded dep id DeploymentStatus.running plan.target))
          (Launched plan id profile actor w₀)
          (Untouched w₀)
          (modify (register dep) >>= λ _.
            modify (spawn (job_of plan dep id profile actor)) >>= λ _. pure dep)
  unfolding ◌>>=◌ register
  commit-SpecR dep = record {
    at = λ w p. record {
      free = p.held.free;
      locks = p.held.locks;
      crashed = p.held.crashed;
      registered = rw (lookup-insert dep dep none w.cancel_map, eq_refl) refl;
      jobs = rw p.held.jobs refl;
      recorded = record { row = p.db.row; cluster = p.db.cluster };
    };
  }

  new_id-Spec : {E : World → Type 0} → Spec (Held id w₀) (Held id w₀) E (new_deployment_id env)
  unfolding new_deployment_id
  new_id-Spec = record { at = λ w h. h }

  pub launch-SpecR :
      SpecR
        (Held id w₀)
        (Launched plan id profile actor w₀)
        (Untouched w₀)
        (launch env plan ctx actor id profile)
  unfolding launch
  launch-SpecR = SpecR-bind {Q = Held id w₀} _ _ new_id-Spec (λ dep.
      SpecR-bind _ _ open_log-Spec (λ _. SpecR-bind _ _ (create-Spec dep) (λ _.
        SpecR-bind _ _ (set_target-Spec dep)
          (λ _. SpecR-bind _ _ (audit_start-Spec dep) (λ _. commit-SpecR dep)))))
