-- ===== src/Apps/Executor/Starting.antt =====
-- What a request of the package apps leaves behind, whether it is granted or refused.
use bandolier.Prelude.{
  ℕ, suc, String, true, false, ◌≡◌, refl, ◌==◌, ◌||◌, eq_refl, eq_iff, arith, [], ◌∷◌, ◌++◌, none,
  some, lookup, lookup-insert, inl, inr, Bool-cases,
}
use bandolier.Mutex.Laws.{is_locked, try_lock_lem, unlock_lem}
use bandolier.Store.Tables.{Db, Outcome, Details}
use bandolier.Store.Audits.{Entry, insert_audit_entry}
use bandolier.Result.{of_apps, ok, is_ok, cluster_busy}
use bandolier.World.{Ctx, Env, World, create_log}
use bandolier.World.Exec.{Exec, pure, modify, ◌>>=◌}
use bandolier.World.Calls.{statement, run_command, tick}
use bandolier.World.Triples.{
  Ends-ok, Spec, Spec-bind, Spec-catch, Spec-ignore, Spec-modify, Spec-raise,
}
use bandolier.World.Returns.{Returns, SpecR, SpecR-bind, statement_ok-Spec}
use bandolier.World.Rules.{Ends-always}
use bandolier.Deployments.Effects.{unlock_cluster, audit}
use bandolier.Deployments.Start.{take_lock}
use bandolier.Deployments.Start.Granting.{take_lock-free, take_lock-busy}
use bandolier.Apps.Store.{create_install, get_install}
use bandolier.Apps.Store.Laws.{stored, get_install-create_install}
use bandolier.Apps.Executor.{
  InstallPlan, app_job, start_install, new_install_id, or_unlock, register_install, spawn_install,
}

-- No lock, cancel func or goroutine of the package apps has come or gone.
pub record Unstarted (w₀ w : World) : Type 0 where
  pub locks : (id : String) → is_locked id w.mutex ≡ is_locked id w₀.mutex
  pub crashed : w.crashed ≡ w₀.crashed
  pub cancels : w.apps.cancels ≡ w₀.apps.cancels
  pub jobs : w.apps.jobs ≡ w₀.apps.jobs

-- The cluster was free and is locked; nothing else has changed but the database and the time.
record Holding (id : String) (w₀ w : World) : Type 0 where
  free : is_locked id w₀.mutex ≡ false
  locks : (j : String) → is_locked j w.mutex ≡ (id == j || is_locked j w₀.mutex)
  crashed : w.crashed ≡ w₀.crashed
  cancels : w.apps.cancels ≡ w₀.apps.cancels
  jobs : w.apps.jobs ≡ w₀.apps.jobs

-- The row of the install is there as the plan has it, with the time of its start.
abbrev pub IsStored : InstallPlan → String → Db → Type 0
IsStored plan id db =
    (now : ℕ) × (get_install id db ≡ ok (stored now (record plan.row { id = id })))

-- The operation `id` has started: its cluster, which was free, is locked, no other lock was
-- touched, the goroutine is there and can be cancelled, and its row says what was asked for.
pub record Started (plan : InstallPlan) (actor : ℕ) (w₀ : World) (id : String) (w : World)
    : Type 0 where
  pub free : is_locked plan.row.cluster_id w₀.mutex ≡ false
  pub locks :
      (j : String) → is_locked j w.mutex ≡ (plan.row.cluster_id == j || is_locked j w₀.mutex)
  pub crashed : w.crashed ≡ w₀.crashed
  pub registered : lookup id w.apps.cancels ≡ some none
  pub jobs : w.apps.jobs ≡ w₀.apps.jobs ++ app_job plan id actor ∷ []
  pub row : IsStored plan id w.db

record HoldingWith (id : String) (w₀ : World) (P : Db → Type 0) (w : World) : Type 0 where
  held : Holding id w₀ w
  db : P w.db

move_holding :
    {id : String} {w₀ : World} (db : Db) (w : World)
    → Holding id w₀ w
    → Holding id w₀ (record w { clock = suc w.clock; db = db })
move_holding db w h = record {
  free = h.free;
  locks = h.locks;
  crashed = h.crashed;
  cancels = h.cancels;
  jobs = h.jobs;
}

unlock-Unstarted :
    (id : String) (w₀ w : World) → Holding id w₀ w → Unstarted w₀ (unlock_cluster id w)
unfolding unlock_cluster
unlock-Unstarted id w₀ w h =
    let (m, e, k) = unlock_lem id w.mutex (rw (h.locks id, eq_refl) refl) in
    record {
      locks = λ j. rw (e, k j, h.locks j) ground (arith, eq_iff id j, h.free);
      crashed = rw e h.crashed;
      cancels = rw e h.cancels;
      jobs = rw e h.jobs;
    }

take_lock-Holding :
    (id : String) (w₀ : World)
    → Spec (λ w. w ≡ w₀) (Holding id w₀) (Unstarted w₀) (take_lock (of_apps cluster_busy) id)
take_lock-Holding id w₀ = record {
  at = λ w same. elim (Bool-cases (is_locked id w₀.mutex)) [
    | inl h ↦
        rw (same, take_lock-busy (of_apps cluster_busy) id w₀ h)
          (record { locks = λ j. refl; crashed = refl; cancels = refl; jobs = refl })
    | inr h ↦
        rw (same, take_lock-free (of_apps cluster_busy) id w₀ h)
          (record {
            free = h;
            locks = λ j. (try_lock_lem id j w₀.mutex).1;
            crashed = refl;
            cancels = refl;
            jobs = refl;
          })
  ];
}

or_unlock-Spec :
    {A : Type 0} {P Q : World → Type 0} (id prefix : String) (w₀ : World) (m : Exec A)
    → Spec P Q (Holding id w₀) m
    → Spec P Q (Unstarted w₀) (or_unlock id prefix m)
unfolding or_unlock
or_unlock-Spec id prefix w₀ m sm = Spec-catch {E' = Holding id w₀} m _ sm (λ e.
    Spec-bind {Q = Unstarted w₀} _ _ (Spec-modify _ (unlock-Unstarted id w₀))
      (λ _. Spec-raise (λ w u. u) _))

IsStored-audit :
    (now : ℕ) (e : Entry) (plan : InstallPlan) (id : String) (db : Db)
    → IsStored plan id db
    → IsStored plan id (insert_audit_entry now e db).1
unfolding insert_audit_entry get_install
IsStored-audit now e plan id db (n, h) = (n, ground arith)

created-IsStored :
    (now : ℕ) (plan : InstallPlan) (id : String) (db : Db)
    → is_ok (create_install now (record plan.row { id = id }) db).0 ≡ true
    → IsStored plan id (create_install now (record plan.row { id = id }) db).1
created-IsStored now plan id db o =
    (now, rw (get_install-create_install now (record plan.row { id = id }) db id o, eq_refl) refl)

module _ (env : Env) (ctx : Ctx) (actor : ℕ) (plan : InstallPlan) (w₀ : World) where
  abbrev With : (Db → Type 0) → World → Type 0
  With = HoldingWith plan.row.cluster_id w₀

  open_log-Spec :
      Spec
        (Holding plan.row.cluster_id w₀)
        (Holding plan.row.cluster_id w₀)
        (Unstarted w₀)
        (or_unlock plan.row.cluster_id "open log: " (run_command env create_log))
  unfolding run_command
  open_log-Spec = or_unlock-Spec plan.row.cluster_id _ w₀ _ (record {
    at = λ w h. Ends-always (Holding plan.row.cluster_id w₀) _ (tick w) (move_holding w.db w h);
  })

  create-Spec :
      (id : String)
      → Spec (Holding plan.row.cluster_id w₀) (With (IsStored plan id)) (Unstarted w₀) (
          or_unlock plan.row.cluster_id "create install row: "
            (statement env ctx λ now. create_install now (record plan.row { id = id })))
  create-Spec id = or_unlock-Spec plan.row.cluster_id _ w₀ _ (
      statement_ok-Spec env ctx _ (λ w h. move_holding w.db w h)
        (λ w h.
          Ends-ok {A = Unit {0}} (With (IsStored plan id)) (Holding plan.row.cluster_id w₀) _ _
            (λ o. record {
              held = move_holding _ w h;
              db = created-IsStored w.clock plan id w.db o;
            })
            (move_holding _ w h)))

  audit-Spec :
      (id : String) (o : Outcome) (d : Details)
      → Spec
          (With (IsStored plan id))
          (With (IsStored plan id))
          (Unstarted w₀)
          (audit env ctx actor plan.action plan.row.cluster_id o d)
  unfolding audit
  audit-Spec id o d = Spec-ignore _ (
      statement_ok-Spec env ctx _ (λ w p. record { held = move_holding w.db w p.held; db = p.db })
        (λ w p. Ends-always (With (IsStored plan id)) _ _ (record {
          held = move_holding _ w p.held;
          db = IsStored-audit w.clock _ plan id w.db p.db;
        })))

  commit-SpecR :
      (id : String)
      → SpecR (With (IsStored plan id)) (Started plan actor w₀) (Unstarted w₀) (
          modify (register_install id) >>= λ _.
          modify (spawn_install (app_job plan id actor)) >>= λ _. pure id)
  unfolding ◌>>=◌ register_install
  commit-SpecR id = record {
    at = λ w p. record {
      free = p.held.free;
      locks = p.held.locks;
      crashed = p.held.crashed;
      registered = rw (lookup-insert id id none w.apps.cancels, eq_refl) refl;
      jobs = rw p.held.jobs refl;
      row = p.db;
    };
  }

  new_id-Spec :
      Spec
        (Holding plan.row.cluster_id w₀)
        (Holding plan.row.cluster_id w₀)
        (Unstarted w₀)
        (new_install_id env)
  unfolding new_install_id
  new_id-Spec = record { at = λ w h. h }

-- A request to install, upgrade or uninstall an app, or to install a bundle, that returns an id has
-- found the cluster free, and its operation has started under the lock: the goroutine is there and
-- can be cancelled, and the row of the install is stored as it was asked for. One that returns an
-- error, because the cluster is busy or because the log or the row could not be made, leaves every
-- lock, the cancel funcs and the goroutines as they were.
pub start_install-Started :
    (env : Env) (ctx : Ctx) (actor : ℕ) (plan : InstallPlan) (w : World)
    → Returns
        (Started plan actor w)
        (Unstarted w)
        (start_install env ctx actor plan w).0
        (start_install env ctx actor plan w).1
unfolding start_install
start_install-Started env ctx actor plan w =
    (SpecR-bind _ _ (take_lock-Holding plan.row.cluster_id w) (λ _.
        SpecR-bind _ _ (new_id-Spec env ctx actor plan w) (λ id.
          SpecR-bind _ _ (open_log-Spec env ctx actor plan w) (λ _.
            SpecR-bind _ _ (create-Spec env ctx actor plan w id) (λ _.
              SpecR-bind _ _ (audit-Spec env ctx actor plan w id _ _)
                (λ _. commit-SpecR env ctx actor plan w id)))))).at
      w refl
