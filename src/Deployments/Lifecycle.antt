-- ===== src/Deployments/Lifecycle.antt =====
-- From the request of a deploy to the end of its goroutine.
use bandolier.Prelude.{
  ℕ, String, false, not, ◌≡◌, refl, ◌==◌, ◌||◌, ◌&&◌, eq_refl, All, none, lookup, find_row,
  text_cases, inl, inr, sym, ◌∙◌, subst, map-some,
}
use bandolier.Status.{Status, ready}
use bandolier.Result.{ok, refused, in_progress}
use bandolier.Store.Tables.{Db, Deployment, Cluster, DeploymentStatus}
use bandolier.Hub.History.{history_of}
use bandolier.Mutex.Laws.{is_locked}
use bandolier.World.{Ctx, Env, World}
use bandolier.World.Rules.{IsQuiet, IsLive}
use bandolier.World.Returns.{Returns}
use bandolier.Deployments.Finish.{Task}
use bandolier.Deployments.Finish.Recorded.{Tracked, Recorded}
use bandolier.Deployments.Finish.Verdict.{Verdict}
use bandolier.Deployments.Outcome.{IsEarly}
use bandolier.Deployments.Pipeline.{run}
use bandolier.Deployments.Pipeline.Run.{run-Concluded}
use bandolier.Deployments.Pipeline.Verdicts.{run-Verdict}
use bandolier.Deployments.Start.{deploy, deploy_plan}
use bandolier.Deployments.Start.Granting.{Granted, start-Granted}
use bandolier.Deployments.Start.Launched.{Untouched}

-- The task of the goroutine that `deploy` starts, on its own context.
abbrev pub task_of : Ctx → String → String → ℕ → Task
task_of ctx dep id actor = record { ctx = ctx; dep_id = dep; cluster_id = id; actor = actor }

-- A row whose status is known is there.
Recorded-Tracked :
    {dep id : String} {s : DeploymentStatus} {c : Status} {db : Db}
    → Recorded dep id s c db
    → Tracked dep id db
Recorded-Tracked {dep} {id} {s} {c} {db} r =
    let (d, e) =
      map-some (λ (x : Deployment). x.status) (find_row (λ x. x.id) dep db.deployments) s r.row in
    let (k, f) =
      map-some (λ (x : Cluster). x.status) (find_row (λ x. x.id) id db.clusters) c r.cluster in
    record { deployment = d; is_deployment = e; cluster = k; is_cluster = f }

deploy-Granted :
    (env : Env) (req : Ctx) (actor : ℕ) (id dep : String) (w w' : World)
    → deploy env req actor id w ≡ (ok dep, w')
    → Granted env deploy_plan id actor w dep w'
unfolding deploy
deploy-Granted env req actor id dep w w' e =
    subst (λ p. Returns (Granted env deploy_plan id actor w) (Untouched w) p.0 p.1) e
      (start-Granted env refused in_progress deploy_plan req actor id w)

-- A lock that was taken and given back.
locks-restored :
    (id j : String) (w w' w'' : World)
    → is_locked id w.mutex ≡ false
    → is_locked j w'.mutex ≡ (id == j || is_locked j w.mutex)
    → is_locked j w''.mutex ≡ (not (id == j) && is_locked j w'.mutex)
    → is_locked j w''.mutex ≡ is_locked j w.mutex
locks-restored id j w w' w'' free taken given = elim (text_cases id j) [
  | inl same ↦ given ∙ rw (same, eq_refl) (sym (subst (λ x. is_locked x w.mutex ≡ false) same free))
  | inr other ↦ given ∙ rw (other, taken, other) refl
]

-- Once a deploy that was granted has run to its end, whatever happened on the way, every lock is
-- as it was before the request, its cluster's too, nothing was unlocked twice, and the deploy can
-- no longer be cancelled. Its id is fresh: no terminal event bears it.
pub run-deploy :
    (env : Env) (req ctx : Ctx) (actor : ℕ) (id dep : String) (w w' : World)
    → deploy env req actor id w ≡ (ok dep, w')
    → All IsEarly (history_of dep w'.hub)
    → ((j : String)
        → is_locked j (run env (task_of ctx dep id actor) w').1.mutex ≡ is_locked j w.mutex)
      × ((run env (task_of ctx dep id actor) w').1.crashed ≡ w.crashed)
      × (lookup dep (run env (task_of ctx dep id actor) w').1.cancel_map ≡ none)
run-deploy env req ctx actor id dep w w' e early =
    let g = (deploy-Granted env req actor id dep w w' e).launched in
    let r =
      (run-Concluded env (task_of ctx dep id actor) w' (rw (g.locks id, eq_refl) refl) early).1 in
    (
      λ j.
          locks-restored id j w w' (run env (task_of ctx dep id actor) w').1 g.free (g.locks j)
            (r.locks j),
      r.crashed ∙ g.crashed,
      r.deregistered,
    )

-- No statement fails, the goroutine is never cancelled, and the id is fresh. Then a deploy that was
-- granted leaves its row at `succeeded` and the cluster `ready` if its steps ran through, and its
-- row at `failed` and the cluster in `error` if one did not.
pub run-deploy-Verdict :
    (env : Env) (req ctx : Ctx) (actor : ℕ) (id dep : String) (w w' : World)
    → deploy env req actor id w ≡ (ok dep, w')
    → All IsEarly (history_of dep w'.hub)
    → IsQuiet env
    → IsLive ctx
    → Verdict
        (task_of ctx dep id actor)
        ready
        (run env (task_of ctx dep id actor) w').0
        (run env (task_of ctx dep id actor) w').1
run-deploy-Verdict env req ctx actor id dep w w' e early quiet live =
    run-Verdict env (task_of ctx dep id actor) w' quiet live
      (Recorded-Tracked (deploy-Granted env req actor id dep w w' e).launched.recorded) early
