-- ===== src/Apps/Runs.antt =====
-- The goroutine that a request of the package apps has spawned, whatever it is to do, and how it
-- ends.

pub mod Settling
use bandolier.Prelude.{String, true, ◌≡◌, refl, All, Option}
use bandolier.Mutex.Laws.{is_locked}
use bandolier.Store.Tables.{DeploymentStatus, Outcome}
use bandolier.Hub.History.{history_of}
use bandolier.Result.{Result, ok, err}
use bandolier.World.{Env, World}
use bandolier.World.Exec.{Exec}
use bandolier.World.Calls.{background, ctx_done}
use bandolier.World.Returns.{Never}
use bandolier.World.Rules.{statement-Spec}
use bandolier.World.Triples.{Spec, Spec-bind, Spec-ignore, Spec-modify, Ends}
use bandolier.Deployments.Effects.{emit, complete_event, audit, finish_status}
use bandolier.Deployments.Outcome.{IsEarly, announce, Announced}
use bandolier.Deployments.Finish.Must.{emit-Spec}
use bandolier.Apps.Types.{Work, run_helm, run_uninstall, run_bundle}
use bandolier.Apps.Run.{
  AppTask, Subject, finish, finish_with, message, with_install_defers, is_some,
}
use bandolier.Apps.Goroutines.{run_install_or_upgrade, run_uninstall_release}
use bandolier.Apps.Goroutines.Specs.{install_or_upgrade_body-Spec, uninstall_body-Spec}
use bandolier.Apps.Bundle.Loop.{run_bundle_install}
use bandolier.Apps.Bundle.Specs.{bundle_body-Spec}
use bandolier.Apps.Outcome.{
  Installing, Finished, Freed, Installing-Stable, Installing-IsLoose, after_defers,
  Announced-after_defers, after_defers-Freed,
}

-- `go e.runInstallOrUpgrade(…)`, `go e.runUninstall(…)` and `go e.runBundleInstall(…)`.
unfoldable pub run_work : Env → AppTask → Work → Exec (Unit {0})
unfolding run_install_or_upgrade run_uninstall_release run_bundle_install
run_work env t (run_helm req op) = run_install_or_upgrade env t req op
run_work env t (run_uninstall release namespace) = run_uninstall_release env t release namespace
run_work env t (run_bundle req fqdn) = run_bundle_install env t req fqdn

module _ (env : Env) (t : AppTask) (w₀ : World) where
  abbrev Going : World → Type 0
  Going = Installing t.install_id w₀

  abbrev Done : World → Type 0
  Done = Finished t.install_id w₀

  conclude :
      (s : DeploymentStatus) (msg : String) (w : World)
      → Going w
      → Done (emit t.install_id (complete_event s msg) w)
  unfolding emit
  conclude s msg w i = record {
    control = i.control;
    status = s;
    announced = announce t.install_id s msg w i.early;
  }

  finish_with-Spec :
      (s : Subject) (verdict : DeploymentStatus × Outcome) (e : Option String)
      → Spec Going Done Never (finish_with env t s verdict e)
  unfolding audit
  finish_with-Spec s verdict e =
      Spec-bind _ _
        (Spec-ignore _ (statement-Spec (Installing-IsLoose t.install_id w₀) env background _))
        (λ _.
          Spec-bind _ _
            (Spec-ignore _ (statement-Spec (Installing-IsLoose t.install_id w₀) env background _))
            (λ _.
              Spec-bind _ _ (emit-Spec (Installing-Stable t.install_id w₀) _ refl)
                (λ _. Spec-modify _ (conclude verdict.0 (message e)))))

  finish-Spec : (s : Subject) (e : Option String) → Spec Going Done Never (finish env t s e)
  unfolding finish
  finish-Spec s e = record {
    at = λ w. (finish_with-Spec s (finish_status (ctx_done t.ctx w.clock) (is_some e)) e).at w;
  }

  defers-Freed :
      (body : Exec (Unit {0})) (w : World)
      → Spec Going Done Never body
      → Going w
      → is_locked t.cluster_id w₀.mutex ≡ true
      → ((with_install_defers t body w).0 ≡ ok tt)
        × ((s : DeploymentStatus) × Announced t.install_id s (with_install_defers t body w).1)
        × Freed t w₀ (with_install_defers t body w).1
  defers-Freed body w sp i held = ends (body w).0 (body w).1 (sp.at w i)
    where
      ends :
          (r : Result (Unit {0})) (v : World)
          → Ends Done Never r v
          → (r ≡ ok tt)
            × ((s : DeploymentStatus) × Announced t.install_id s (after_defers t v))
            × Freed t w₀ (after_defers t v)
      ends (ok u) v d = (
        refl,
        (d.status, Announced-after_defers t w₀ v d.status d.announced),
        after_defers-Freed t w₀ v d.control held,
      )
      ends (err e) v d = absurd d

start_of :
    (t : AppTask) (w : World)
    → All IsEarly (history_of t.install_id w.hub)
    → Installing t.install_id w w
start_of t w early = record { control = ((refl, refl, refl, refl), refl, refl); early = early }

-- Whatever helm, kubectl, Vault and the database answer, and whenever it is cancelled, the
-- goroutine of an install, an upgrade, an uninstall or a bundle comes to its end without an error:
-- exactly one terminal event was published and it is the last of the history, the cluster's lock is
-- free again, no other lock was touched, nothing was unlocked twice, and the cancel func is gone.
-- It starts with the lock held and before any terminal event.
pub run_work-Freed :
    (env : Env) (t : AppTask) (work : Work) (w : World)
    → is_locked t.cluster_id w.mutex ≡ true
    → All IsEarly (history_of t.install_id w.hub)
    → ((run_work env t work w).0 ≡ ok tt)
      × ((s : DeploymentStatus) × Announced t.install_id s (run_work env t work w).1)
      × Freed t w (run_work env t work w).1
unfolding run_work
run_work-Freed env t (run_helm req op) w held early =
    defers-Freed env t w _ w
      (install_or_upgrade_body-Spec t (Installing-Stable t.install_id w) env
        (Spec-ignore _ (statement-Spec (Installing-IsLoose t.install_id w) env t.ctx _))
        (finish-Spec env t w) req op)
      (start_of t w early) held
run_work-Freed env t (run_uninstall release namespace) w held early =
    defers-Freed env t w _ w
      (uninstall_body-Spec t (Installing-Stable t.install_id w) env
        (Spec-ignore _ (statement-Spec (Installing-IsLoose t.install_id w) env t.ctx _))
        (finish-Spec env t w) release namespace)
      (start_of t w early) held
run_work-Freed env t (run_bundle req fqdn) w held early =
    defers-Freed env t w _ w
      (bundle_body-Spec t (Installing-Stable t.install_id w) env req fqdn (finish-Spec env t w))
      (start_of t w early) held
