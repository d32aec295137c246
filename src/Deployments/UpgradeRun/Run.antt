-- ===== src/Deployments/UpgradeRun/Run.antt =====
-- How an upgrade ends.
use bandolier.Prelude.{String, true, ◌≡◌, refl, All}
use bandolier.Status.{ready}
use bandolier.Store.Tables.{cluster_upgrade}
use bandolier.Hub.History.{history_of}
use bandolier.Mutex.Laws.{is_locked}
use bandolier.World.{Env, World}
use bandolier.World.Triples.{Spec, Spec-bind}
use bandolier.Deployments.Finish.{Task}
use bandolier.Deployments.Finish.Must.{emit-Spec, must-Spec, end_must-Spec}
use bandolier.Deployments.Finish.Specs.{fail-Spec, record_success-Spec, announce_success-Spec}
use bandolier.Deployments.Finish.Release.{Concluded, Released, with_defers-Released}
use bandolier.Deployments.Outcome.{IsEarly, InProgress, InProgress-Stable, Stopped, Succeeded}
use bandolier.Deployments.Stable.{Stable, run_command-Spec, run_streamed-Spec}
use bandolier.Deployments.UpgradeRun.{
  fail_upgrade, roll_out, upgrade_body, run_upgrade, upgrade_details,
}

module _ (t : Task) (version : String) {I E : World → Type 0} (st : Stable t.dep_id I) (env : Env)
    (failing : (msg : String) → Spec I I E (fail_upgrade env t version {A = Unit {0}} msg)) where
  pub roll_out-Spec : Spec I I E (roll_out env t version)
  unfolding roll_out
  roll_out-Spec = Spec-bind _ _ (must-Spec st _ failing _ _ (run_command-Spec st env _)) (λ _.
      Spec-bind _ _ (must-Spec st _ failing _ _ (run_command-Spec st env _)) (λ _.
        Spec-bind _ _ (must-Spec st _ failing _ _ (run_command-Spec st env _)) (λ _.
          Spec-bind _ _ (emit-Spec st _ refl) (λ _.
            Spec-bind _ _ (end_must-Spec t st _ failing _ _ _ (run_command-Spec st env _)) (λ _.
              Spec-bind _ _ (end_must-Spec t st _ failing _ _ _ (run_streamed-Spec st env _))
                (λ _. emit-Spec st _ refl))))))

upgrade_body-Spec :
    (env : Env) (t : Task) (version : String) (w₀ : World)
    → Spec
        (InProgress t.dep_id w₀)
        (Succeeded t.dep_id w₀)
        (Stopped t.dep_id w₀)
        (upgrade_body env t version)
unfolding upgrade_body fail_upgrade
upgrade_body-Spec env t version w₀ =
    Spec-bind _ _
      (roll_out-Spec t version (InProgress-Stable t.dep_id w₀) env
        (λ msg. fail-Spec env t w₀ cluster_upgrade (upgrade_details env t version) msg))
      (λ _.
        Spec-bind _ _
          (record_success-Spec env t w₀ ready cluster_upgrade (upgrade_details env t version))
          (λ _. announce_success-Spec env t w₀))

-- When the goroutine of an upgrade ends, whatever the commands and the database answer and
-- whenever it is cancelled: exactly one terminal event was published, it is the last of the
-- history, and says `succeeded` exactly if no step failed; and the cluster's lock is free, no
-- other lock was touched, nothing was unlocked twice, and the cancel func is gone. It starts with
-- the lock held and before any terminal event.
pub run_upgrade-Concluded :
    (env : Env) (t : Task) (version : String) (w : World)
    → is_locked t.cluster_id w.mutex ≡ true
    → All IsEarly (history_of t.dep_id w.hub)
    → Concluded t.dep_id (run_upgrade env t version w).0 (run_upgrade env t version w).1
      × Released t w (run_upgrade env t version w).1
unfolding run_upgrade
run_upgrade-Concluded env t version w held early =
    with_defers-Released t w held (upgrade_body env t version w).0 (upgrade_body env t version w).1
      ((upgrade_body-Spec env t version w).at w
        (record { control = (refl, refl, refl, refl); early = early }))
