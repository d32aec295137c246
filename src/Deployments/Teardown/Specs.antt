-- ===== src/Deployments/Teardown/Specs.antt =====
-- The steps of a destroy keep what is stable for the deployment, up to the first that fails.
use bandolier.Prelude.{String, refl}
use bandolier.Result.{Result, ok, err}
use bandolier.World.{Env, World, stdout}
use bandolier.World.Exec.{Exec}
use bandolier.World.Triples.{Spec, Spec-bind, Spec-attempt, Spec-pure}
use bandolier.Deployments.Effects.{line_event, started_event, ended_event}
use bandolier.Deployments.Finish.{Task}
use bandolier.Deployments.Finish.Must.{emit-Spec, must-Spec, end_must-Spec}
use bandolier.Deployments.Stable.{Stable, run_command-Spec, run_streamed-Spec}
use bandolier.Deployments.Teardown.{fail_destroy, destroy_step, report_hook, tear_down, print}

pub print-Spec :
    (t : Task) {I E : World → Type 0}
    → Stable t.dep_id I
    → (text : String) → Spec I I E (print t text)
print-Spec t st text = emit-Spec st (line_event (stdout text)) refl

module _ (t : Task) {I E : World → Type 0} (st : Stable t.dep_id I) (env : Env)
    (failing : (A : Type 0) (msg : String) → Spec I I E (fail_destroy env t {A = A} msg)) where
  destroy_step-Spec :
      (name prefix : String) (m : Exec (Unit {0}))
      → Spec I I I m
      → Spec I I E (destroy_step env t name prefix m)
  unfolding destroy_step
  destroy_step-Spec name prefix m sm = Spec-bind _ _ (emit-Spec st (started_event name) refl) (λ _.
      Spec-bind _ _ (end_must-Spec t st (fail_destroy env t) (failing _) name prefix m sm)
        (λ _. emit-Spec st (ended_event name 0) refl))

  report_hook-Spec : (r : Result (Unit {0})) → Spec I I E (report_hook env t r)
  report_hook-Spec (ok _) = Spec-pure (λ w i. i) tt
  report_hook-Spec (err e) = print-Spec t st _

  pub tear_down-Spec : Spec I I E (tear_down env t)
  unfolding tear_down
  tear_down-Spec =
      Spec-bind _ _ (must-Spec st (fail_destroy env t) (failing _) _ _ (run_command-Spec st env _))
        (λ _.
          Spec-bind _ _
            (must-Spec st (fail_destroy env t) (failing _) _ _ (run_command-Spec st env _))
            (λ _.
              Spec-bind _ _
                (must-Spec st (fail_destroy env t) (failing _) _ _ (run_command-Spec st env _))
                (λ _.
                  Spec-bind _ _
                    (must-Spec st (fail_destroy env t) (failing _) _ _ (run_command-Spec st env _))
                    (λ _.
                      Spec-bind _ _
                        (must-Spec st (fail_destroy env t) (failing _) _ _
                          (run_command-Spec st env _))
                        (λ _.
                          Spec-bind _ _ (destroy_step-Spec _ _ _ (run_streamed-Spec st env _)) (λ _.
                            Spec-bind _ _ (destroy_step-Spec _ _ _ (run_streamed-Spec st env _))
                              (λ _.
                                Spec-bind _ _ (Spec-attempt _ (run_command-Spec st env _))
                                  report_hook-Spec)))))))
