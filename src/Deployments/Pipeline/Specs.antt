-- ===== src/Deployments/Pipeline/Specs.antt =====
-- The deploy's steps keep what is stable for the deployment; the first that fails ends it by
-- `fail_deploy`.
use bandolier.Prelude.{String, refl}
use bandolier.Result.{Result, ok, err}
use bandolier.World.{Env, World}
use bandolier.World.Exec.{Exec}
use bandolier.World.Triples.{Spec, Spec-bind, Spec-attempt}
use bandolier.Deployments.Effects.{started_event, ended_event}
use bandolier.Deployments.Finish.{Task}
use bandolier.Deployments.Finish.Must.{emit-Spec, must-Spec, end_must-Spec}
use bandolier.Deployments.Stable.{Stable, run_command-Spec, read_output-Spec, run_streamed-Spec}
use bandolier.Deployments.Steps.Specs.{
  fetch_kubeconfig-Spec, fetch_join_token-Spec, write_wildcard_dns-Spec, issue_wildcard_tls-Spec,
  install_traefik-Spec,
}
use bandolier.Deployments.Pipeline.{
  fail_deploy, in_step, terraform, playbook, report_kubeconfig, report_join_token,
  fetch_credentials, ingress, prepare,
}

module _ (t : Task) {I E : World → Type 0} (st : Stable t.dep_id I) (env : Env)
    (failing : (A : Type 0) (msg : String) → Spec I I E (fail_deploy env t {A = A} msg)) where
  in_step-Spec :
      (name prefix : String) (m : Exec (Unit {0}))
      → Spec I I I m
      → Spec I I E (in_step env t name prefix m)
  unfolding in_step
  in_step-Spec name prefix m sm = Spec-bind _ _ (emit-Spec st (started_event name) refl) (λ _.
      Spec-bind _ _ (end_must-Spec t st (fail_deploy env t) (failing _) name prefix m sm)
        (λ _. emit-Spec st (ended_event name 0) refl))

  terraform-Spec : Spec I I E (terraform env t)
  unfolding terraform
  terraform-Spec =
      Spec-bind _ _ (must-Spec st (fail_deploy env t) (failing _) _ _ (run_command-Spec st env _))
        (λ _.
          Spec-bind _ _
            (must-Spec st (fail_deploy env t) (failing _) _ _ (run_command-Spec st env _))
            (λ _.
              Spec-bind _ _
                (must-Spec st (fail_deploy env t) (failing _) _ _ (run_command-Spec st env _))
                (λ _.
                  Spec-bind _ _
                    (must-Spec st (fail_deploy env t) (failing _) _ _ (run_command-Spec st env _))
                    (λ _. Spec-bind _ _ (in_step-Spec _ _ _ (run_streamed-Spec st env _)) (λ _.
                      Spec-bind _ _ (in_step-Spec _ _ _ (run_streamed-Spec st env _)) (λ _.
                        must-Spec st (fail_deploy env t) (failing _) _ _
                          (read_output-Spec st env _)))))))

  playbook-Spec : Spec I I E (playbook env t)
  unfolding playbook
  playbook-Spec = Spec-bind _ _ (in_step-Spec _ _ _ (run_command-Spec st env _)) (λ _.
      Spec-bind _ _ (emit-Spec st _ refl) (λ _.
        Spec-bind _ _
          (end_must-Spec t st (fail_deploy env t) (failing _) _ _ _ (run_command-Spec st env _))
          (λ _.
            Spec-bind _ _
              (end_must-Spec t st (fail_deploy env t) (failing _) _ _ _ (run_command-Spec st env _))
              (λ _.
                Spec-bind _ _
                  (end_must-Spec t st (fail_deploy env t) (failing _) _ _ _
                    (run_command-Spec st env _))
                  (λ _.
                    Spec-bind _ _
                      (end_must-Spec t st (fail_deploy env t) (failing _) _ _ _
                        (run_command-Spec st env _))
                      (λ _.
                        Spec-bind _ _
                          (end_must-Spec t st (fail_deploy env t) (failing _) _ _ _
                            (run_streamed-Spec st env _))
                          (λ _. emit-Spec st _ refl)))))))

  report_kubeconfig-Spec : (r : Result (Unit {0})) → Spec I I E (report_kubeconfig env t r)
  report_kubeconfig-Spec (ok _) = emit-Spec st _ refl
  report_kubeconfig-Spec (err e) = emit-Spec st _ refl

  report_join_token-Spec : (r : Result (Unit {0})) → Spec I I E (report_join_token env t r)
  report_join_token-Spec (ok _) = Spec-bind _ _ (emit-Spec st _ refl) (λ _. emit-Spec st _ refl)
  report_join_token-Spec (err e) = Spec-bind _ _ (emit-Spec st _ refl) (λ _. emit-Spec st _ refl)

  fetch_credentials-Spec : (ip : String) → Spec I I E (fetch_credentials env t ip)
  unfolding fetch_credentials
  fetch_credentials-Spec ip =
      Spec-bind _ _ (Spec-attempt _ (fetch_kubeconfig-Spec st env t.ctx t.cluster_id ip)) (λ r.
        Spec-bind _ _ (report_kubeconfig-Spec r) (λ _. Spec-bind _ _ (emit-Spec st _ refl) (λ _.
          Spec-bind _ _ (Spec-attempt _ (fetch_join_token-Spec st env t.ctx t.cluster_id))
            report_join_token-Spec)))

  ingress-Spec : (ip : String) → Spec I I E (ingress env t ip)
  unfolding ingress
  ingress-Spec ip =
      Spec-bind _ _ (in_step-Spec _ _ _ (write_wildcard_dns-Spec st env t.ctx t.cluster_id ip))
        (λ _.
          Spec-bind _ _ (in_step-Spec _ _ _ (issue_wildcard_tls-Spec st env t.ctx t.cluster_id))
            (λ _. in_step-Spec _ _ _ (install_traefik-Spec st env t.ctx t.cluster_id)))

  pub prepare-Spec : Spec I I E (prepare env t)
  unfolding prepare
  prepare-Spec = Spec-bind _ _ terraform-Spec (λ ip.
      Spec-bind _ _ playbook-Spec
        (λ _. Spec-bind _ _ (fetch_credentials-Spec ip) (λ _. ingress-Spec ip)))
