-- ===== src/Deployments/Steps/Specs.antt =====
-- The steps of deployments/Steps leave alone whatever is stable for the deployment.
use bandolier.Prelude.{String, Bool, true, false, Option, none, some}
use bandolier.Result.{Result, ok, err}
use bandolier.World.{Ctx, Env, World, Secret}
use bandolier.World.Calls.{tick}
use bandolier.World.Exec.{modify, Exec}
use bandolier.World.Triples.{
  Spec, Spec-bind, Spec-pure, Spec-modify, Spec-raise, Spec-catch, Spec-attempt,
}
use bandolier.Deployments.Stable.{
  Stable, run_command-Spec, read_output-Spec, vault_get-Spec, vault_put-Spec, vault_issue-Spec,
  run_streamed-Spec,
}
use bandolier.Deployments.Steps.{
  wrapped, check, some_or, or_raise, Provider, none_provider, bind_provider, stub_provider,
  fetch_kubeconfig, fetch_join_token, upsert, write_record, settle, write_wildcard_dns,
  issue_wildcard_cert, issue_wildcard_tls, install_traefik,
}

module _ {dep : String} {I : World → Type 0} (st : Stable dep I) where
  pub wrapped-Spec :
      {A : Type 0} (p : String) (m : Exec A) → Spec I I I m → Spec I I I (wrapped p m)
  wrapped-Spec p m sm = Spec-catch m _ sm (λ e. Spec-raise (λ w i. i) _)

  pub check-Spec : (b : Bool) (msg : String) → Spec I I I (check b msg)
  check-Spec true msg = Spec-pure (λ w i. i) tt
  check-Spec false msg = Spec-raise (λ w i. i) _

  some_or-Spec : {A : Type 0} (msg : String) (o : Option A) → Spec I I I (some_or msg o)
  some_or-Spec msg none = Spec-raise (λ w i. i) _
  some_or-Spec msg (some a) = Spec-pure (λ w i. i) a

  or_raise-Spec : {A : Type 0} (r : Result A) → Spec I I I (or_raise r)
  or_raise-Spec (ok a) = record { at = λ w i. i }
  or_raise-Spec (err e) = record { at = λ w i. i }

  module _ (env : Env) (ctx : Ctx) (id : String) where
    pub fetch_kubeconfig-Spec : (ip : String) → Spec I I I (fetch_kubeconfig env ctx id ip)
    unfolding fetch_kubeconfig
    fetch_kubeconfig-Spec ip =
        Spec-bind _ _ (wrapped-Spec _ _ (read_output-Spec st env _))
          (λ out. wrapped-Spec _ _ (record { at = λ w. (vault_put-Spec st env ctx _ _).at w }))

    pub fetch_join_token-Spec : Spec I I I (fetch_join_token env ctx id)
    unfolding fetch_join_token
    fetch_join_token-Spec = Spec-bind _ _ (wrapped-Spec _ _ (read_output-Spec st env _)) (λ out.
        Spec-bind _ _ (check-Spec _ _)
          (λ _. wrapped-Spec _ _ (record { at = λ w. (vault_put-Spec st env ctx _ _).at w })))

    upsert-Spec : (p : Provider) (name ip : String) → Spec I I I (upsert env ctx id p name ip)
    unfolding upsert
    upsert-Spec none_provider name ip = Spec-pure (λ w i. i) tt
    upsert-Spec bind_provider name ip = run_command-Spec st env _
    upsert-Spec stub_provider name ip = Spec-raise (λ w i. i) _

    wait-Spec : Spec I I I (modify tick)
    wait-Spec = Spec-modify _ (λ w i. st.on_call w.vault w i)

    settle-Spec : (p : Provider) → Spec I I I (settle env ctx id p)
    settle-Spec none_provider = Spec-pure (λ w i. i) tt
    settle-Spec bind_provider = wait-Spec
    settle-Spec stub_provider = wait-Spec

    write_record-Spec :
        (ip : String) (r : Result Secret) → Spec I I I (write_record env ctx id ip r)
    write_record-Spec ip (err e) = Spec-pure (λ w i. i) tt
    write_record-Spec ip (ok dns) =
        Spec-bind _ _ (wrapped-Spec _ _ (vault_get-Spec st env ctx _)) (λ net.
          Spec-bind _ _ (check-Spec _ _) (λ _.
            Spec-bind _ _ (or_raise-Spec _)
              (λ p. Spec-bind _ _ (upsert-Spec p _ ip) (λ _. settle-Spec p))))

    pub write_wildcard_dns-Spec : (ip : String) → Spec I I I (write_wildcard_dns env ctx id ip)
    unfolding write_wildcard_dns
    write_wildcard_dns-Spec ip =
        Spec-bind _ _ (Spec-attempt _ (vault_get-Spec st env ctx _)) (write_record-Spec ip)

    issue_wildcard_cert-Spec :
        (fqdn role : String) → Spec I I I (issue_wildcard_cert env ctx id fqdn role)
    unfolding issue_wildcard_cert
    issue_wildcard_cert-Spec fqdn role = Spec-bind _ _ (check-Spec _ _) (λ _.
        Spec-bind _ _ (check-Spec _ _) (λ _.
          Spec-bind _ _ (vault_issue-Spec st env ctx _ _) (λ reply.
            Spec-bind _ _ (some_or-Spec _ reply)
              (λ c. Spec-bind _ _ (check-Spec _ _) (λ _. Spec-pure (λ w i. i) _)))))

    pub issue_wildcard_tls-Spec : Spec I I I (issue_wildcard_tls env ctx id)
    unfolding issue_wildcard_tls
    issue_wildcard_tls-Spec = Spec-bind _ _ (wrapped-Spec _ _ (vault_get-Spec st env ctx _)) (λ net.
        Spec-bind _ _ (check-Spec _ _) (λ _.
          Spec-bind _ _ (wrapped-Spec _ _ (vault_get-Spec st env ctx _)) (λ tls.
            Spec-bind _ _ (issue_wildcard_cert-Spec _ _) (λ c.
              Spec-bind _ _ (vault_put-Spec st env ctx _ _) (λ _.
                Spec-bind _ _ (run_command-Spec st env _) (λ _. run_command-Spec st env _))))))

    pub install_traefik-Spec : Spec I I I (install_traefik env ctx id dep)
    unfolding install_traefik
    install_traefik-Spec = Spec-bind _ _ (run_command-Spec st env _) (λ _.
        Spec-bind _ _ (Spec-attempt _ (vault_get-Spec st env ctx _)) (λ net.
          Spec-bind _ _ (wrapped-Spec _ _ (run_command-Spec st env _)) (λ _.
            Spec-bind _ _ (wrapped-Spec _ _ (run_command-Spec st env _)) (λ _.
              Spec-bind _ _ (wrapped-Spec _ _ (run_command-Spec st env _)) (λ _.
                Spec-bind _ _ (wrapped-Spec _ _ (run_command-Spec st env _))
                  (λ _. run_streamed-Spec st env _))))))
