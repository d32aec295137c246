-- ===== src/Apps/Goroutines/Specs.antt =====
-- The steps of a goroutine before its `finish` keep what is stable for the install, and `finish`
-- is reached on every path.
use bandolier.Prelude.{String, Bool, true, false, refl, Option, none, some}
use bandolier.Result.{Result, ok, err}
use bandolier.Store.Tables.{InstallOperation, install, upgrade, uninstall}
use bandolier.World.{Env, World}
use bandolier.World.Exec.{ignore}
use bandolier.World.Calls.{statement}
use bandolier.World.Returns.{Never}
use bandolier.World.Triples.{Spec, Spec-bind, Spec-pure, Spec-raise, Spec-attempt, Spec-ignore}
use bandolier.Deployments.Effects.{log_event}
use bandolier.Deployments.Stable.{Stable, run_command-Spec, read_output-Spec, query-Spec}
use bandolier.Deployments.Finish.Must.{emit-Spec}
use bandolier.Apps.Types.{InstallRequest}
use bandolier.Apps.Store.{mark_hostname_unclaimed}
use bandolier.Apps.Helm.Specs.{
  if-Spec, wrap-Spec, repo_add-Spec, repo_update-Spec, helm_install_release-Spec,
  helm_upgrade_release-Spec, helm_uninstall_release-Spec, helm_factory_for-Spec,
}
use bandolier.Apps.Probe.{probe_hostname_claimed}
use bandolier.Apps.Run.{
  AppTask, Subject, say, finish, add_chart_repo, add_found, add_known, complain, lookup_repo_url,
  split_chart_repo,
}
use bandolier.Apps.Goroutines.{
  write_values, run_operation, note_unclaimed, probe_hostname, with_values, with_helm,
  install_or_upgrade_body, uninstall_with, uninstall_body,
}

module _ (t : AppTask) {I : World → Type 0} (st : Stable t.install_id I) (env : Env) where
  pub say-Spec : {E : World → Type 0} (line : String) → Spec I I E (say t line)
  say-Spec line = emit-Spec st (log_event line) refl

  lookup_repo_url-Spec :
      {E : World → Type 0} (name : String) → Spec I I E (lookup_repo_url env t name)
  unfolding lookup_repo_url
  lookup_repo_url-Spec name =
      Spec-bind _ _ (Spec-attempt _ (query-Spec st env t.ctx _)) (λ r. Spec-pure (λ w i. i) _)

  complain-Spec :
      {E : World → Type 0} (prefix : String) (r : Result (Unit {0}))
      → Spec I I E (complain env t prefix r)
  complain-Spec prefix (ok u) = Spec-pure (λ w i. i) tt
  complain-Spec prefix (err e) = say-Spec _

  add_known-Spec : {E : World → Type 0} (name url : String) → Spec I I E (add_known env t name url)
  add_known-Spec name url = if-Spec _ _ _ (Spec-pure (λ w i. i) tt) (
      Spec-bind _ _ (Spec-attempt _ (repo_add-Spec st env name url))
        (λ r. Spec-bind _ _ (complain-Spec _ r) (λ _. Spec-ignore _ (repo_update-Spec st env))))

  add_found-Spec : {E : World → Type 0} (o : Option String) → Spec I I E (add_found env t o)
  add_found-Spec none = Spec-pure (λ w i. i) tt
  add_found-Spec (some name) =
      Spec-bind _ _ (lookup_repo_url-Spec name) (λ url. add_known-Spec name url)

  pub add_chart_repo-Spec :
      {E : World → Type 0} (chart : String) → Spec I I E (add_chart_repo env t chart)
  unfolding add_chart_repo
  add_chart_repo-Spec chart = add_found-Spec (split_chart_repo chart)

  pub write_values-Spec : (name values : String) → Spec I I I (write_values env t name values)
  unfolding write_values
  write_values-Spec name values =
      if-Spec _ _ _ (Spec-pure (λ w i. i) _)
        (Spec-bind _ _ (run_command-Spec st env _) (λ _. Spec-pure (λ w i. i) _))

  run_operation-Spec :
      (op : InstallOperation) (req : InstallRequest) (path : String)
      → Spec I I I (run_operation env t op req path)
  unfolding run_operation
  run_operation-Spec install req path = helm_install_release-Spec st env req path
  run_operation-Spec upgrade req path = helm_upgrade_release-Spec st env req path
  run_operation-Spec uninstall req path = Spec-raise (λ w i. i) _

  probe-Spec :
      (kubeconfig namespace hostname : String)
      → Spec I I I (probe_hostname_claimed env kubeconfig namespace hostname)
  unfolding probe_hostname_claimed
  probe-Spec kubeconfig namespace hostname = if-Spec _ _ _ (Spec-raise (λ w i. i) _) (
      Spec-bind _ _ (wrap-Spec st env _ _ (read_output-Spec st env _))
        (λ out. Spec-pure (λ w i. i) _))

  module _
      (marking : Spec I I Never
        (ignore (statement env t.ctx λ now. mark_hostname_unclaimed t.install_id true)))
      {Q : World → Type 0}
      (finishing : (s : Subject) (e : Option String) → Spec I Q Never (finish env t s e)) where
    note_unclaimed-Spec :
        (req : InstallRequest) (r : Result Bool) → Spec I I Never (note_unclaimed env t req r)
    note_unclaimed-Spec req (ok false) = Spec-bind _ _ marking (λ _. say-Spec _)
    note_unclaimed-Spec req (ok true) = Spec-pure (λ w i. i) tt
    note_unclaimed-Spec req (err e) = Spec-pure (λ w i. i) tt

    probe_hostname-Spec :
        (req : InstallRequest) (kubeconfig : String) (e : Option String)
        → Spec I I Never (probe_hostname env t req kubeconfig e)
    unfolding probe_hostname
    probe_hostname-Spec req kubeconfig (some e) = Spec-pure (λ w i. i) tt
    probe_hostname-Spec req kubeconfig none = if-Spec _ _ _ (Spec-pure (λ w i. i) tt) (
        Spec-bind _ _ (Spec-attempt _ (probe-Spec kubeconfig req.namespace req.hostname))
          (λ r. note_unclaimed-Spec req r))

    module _ (req : InstallRequest) (op : InstallOperation) where
      with_values-Spec :
          (kubeconfig : String) (r : Result String)
          → Spec I Q Never (with_values env t req op kubeconfig r)
      with_values-Spec kubeconfig (err e) = Spec-bind _ _ (say-Spec _) (λ _. finishing _ _)
      with_values-Spec kubeconfig (ok path) = Spec-bind _ _ (emit-Spec st _ refl) (λ _.
          Spec-bind _ _ (Spec-attempt _ (run_operation-Spec op req path))
            (λ r. Spec-bind _ _ (probe_hostname-Spec req kubeconfig _) (λ _. finishing _ _)))

      with_helm-Spec : (r : Result String) → Spec I Q Never (with_helm env t req op r)
      with_helm-Spec (err e) = Spec-bind _ _ (say-Spec _) (λ _. finishing _ _)
      with_helm-Spec (ok kubeconfig) = Spec-bind _ _ (add_chart_repo-Spec req.chart) (λ _.
          Spec-bind _ _ (Spec-attempt _ (write_values-Spec _ _))
            (λ path. with_values-Spec kubeconfig path))

      pub install_or_upgrade_body-Spec : Spec I Q Never (install_or_upgrade_body env t req op)
      unfolding install_or_upgrade_body
      install_or_upgrade_body-Spec =
          Spec-bind _ _ (Spec-attempt _ (helm_factory_for-Spec st env t.ctx t.cluster_id))
            with_helm-Spec

    module _ (release namespace : String) where
      uninstall_with-Spec :
          (r : Result String) → Spec I Q Never (uninstall_with env t release namespace r)
      uninstall_with-Spec (err e) = Spec-bind _ _ (say-Spec _) (λ _. finishing _ _)
      uninstall_with-Spec (ok kubeconfig) = Spec-bind _ _ (emit-Spec st _ refl) (λ _.
          Spec-bind _ _ (Spec-attempt _ (helm_uninstall_release-Spec st env release namespace))
            (λ r. finishing _ _))

      pub uninstall_body-Spec : Spec I Q Never (uninstall_body env t release namespace)
      unfolding uninstall_body
      uninstall_body-Spec =
          Spec-bind _ _ (Spec-attempt _ (helm_factory_for-Spec st env t.ctx t.cluster_id))
            uninstall_with-Spec
