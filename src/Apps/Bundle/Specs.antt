-- ===== src/Apps/Bundle/Specs.antt =====
-- The steps of a bundle keep what is stable for the install.
use bandolier.Prelude.{
  ℕ, String, Bool, true, false, refl, List, [], ◌∷◌, Option, reverse, if◌then◌else◌,
}
use bandolier.Result.{Result, ok, err}
use bandolier.Store.Tables.{ChartOutcome}
use bandolier.World.{Env, World}
use bandolier.World.Exec.{Exec, pure}
use bandolier.World.Returns.{Never}
use bandolier.World.Triples.{Spec, Spec-bind, Spec-pure, Spec-attempt}
use bandolier.Deployments.Stable.{Stable}
use bandolier.Deployments.Finish.Must.{emit-Spec}
use bandolier.Apps.Types.{BundleChartChoice, BundleInstallRequest}
use bandolier.Apps.Helm.Specs.{
  if-Spec, helm_install_release-Spec, helm_uninstall_release-Spec, helm_factory_for-Spec,
}
use bandolier.Apps.Run.{AppTask, Subject, finish}
use bandolier.Apps.Goroutines.Specs.{say-Spec, add_chart_repo-Spec, write_values-Spec}
use bandolier.Apps.Bundle.{
  ChartEnd, chart_done, values_failed, helm_failed, complain_rollback, uninstall_each,
  rollback_installed, resolved, helm_end, with_values, install_chart, after_chart,
}
use bandolier.Apps.Bundle.Loop.{announce_rollback, install_from, give_up, bundle_with, bundle_body}

after_chart-Spec :
    {P Q E : World → Type 0} {A : Type 0} (next : Exec A) (stop : Bool → String → Exec A)
    (end : ChartEnd)
    → Spec P Q E next
    → ((b : Bool) (msg : String) → Spec P Q E (stop b msg))
    → Spec P Q E (after_chart next stop end)
after_chart-Spec next stop chart_done sn ss = sn
after_chart-Spec next stop (values_failed msg) sn ss = ss false msg
after_chart-Spec next stop (helm_failed msg) sn ss = ss true msg

module _ (t : AppTask) {I : World → Type 0} (st : Stable t.install_id I) (env : Env) where
  complain_rollback-Spec :
      (release : String) (r : Result (Unit {0}))
      → Spec I I Never (complain_rollback env t release r)
  complain_rollback-Spec release (ok u) = Spec-pure (λ w i. i) tt
  complain_rollback-Spec release (err e) = say-Spec t st env _

  uninstall_each-Spec : (cs : List BundleChartChoice) → Spec I I Never (uninstall_each env t cs)
  unfolding uninstall_each
  uninstall_each-Spec [] = Spec-pure (λ w i. i) tt
  uninstall_each-Spec (c ∷ cs) = Spec-bind _ _ (say-Spec t st env _) (λ _.
      Spec-bind _ _ (Spec-attempt _ (helm_uninstall_release-Spec st env c.release c.namespace))
        (λ r. Spec-bind _ _ (complain_rollback-Spec c.release r) (λ _. uninstall_each-Spec cs)))

  pub rollback_installed-Spec :
      (cs : List BundleChartChoice) → Spec I I Never (rollback_installed env t cs)
  unfolding rollback_installed
  rollback_installed-Spec [] = Spec-pure (λ w i. i) tt
  rollback_installed-Spec (c ∷ cs) =
      Spec-bind _ _ (say-Spec t st env _) (λ _. uninstall_each-Spec (reverse (c ∷ cs)))

  module _ (req : BundleInstallRequest) (fqdn : String) where
    helm_end-Spec :
        (c : BundleChartChoice) (r : Result (Unit {0}))
        → Spec I I Never (helm_end env t req fqdn c r)
    helm_end-Spec c (ok u) = Spec-pure (λ w i. i) _
    helm_end-Spec c (err e) = Spec-bind _ _ (say-Spec t st env _) (λ _. Spec-pure (λ w i. i) _)

    with_values-Spec :
        (c : BundleChartChoice) (r : Result String)
        → Spec I I Never (with_values env t req fqdn c r)
    with_values-Spec c (err e) = Spec-bind _ _ (say-Spec t st env _) (λ _. Spec-pure (λ w i. i) _)
    with_values-Spec c (ok path) =
        Spec-bind _ _ (Spec-attempt _ (helm_install_release-Spec st env _ path))
          (λ r. helm_end-Spec c r)

    pub install_chart-Spec :
        (file : String) (index : ℕ) (c : BundleChartChoice)
        → Spec I I Never (install_chart env t req fqdn file index c)
    unfolding install_chart
    install_chart-Spec file index c = Spec-bind _ _ (emit-Spec st _ refl) (λ _.
        Spec-bind _ _ (say-Spec t st env _) (λ _.
          Spec-bind _ _ (add_chart_repo-Spec t st env c.chart) (λ _.
            Spec-bind _ _ (Spec-attempt _ (write_values-Spec t st env file c.values))
              (λ path. with_values-Spec c path))))

    announce_rollback-Spec :
        (chart : String) (cs : List BundleChartChoice)
        → Spec I I Never (announce_rollback env t req fqdn chart cs)
    announce_rollback-Spec chart [] = Spec-pure (λ w i. i) tt
    announce_rollback-Spec chart (c ∷ cs) = emit-Spec st _ refl

    pub announcing-Spec :
        (chart : String) (cs : List BundleChartChoice) (b : Bool)
        → Spec I I Never (if b then announce_rollback env t req fqdn chart cs else pure tt)
    announcing-Spec chart cs b =
        if-Spec b _ _ (announce_rollback-Spec chart cs) (Spec-pure (λ w i. i) tt)

    give_up-Spec :
        (done : List ChartOutcome) (installed : List BundleChartChoice) (c : BundleChartChoice)
        (cs : List BundleChartChoice) (b : Bool) (msg : String)
        → Spec I I Never (give_up env t req fqdn done installed c cs b msg)
    give_up-Spec done installed c cs b msg =
        Spec-bind _ _ (announcing-Spec c.chart installed b)
          (λ _. Spec-bind _ _ (rollback_installed-Spec installed) (λ _. Spec-pure (λ w i. i) _))

    pub install_from-Spec :
        (cs : List BundleChartChoice) (index : ℕ) (done : List ChartOutcome)
        (installed : List BundleChartChoice)
        → Spec I I Never (install_from env t req fqdn index done installed cs)
    unfolding install_from
    install_from-Spec [] index done installed = Spec-pure (λ w i. i) _
    install_from-Spec (c ∷ cs) index done installed =
        if-Spec c.skip _ _
          (Spec-bind _ _ (say-Spec t st env _) (λ _. install_from-Spec cs index _ _))
          (Spec-bind _ _ (install_chart-Spec _ _ (resolved env t req fqdn c)) (λ end.
            after_chart-Spec _ _ end (install_from-Spec cs _ _ _)
              (λ b msg. give_up-Spec done installed c cs b msg)))

    module _ {Q : World → Type 0}
        (finishing : (s : Subject) (e : Option String) → Spec I Q Never (finish env t s e)) where
      bundle_with-Spec : (r : Result String) → Spec I Q Never (bundle_with env t req fqdn r)
      bundle_with-Spec (err e) = Spec-bind _ _ (say-Spec t st env _) (λ _. finishing _ _)
      bundle_with-Spec (ok kubeconfig) = Spec-bind _ _ (emit-Spec st _ refl) (λ _.
          Spec-bind _ _ (emit-Spec st _ refl)
            (λ _. Spec-bind _ _ (install_from-Spec req.choices 0 [] []) (λ end. finishing _ _)))

      pub bundle_body-Spec : Spec I Q Never (bundle_body env t req fqdn)
      unfolding bundle_body
      bundle_body-Spec =
          Spec-bind _ _ (Spec-attempt _ (helm_factory_for-Spec st env t.ctx t.cluster_id))
            bundle_with-Spec
