-- ===== src/Apps/Bundle/Loop.antt =====
-- The loop over the charts of a bundle, and the goroutine around it: `runBundleInstall` of
-- api/internal/apps/bundle.go.
use bandolier.Prelude.{
  ℕ, suc, String, Bool, List, [], ◌∷◌, ◌++◌, map, none, some, if◌then◌else◌, length,
}
use bandolier.Text.{◌<>◌, decimal, error_text}
use bandolier.Store.Tables.{app_bundle_install, Detail, ChartOutcome, ChartResult, skipped}
use bandolier.Result.{Result, ok, err}
use bandolier.World.{Env}
use bandolier.World.Exec.{Exec, pure, attempt, modify, ◌>>=◌, ◌>>◌}
use bandolier.Deployments.Effects.{emit, started_event}
use bandolier.Apps.Types.{BundleChartChoice, BundleInstallRequest}
use bandolier.Apps.Helm.{helm_factory_for}
use bandolier.Apps.Run.{AppTask, Subject, say, finish, with_install_defers}
use bandolier.Apps.Bundle.{
  count_installable, substitute_hostname_template, chart_outcome, preseed, mark_rolled_back,
  progress_event, BundleEnd, after_chart, rollback_installed, resolved, install_chart,
}

module _ (env : Env) (t : AppTask) (req : BundleInstallRequest) (fqdn : String) where
  abbrev pub skip_line : BundleChartChoice → String
  skip_line c = "bundle: skip " <> c.chart <> " (release=" <> c.release <> ")\n"

  abbrev pub values_file : ℕ → String
  values_file i = t.install_id <> ".bundle-" <> decimal i <> ".values.yaml"

  -- The rollback is announced where charts were installed.
  abbrev pub announce_rollback : String → List BundleChartChoice → Exec (Unit {0})
  announce_rollback chart [] = pure tt
  announce_rollback chart (c ∷ cs) = modify (
      emit t.install_id (
        progress_event (
          ("phase", Detail.text "rollback")
          ∷ ("failed_chart", Detail.text chart)
          ∷ ("rollback_count", Detail.number (length (c ∷ cs)))
          ∷ [])))

  abbrev pub broken :
      List ChartOutcome
      → List BundleChartChoice
      → BundleChartChoice
      → List BundleChartChoice
      → String
      → BundleEnd
  broken done installed c cs msg = record {
    outcomes =
        mark_rolled_back installed (done ++ chart_outcome c ChartResult.failed ∷ map preseed cs);
    error = some msg;
  }

  -- What follows a chart that failed.
  abbrev pub give_up :
      List ChartOutcome
      → List BundleChartChoice
      → BundleChartChoice
      → List BundleChartChoice
      → Bool
      → String
      → Exec BundleEnd
  give_up done installed c cs announced msg = do
    if announced then announce_rollback c.chart installed else pure tt
    rollback_installed env t installed
    pure (broken done installed c cs msg)

  -- The loop over the charts: `done` holds the outcomes of those before the rest, `index` counts
  -- the ones that were not skipped, `installed` those that succeeded.
  unfoldable pub install_from :
      ℕ → List ChartOutcome → List BundleChartChoice → List BundleChartChoice → Exec BundleEnd
  unfolding install_chart rollback_installed mark_rolled_back substitute_hostname_template
  install_from index done installed [] = pure (record { outcomes = done; error = none })
  install_from index done installed (c ∷ cs) =
      if c.skip
      then (do
        say t (skip_line c)
        install_from index (done ++ chart_outcome c skipped ∷ []) installed cs)
      else install_chart env t req fqdn (values_file (length done)) (suc index)
          (resolved env t req fqdn c)
        >>= after_chart
            (install_from (suc index) (done ++ chart_outcome c ChartResult.succeeded ∷ [])
              (installed ++ resolved env t req fqdn c ∷ []) cs)
            (give_up done installed c cs)

  abbrev pub bundle_subject : List ChartOutcome → Subject
  bundle_subject outcomes = record {
    action = app_bundle_install;
    step = "bundle.install";
    details =
        ("bundle", Detail.text req.bundle)
        ∷ ("bundle_version", Detail.text req.version)
        ∷ ("charts", Detail.charts outcomes)
        ∷ [];
  }

  abbrev pub bundle_with : Result String → Exec (Unit {0})
  bundle_with (err e) = do
    say t ("helm factory error: " <> error_text e <> "\n")
    finish env t (bundle_subject (map preseed req.choices))
        (some ("helm unavailable: " <> error_text e))
  bundle_with (ok kubeconfig) = do
    modify (emit t.install_id (started_event "bundle.install"))
    modify (
        emit t.install_id (
          progress_event (
            ("phase", Detail.text "bundle_start")
            ∷ ("bundle", Detail.text req.bundle)
            ∷ ("total", Detail.number (count_installable req.choices))
            ∷ [])))
    end ← install_from 0 [] [] req.choices
    finish env t (bundle_subject end.outcomes) end.error

  unfoldable pub bundle_body : Exec (Unit {0})
  unfolding install_from finish helm_factory_for count_installable
  bundle_body = do found ← attempt (helm_factory_for env t.ctx t.cluster_id); bundle_with found

  unfoldable pub run_bundle_install : Exec (Unit {0})
  unfolding bundle_body
  run_bundle_install = with_install_defers t bundle_body
