-- ===== src/Apps/Bundle.antt =====
-- api/internal/apps/bundle.go: the goroutine of a bundle, which installs its charts one by one and
-- uninstalls them again where one fails.
pub mod Loop
pub mod Specs
pub mod Marks
pub mod Verdict
use bandolier.Prelude.{
  ℕ, zero, suc, ◌+◌, String, Bool, true, false, not, ◌&&◌, ◌||◌, List, [], ◌∷◌, ◌++◌, map, reverse,
  Option, none, some, ◌==◌, if◌then◌else◌, length,
}
use bandolier.Text.{◌<>◌, decimal, replace_all, error_text}
use bandolier.Store.Tables.{
  app_bundle_install, Details, Detail, ChartOutcome, ChartResult, skipped, not_attempted,
  rolled_back,
}
use bandolier.Hub.{Event, step_progress}
use bandolier.Result.{Result, ok, err}
use bandolier.World.{Env}
use bandolier.World.Exec.{Exec, pure, attempt, modify, ◌>>=◌, ◌>>◌}
use bandolier.Deployments.Effects.{emit, event, started_event}
use bandolier.Apps.Types.{InstallRequest, BundleChartChoice, BundleInstallRequest}
use bandolier.Apps.Helm.{helm_install_release, helm_uninstall_release, helm_factory_for}
use bandolier.Apps.Run.{AppTask, Subject, say, finish, add_chart_repo, with_install_defers}
use bandolier.Apps.Goroutines.{write_values}

unfoldable pub count_installable : List BundleChartChoice → ℕ
count_installable [] = 0
count_installable (c ∷ cs) = let n = count_installable cs in if not c.skip then suc n else n

unfoldable pub substitute_hostname_template : String → String → String → String
substitute_hostname_template tmpl release fqdn =
    if tmpl == "" then "" else replace_all (replace_all tmpl "{release}" release) "{fqdn}" fqdn

abbrev pub chart_outcome : BundleChartChoice → ChartResult → ChartOutcome
chart_outcome c result = record {
  chart = c.chart;
  version = c.version;
  release = c.release;
  outcome = result;
}

-- The outcome of a chart that has not been reached.
abbrev pub preseed : BundleChartChoice → ChartOutcome
preseed c = chart_outcome c (if c.skip then skipped else not_attempted)

abbrev pub has_release : String → List BundleChartChoice → Bool
has_release release [] = false
has_release release (c ∷ cs) = c.release == release || has_release release cs

abbrev pub is_succeeded : ChartResult → Bool
is_succeeded ChartResult.succeeded = true
is_succeeded _ = false

unfoldable pub mark_rolled_back : List BundleChartChoice → List ChartOutcome → List ChartOutcome
mark_rolled_back installed [] = []
mark_rolled_back installed (o ∷ os) =
    (if has_release o.release installed && is_succeeded o.outcome
      then record o { outcome = rolled_back }
      else o)
    ∷ mark_rolled_back installed os

abbrev pub storage_of : Option String → String
storage_of none = ""
storage_of (some s) = s

abbrev pub request_of : Bool → BundleChartChoice → InstallRequest
request_of atomic c = record {
  chart = c.chart;
  version = c.version;
  release_name = c.release;
  namespace = c.namespace;
  hostname = c.hostname;
  ingress_value_path = "";
  values = c.values;
  atomic = atomic;
  storage_class = storage_of c.storage_class;
}

abbrev pub progress_event : Details → Event
progress_event payload = record (event step_progress "bundle.install") { payload = payload }

-- How the attempt to install one chart ended.
pub data ChartEnd : Type 0 where
  chart_done : ChartEnd
  values_failed helm_failed : String → ChartEnd

-- The rollback of a chart whose values could not be written is not announced.
abbrev pub after_chart : {A : Type 0} → Exec A → (Bool → String → Exec A) → ChartEnd → Exec A
after_chart next give_up chart_done = next
after_chart next give_up (values_failed msg) = give_up false msg
after_chart next give_up (helm_failed msg) = give_up true msg

-- What the loop leaves for the audit row, and the error that ended it.
pub record BundleEnd : Type 0 where
  pub outcomes : List ChartOutcome
  pub error : Option String

module _ (env : Env) (t : AppTask) where
  abbrev pub complain_rollback : String → Result (Unit {0}) → Exec (Unit {0})
  complain_rollback release (ok u) = pure tt
  complain_rollback release (err e) =
      say t (
        "bundle: rollback uninstall "
        <> release
        <> " failed: "
        <> error_text e
        <> " (continuing)\n")

  -- From the last to the first: the list is the reverse of the installed charts.
  unfoldable pub uninstall_each : List BundleChartChoice → Exec (Unit {0})
  unfolding helm_uninstall_release
  uninstall_each [] = pure tt
  uninstall_each (c ∷ cs) = do
    say t (
        "bundle: rollback uninstall " <> c.chart <> " (release=" <> c.release <> ", ns="
        <> c.namespace <> ")\n")
    r ← attempt (helm_uninstall_release env t.install_id c.release c.namespace)
    complain_rollback c.release r
    uninstall_each cs

  unfoldable pub rollback_installed : List BundleChartChoice → Exec (Unit {0})
  unfolding uninstall_each decimal
  rollback_installed [] = pure tt
  rollback_installed (c ∷ cs) = do
    say t (
        "bundle: rolling back "
        <> decimal (length (c ∷ cs))
        <> " previously-installed chart(s) in reverse order\n")
    uninstall_each (reverse (c ∷ cs))

  module _ (req : BundleInstallRequest) (fqdn : String) where
    abbrev pub resolved : BundleChartChoice → BundleChartChoice
    resolved c = record c { hostname = substitute_hostname_template c.hostname c.release fqdn }

    abbrev pub helm_end : BundleChartChoice → Result (Unit {0}) → Exec ChartEnd
    helm_end c (ok u) = pure chart_done
    helm_end c (err e) = do
      say t ("bundle: chart " <> c.chart <> " failed: " <> error_text e <> "\n")
      pure (helm_failed (error_text e))

    abbrev pub with_values : BundleChartChoice → Result String → Exec ChartEnd
    with_values c (err e) = do
      say t ("write values file: " <> error_text e <> "\n")
      pure (values_failed ("write values: " <> error_text e))
    with_values c (ok path) = do
      r ← attempt (helm_install_release env t.install_id (request_of req.atomic c) path)
      helm_end c r

    -- One chart that is not skipped; `file` names its values file.
    unfoldable pub install_chart : String → ℕ → BundleChartChoice → Exec ChartEnd
    unfolding add_chart_repo write_values helm_install_release count_installable
    install_chart file index c = do
      modify (
          emit t.install_id (
            progress_event (
              ("phase", Detail.text "chart_install")
              ∷ ("chart", Detail.text c.chart)
              ∷ ("release", Detail.text c.release)
              ∷ ("namespace", Detail.text c.namespace)
              ∷ ("index", Detail.number index)
              ∷ ("total", Detail.number (count_installable req.choices))
              ∷ [])))
      say t (
          "bundle: install " <> c.chart <> " (release=" <> c.release <> ", ns=" <> c.namespace
          <> ")\n")
      add_chart_repo env t c.chart
      path ← attempt (write_values env t file c.values)
      with_values c path
