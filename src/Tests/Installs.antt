-- ===== src/Tests/Installs.antt =====
-- Installs, bundles and repos on concrete installations.
use bandolier.Prelude.{
  ℕ, ◌==◌, ◌&&◌, String, Bool, true, false, List, [], ◌∷◌, Option, none, some, ◌≡◌, refl, lookup,
  find_row, get_or, if◌then◌else◌,
}
use bandolier.Status.{ready}
use bandolier.Result.{Result, ok, err}
use bandolier.Store.Tables.{
  Db, Install, install, DeploymentStatus, ChartResult, skipped, rolled_back, not_attempted,
  ChartOutcome, app_install,
}
use bandolier.Mutex.Laws.{is_locked}
use bandolier.Hub.History.{history_of}
use bandolier.Validate.{matches, code_points}
use bandolier.World.{Env, World, Command, helm}
use bandolier.World.Exec.{◌>>=◌}
use bandolier.World.Calls.{run_command}
use bandolier.World.Returns.{Never, Returns}
use bandolier.Deployments.Outcome.{Announced}
use bandolier.Apps.Types.{
  InstallRequest, BundleChartChoice, BundleInstallRequest, run_helm, run_bundle,
}
use bandolier.Apps.HelmTimeout.{
  parse_duration, helm_install_timeout, helm_install_timeout_flag, helm_install_timeout_re,
  helm_install_timeout_flag-parse,
}
use bandolier.Apps.Executor.{new_row, start_install, helm_plan}
use bandolier.Apps.Executor.Starting.{Started, Unstarted, start_install-Started}
use bandolier.Apps.Run.{AppTask}
use bandolier.Apps.Bundle.{BundleEnd}
use bandolier.Apps.Bundle.Loop.{install_from}
use bandolier.Apps.Bundle.Verdict.{Fair, install_from-Fair}
use bandolier.Apps.Outcome.{Freed}
use bandolier.Apps.Runs.{run_work, run_work-Freed}
use bandolier.Apps.Runs.Settling.{Agreed, run_work-Agreed}
use bandolier.Apps.Requests.{serve, bundle_request}
use bandolier.Apps.Requests.Clean.{Begun}
use bandolier.Apps.Requests.Serve.{serve-Begun}
use bandolier.Apps.Repos.{add_repo_handler}
use bandolier.Apps.Repos.Laws.{AddedIf, is_created, body_name, body_url, add_repo-AddedIf}
use bandolier.Tests.{home, calm, live, cluster, db_of, idle, under_way}

abbrev wiki : InstallRequest
wiki = record {
  chart = "wikijs/wiki";
  version = "3.0.0";
  release_name = "wiki";
  namespace = "wiki";
  hostname = "wiki.lab.example";
  ingress_value_path = "";
  values = "a: 1";
  atomic = true;
  storage_class = "longhorn";
}

abbrev choice : String → Bool → BundleChartChoice
choice name skip = record {
  chart = name;
  version = "1.0.0";
  release = name;
  namespace = "lab";
  hostname = "";
  values = "";
  skip = skip;
  storage_class = none;
}

abbrev essentials : BundleInstallRequest
essentials = record {
  bundle = "homelab-essentials";
  version = "1.0.0";
  choices =
      choice "longhorn" false ∷ choice "loki" true ∷ choice "kps" false ∷ choice "wiki" false ∷ [];
  atomic = true;
}

abbrev row : Install
row = record (new_row home "wikijs/wiki" "3.0.0" "wiki" "wiki" install) { id = "d1" }

abbrev tables : Db
tables = record (db_of (cluster ready) []) { installs = row ∷ [] }

abbrev app_task : AppTask
app_task = record { ctx = live; install_id = "d1"; cluster_id = home; actor = 1 }

abbrev running : World
running = under_way tables

abbrev resting : World
resting = idle (db_of (cluster ready) [])

abbrev fails_kps : Command → ℕ → Option String
fails_kps (helm (sub ∷ release ∷ args)) n =
    if sub == "install" && release == "kps" then some "timed out" else none
fails_kps _ n = none

-- The third chart of the bundle cannot be installed.
abbrev partial : Env
partial = record calm { outcome = fails_kps }

run_work-Freed_example :
    ((run_work partial app_task (run_bundle essentials "lab.example") running).0 ≡ ok tt)
    × ((s : DeploymentStatus) × Announced "d1" s
          (run_work partial app_task (run_bundle essentials "lab.example") running).1)
    × Freed app_task running
        (run_work partial app_task (run_bundle essentials "lab.example") running).1
unfolding is_locked lookup history_of get_or
run_work-Freed_example =
    run_work-Freed partial app_task (run_bundle essentials "lab.example") running refl tt

run_work-Agreed_example : Agreed "d1" (run_work calm app_task (run_helm wiki install) running).1
unfolding history_of get_or find_row
run_work-Agreed_example =
    run_work-Agreed calm app_task (run_helm wiki install) running (record { sql = λ n. refl }) tt
      (row, refl)

install_from-Fair_example :
    Returns
      (λ end v. Fair essentials.choices end)
      Never
      (install_from partial app_task essentials "lab.example" 0 [] [] essentials.choices running).0
      (install_from partial app_task essentials "lab.example" 0 [] [] essentials.choices running).1
install_from-Fair_example = install_from-Fair partial app_task essentials "lab.example" running

start_install-Started_example :
    Returns
      (Started (helm_plan calm home wiki install app_install) 1 resting)
      (Unstarted resting)
      (start_install calm live 1 (helm_plan calm home wiki install app_install) resting).0
      (start_install calm live 1 (helm_plan calm home wiki install app_install) resting).1
start_install-Started_example =
    start_install-Started calm live 1 (helm_plan calm home wiki install app_install) resting

serve-Begun_example :
    Returns
      (Begun resting)
      Never
      (serve calm live 1 home (bundle_request (some essentials)) resting).0
      (serve calm live 1 home (bundle_request (some essentials)) resting).1
serve-Begun_example = serve-Begun calm live 1 home (bundle_request (some essentials)) resting

add_repo-AddedIf_example :
    Returns
      (λ r v.
        AddedIf calm home
          (body_name (some (" wikijs ", "https://charts.js.wiki")))
          (body_url (some (" wikijs ", "https://charts.js.wiki")))
          resting
          v
          (is_created r))
      Never
      (add_repo_handler calm live 1 home (some (" wikijs ", "https://charts.js.wiki")) resting).0
      (add_repo_handler calm live 1 home (some (" wikijs ", "https://charts.js.wiki")) resting).1
add_repo-AddedIf_example =
    add_repo-AddedIf calm live 1 home (some (" wikijs ", "https://charts.js.wiki")) resting

helm_install_timeout_flag-parse_example :
    (parse_duration (helm_install_timeout_flag "90s") ≡ some (helm_install_timeout "90s"))
    × (matches helm_install_timeout_re (code_points (helm_install_timeout_flag "90s")) ≡ true)
helm_install_timeout_flag-parse_example = helm_install_timeout_flag-parse "90s"

abbrev results : List ChartOutcome → List ChartResult
results [] = []
results (o ∷ os) = o.outcome ∷ results os

abbrev outcomes_of : Result BundleEnd → List ChartResult
outcomes_of (ok end) = results end.outcomes
outcomes_of (err e) = []

bundle_run :
    outcomes_of
      (install_from partial app_task essentials "lab.example" 0 [] [] essentials.choices running).0
    ≡ rolled_back ∷ skipped ∷ ChartResult.failed ∷ not_attempted ∷ []
unfolding install_from ◌>>=◌ run_command
bundle_run = refl
