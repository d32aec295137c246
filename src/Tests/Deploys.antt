-- ===== src/Tests/Deploys.antt =====
-- A request and its goroutine on a concrete installation.
use bandolier.Prelude.{String, [], none, false, ◌≡◌, refl, lookup, find_row}
use bandolier.Status.{initialized, ready}
use bandolier.Result.{ok}
use bandolier.Hub.History.{history_of}
use bandolier.Mutex.Laws.{is_locked}
use bandolier.World.{World}
use bandolier.World.Exec.{◌>>=◌}
use bandolier.World.Rules.{IsQuiet, IsLive}
use bandolier.Deployments.Finish.Verdict.{Verdict}
use bandolier.Deployments.Lifecycle.{task_of, run-deploy, run-deploy-Verdict}
use bandolier.Prelude.{All, insert, get_or}
use bandolier.Status.{can_transition}
use bandolier.Store.Clusters.{get_cluster, update_cluster, update_cluster_status}
use bandolier.Store.Deployments.{create_deployment}
use bandolier.Store.Audits.{insert_audit_entry}
use bandolier.World.Calls.{query, statement, run_command}
use bandolier.Deployments.Effects.{lock_cluster, unlock_cluster, register, audit}
use bandolier.Deployments.Start.Launch.{launch}
use bandolier.Deployments.Outcome.{IsEarly}
use bandolier.Deployments.Pipeline.{run}
use bandolier.Deployments.Start.{deploy}
use bandolier.Tests.{home, calm, live, cluster, db_of, idle}

quiet : IsQuiet calm
quiet = record { sql = λ n. refl }

alive : IsLive live
alive = record { never = λ n. refl }

abbrev idle_world : World
idle_world = idle (db_of (cluster initialized) [])

abbrev started : World
started = (deploy calm live 1 home idle_world).1

-- The request is granted, and its deploy runs through.
deploy-started : deploy calm live 1 home idle_world ≡ (ok "d1", started)
unfolding deploy query statement get_cluster find_row launch lock_cluster lookup insert audit
    can_transition run_command unlock_cluster register update_cluster_status create_deployment
    update_cluster insert_audit_entry ◌>>=◌
deploy-started = refl

started-IsEarly : All IsEarly (history_of "d1" started.hub)
unfolding deploy query statement get_cluster find_row launch lock_cluster lookup insert audit
    can_transition run_command unlock_cluster register update_cluster_status create_deployment
    update_cluster insert_audit_entry history_of get_or ◌>>=◌
started-IsEarly = tt

run-deploy_example :
    ((j : String)
      → is_locked j (run calm (task_of live "d1" home 1) started).1.mutex
        ≡ is_locked j idle_world.mutex)
    × ((run calm (task_of live "d1" home 1) started).1.crashed ≡ false)
    × (lookup "d1" (run calm (task_of live "d1" home 1) started).1.cancel_map ≡ none)
run-deploy_example =
    run-deploy calm live live 1 home "d1" idle_world started deploy-started started-IsEarly

run-deploy-Verdict_example :
    Verdict
      (task_of live "d1" home 1)
      ready
      (run calm (task_of live "d1" home 1) started).0
      (run calm (task_of live "d1" home 1) started).1
run-deploy-Verdict_example =
    run-deploy-Verdict calm live live 1 home "d1" idle_world started deploy-started started-IsEarly
      quiet alive
