-- ===== src/Tests/Runs.antt =====
-- The goroutines on concrete installations.
use bandolier.Prelude.{[], ◌∷◌, some, true, false, ◌≡◌, refl, lookup, find_row, arith}
use bandolier.Status.{deploying, ready, upgrading, destroying}
use bandolier.Result.{ok}
use bandolier.Store.Tables.{DeploymentStatus, deploy_op, destroy_op, upgrade_op, cluster_deploy}
use bandolier.Hub.History.{history_of}
use bandolier.Mutex.Laws.{is_locked}
use bandolier.World.{World, Ctx}
use bandolier.World.Exec.{◌>>=◌}
use bandolier.World.Rules.{IsQuiet, IsLive}
use bandolier.Deployments.Effects.{emit}
use bandolier.Deployments.Finish.{record_success, announce_success}
use bandolier.Deployments.Finish.Recorded.{Tracked}
use bandolier.Deployments.Finish.Release.{Concluded, Released}
use bandolier.Deployments.Finish.Verdict.{Verdict, FailureVerdict}
use bandolier.Deployments.Finish.Late.{announce_success_late}
use bandolier.Prelude.{insert, get_or}
use bandolier.Text.{trim_space, replace_all}
use bandolier.Hub.{publish}
use bandolier.World.Calls.{read_output, vault_put, vault_get, vault_issue, text_field}
use bandolier.Deployments.Effects.{run_streamed, deregister, emit_lines, finish_status}
use bandolier.Deployments.Finish.{fail, record_failure}
use bandolier.Deployments.Pipeline.{
  fail_deploy, fetch_credentials, in_step, ingress, playbook, prepare, run_body, terraform,
}
use bandolier.Deployments.Steps.{
  fetch_kubeconfig, fetch_join_token, write_wildcard_dns, issue_wildcard_tls, install_traefik,
  issue_wildcard_cert, persist_wildcard_cert, cert_bundle, rewrite_server_address, traefik_hostname,
}
use bandolier.World.Calls.{statement, run_command}
use bandolier.Deployments.Effects.{unlock_cluster, audit}
use bandolier.Deployments.Outcome.{Announced}
use bandolier.Deployments.Pipeline.{run}
use bandolier.Deployments.Pipeline.Run.{run-Concluded}
use bandolier.Deployments.Pipeline.Verdicts.{run-FailureVerdict}
use bandolier.Deployments.Teardown.{run_destroy}
use bandolier.Deployments.Teardown.Run.{run_destroy-Concluded}
use bandolier.Deployments.Teardown.Latch.{latch_of}
use bandolier.Deployments.Teardown.Forgets.{Forgotten, run_destroy_keeps_row, run_destroy-Forgotten}
use bandolier.Deployments.UpgradeRun.{run_upgrade}
use bandolier.Deployments.UpgradeRun.Run.{run_upgrade-Concluded}
use bandolier.Deployments.UpgradeRun.Verdicts.{run_upgrade-Verdict}
use bandolier.Tests.{home, calm, stormy, live, cluster, row, db_of, under_way, task}

abbrev deploying_world : World
deploying_world = under_way (db_of (cluster deploying) (row deploy_op ∷ []))

abbrev upgrading_world : World
upgrading_world = under_way (db_of (cluster upgrading) (row upgrade_op ∷ []))

abbrev destroying_world : World
destroying_world = under_way (db_of (cluster destroying) (row destroy_op ∷ []))

abbrev cascading_world : World
cascading_world =
    under_way (db_of (record (cluster destroying) { pending_forget = true }) (row destroy_op ∷ []))

abbrev cancelled_early : Ctx
cancelled_early = record { cancel_at = some 4 }

calm-IsQuiet : IsQuiet calm
calm-IsQuiet = record { sql = λ n. refl }

stormy-IsQuiet : IsQuiet stormy
stormy-IsQuiet = record { sql = λ n. refl }

live-IsLive : IsLive live
live-IsLive = record { never = λ n. refl }

deploying-Tracked : Tracked "d1" home deploying_world.db
unfolding find_row
deploying-Tracked = record {
  deployment = row deploy_op;
  is_deployment = refl;
  cluster = cluster deploying;
  is_cluster = refl;
}

upgrading-Tracked : Tracked "d1" home upgrading_world.db
unfolding find_row
upgrading-Tracked = record {
  deployment = row upgrade_op;
  is_deployment = refl;
  cluster = cluster upgrading;
  is_cluster = refl;
}

run-Concluded_example :
    Concluded "d1" (run calm (task live) deploying_world).0 (run calm (task live) deploying_world).1
    × Released (task live) deploying_world (run calm (task live) deploying_world).1
unfolding is_locked lookup history_of get_or
run-Concluded_example = run-Concluded calm (task live) deploying_world refl tt

run_destroy-Concluded_example :
    Concluded "d1"
      (run_destroy calm (task live) cascading_world).0
      (run_destroy calm (task live) cascading_world).1
    × Released (task live) cascading_world (run_destroy calm (task live) cascading_world).1
unfolding is_locked lookup history_of get_or
run_destroy-Concluded_example = run_destroy-Concluded calm (task live) cascading_world refl tt

run_upgrade-Concluded_example :
    Concluded "d1"
      (run_upgrade calm (task live) "v1.30" upgrading_world).0
      (run_upgrade calm (task live) "v1.30" upgrading_world).1
    × Released (task live) upgrading_world (run_upgrade calm (task live) "v1.30" upgrading_world).1
unfolding is_locked lookup history_of get_or
run_upgrade-Concluded_example =
    run_upgrade-Concluded calm (task live) "v1.30" upgrading_world refl tt

run-FailureVerdict_example :
    FailureVerdict
      (task cancelled_early)
      (run stormy (task cancelled_early) deploying_world).0
      (run stormy (task cancelled_early) deploying_world).1
unfolding history_of get_or
run-FailureVerdict_example =
    run-FailureVerdict stormy (task cancelled_early) deploying_world stormy-IsQuiet
      deploying-Tracked tt

run_upgrade-Verdict_example :
    Verdict
      (task live)
      ready
      (run_upgrade calm (task live) "v1.30" upgrading_world).0
      (run_upgrade calm (task live) "v1.30" upgrading_world).1
unfolding history_of get_or
run_upgrade-Verdict_example =
    run_upgrade-Verdict calm (task live) "v1.30" upgrading_world calm-IsQuiet live-IsLive
      upgrading-Tracked tt

run_destroy_keeps_row_example :
    latch_of home (run_destroy stormy (task live) destroying_world).1.db ≡ some false
unfolding find_row
run_destroy_keeps_row_example = run_destroy_keeps_row stormy (task live) destroying_world refl

run_destroy-Forgotten_example :
    Forgotten home
      (run_destroy calm (task live) cascading_world).0
      (run_destroy calm (task live) cascading_world).1
unfolding find_row
run_destroy-Forgotten_example =
    run_destroy-Forgotten calm (task live) cascading_world calm-IsQuiet live-IsLive refl

announce_success_late_example :
    ((record_success calm (task (record { cancel_at = some 0 })) ready cluster_deploy [] >>= λ _.
    announce_success (task (record { cancel_at = some 0 })))
        deploying_world).1.db
      ≡ deploying_world.db
    × Announced "d1" DeploymentStatus.succeeded
        ((record_success calm (task (record { cancel_at = some 0 })) ready cluster_deploy []
            >>= λ _. announce_success (task (record { cancel_at = some 0 })))
          deploying_world).1
unfolding history_of get_or
announce_success_late_example =
    announce_success_late calm (task (record { cancel_at = some 0 })) ready cluster_deploy [] 0
      deploying_world refl (omega arith) tt

-- The deploy runs through.
run-ok : (run calm (task live) deploying_world).0 ≡ ok tt
unfolding run ◌>>=◌ run_command run_streamed read_output fetch_kubeconfig vault_put fetch_join_token
    trim_space write_wildcard_dns vault_get lookup emit insert issue_wildcard_tls text_field
    vault_issue install_traefik audit deregister emit_lines finish_status unlock_cluster fail
    record_failure record_success fail_deploy fetch_credentials in_step ingress playbook prepare
    run_body terraform issue_wildcard_cert persist_wildcard_cert cert_bundle rewrite_server_address
    replace_all traefik_hostname publish statement get_or
run-ok = refl
