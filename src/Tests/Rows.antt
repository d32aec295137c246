-- ===== src/Tests/Rows.antt =====
-- The store, the hub, the lock table, the statuses and the recovery on concrete data.
use bandolier.Prelude.{ℕ, List, [], ◌∷◌, true, false, not, ◌≡◌, refl, ◌==◌, ◌||◌, All, arith}
use bandolier.Status.{ready, destroying}
use bandolier.Store.Tables.{Db, destroy_op, DeploymentStatus}
use bandolier.Store.Deployments.{list_running_deployments}
use bandolier.Store.Integrity.{
  IsSound, Statement, set_status, drop_cluster, add_deployment, end_deployment, execute_all,
  execute_all-IsSound,
}
use bandolier.Hub.{Event, new_hub, subscribe}
use bandolier.Hub.History.{history_of, publish_all, stamp_all, recent, history_of-new_hub}
use bandolier.Hub.Subscribers.{queue_of, queue_of-subscribe}
use bandolier.Mutex.{ClusterMutex, try_lock}
use bandolier.Mutex.Laws.{is_locked, try_lock_lem}
use bandolier.World.{World}
use bandolier.Deployments.Effects.{started_event, ended_event, log_event}
use bandolier.Deployments.Recover.{recover_orphaned_deployments}
use bandolier.Deployments.Recover.Rows.{Closed}
use bandolier.Deployments.Recover.Laws.{recover-Closed}
use bandolier.Tests.{home, calm, live, cluster, row, db_of, idle}

abbrev interrupted : World
interrupted =
    idle (db_of (record (cluster destroying) { pending_forget = true }) (row destroy_op ∷ []))

recover-Closed_example :
    (list_running_deployments (recover_orphaned_deployments calm live interrupted).1.db ≡ [])
    × All
        (λ d. Closed d.cluster_id (recover_orphaned_deployments calm live interrupted).1.db)
        (list_running_deployments interrupted.db)
recover-Closed_example =
    recover-Closed calm live interrupted (record { sql = λ n. refl }) (record { never = λ n. refl })

abbrev one_cluster : Db
one_cluster = db_of (cluster ready) []

one_cluster-IsSound : IsSound one_cluster
one_cluster-IsSound = record {
  cluster_ids = (refl, tt);
  cluster_names = (refl, tt);
  deployment_ids = tt;
  references = tt;
}

abbrev history : List (ℕ × Statement)
history =
    (1, add_deployment (row destroy_op))
    ∷ (2, set_status home destroying)
    ∷ (3, end_deployment "d1" DeploymentStatus.succeeded "")
    ∷ (4, drop_cluster home)
    ∷ []

execute_all-IsSound_example : IsSound (execute_all history one_cluster)
execute_all-IsSound_example = execute_all-IsSound history one_cluster one_cluster-IsSound

abbrev events : List (ℕ × Event)
events = (1, started_event "ansible") ∷ (2, log_event "ok") ∷ (3, ended_event "ansible" 0) ∷ []

queue_of-subscribe_example :
    let (snapshot, c, h') = subscribe "d1" 256 new_hub in
    (snapshot ≡ history_of "d1" new_hub)
    × (queue_of c (publish_all "d1" events h') ≡ stamp_all events)
queue_of-subscribe_example = queue_of-subscribe "d1" 256 new_hub events (omega arith)

history_of-new_hub_example :
    history_of "d1" (publish_all "d1" events new_hub) ≡ recent (stamp_all events)
history_of-new_hub_example = history_of-new_hub "d1" events

abbrev one_lock : ClusterMutex
one_lock = record { per = ("a", true) ∷ ("b", false) ∷ [] }

try_lock_lem_example :
    ((try_lock "b" one_lock).0 ≡ not (is_locked "b" one_lock))
    × (is_locked "a" (try_lock "b" one_lock).1 ≡ ("b" == "a" || is_locked "a" one_lock))
try_lock_lem_example = try_lock_lem "b" "a" one_lock
