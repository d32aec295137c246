-- ===== src/Tests/Requests.antt =====
-- The requests on concrete installations.
use bandolier.Prelude.{[], ◌∷◌, true, false, ◌≡◌, refl, lookup, find_row, arith}
use bandolier.Status.{initialized, deploying, ready}
use bandolier.Result.{refused, in_progress, ok}
use bandolier.Store.Tables.{Cluster, deploy_op}
use bandolier.Store.Clusters.{get_cluster}
use bandolier.Mutex.Laws.{is_locked}
use bandolier.World.{World}
use bandolier.World.Returns.{Never, Returns}
use bandolier.Clusters.Delete.{delete_cluster_handler, deletable}
use bandolier.Clusters.Delete.Laws.{Declined, delete-Declined}
use bandolier.Clusters.Delete.Removal.{Promised, delete-Promised}
use bandolier.Deployments.CancelHandler.{cancel_handler}
use bandolier.Deployments.CancelHandler.Laws.{Answered, cancel_handler-Answered}
use bandolier.Deployments.Retrieve.{retrieve_kubeconfig}
use bandolier.Deployments.Retrieve.Laws.{Retrieved, retrieve_kubeconfig-Retrieved}
use bandolier.Deployments.Start.{deploy_plan, start}
use bandolier.Deployments.Start.Launched.{Untouched}
use bandolier.Deployments.Start.Granting.{Granted, Refused, start-Granted, start-Refused}
use bandolier.Tests.{home, calm, live, cluster, row, db_of, idle, under_way}

abbrev configured : World
configured = idle (db_of (cluster initialized) [])

abbrev busy : World
busy = under_way (db_of (cluster deploying) (row deploy_op ∷ []))

start-Granted_example :
    Returns
      (Granted calm deploy_plan home 1 configured)
      (Untouched configured)
      (start calm refused in_progress deploy_plan live 1 home configured).0
      (start calm refused in_progress deploy_plan live 1 home configured).1
start-Granted_example = start-Granted calm refused in_progress deploy_plan live 1 home configured

start-Refused_example :
    Refused busy
      (start calm refused in_progress deploy_plan live 1 home busy).0
      (start calm refused in_progress deploy_plan live 1 home busy).1
unfolding is_locked lookup
start-Refused_example = start-Refused calm refused in_progress deploy_plan live 1 home busy refl

transient : (c : Cluster) → get_cluster home busy.db ≡ ok c → deletable true c.status ≡ false
unfolding get_cluster find_row
transient c e = ground arith

delete-Declined_example :
    Returns
      (Declined busy)
      Never
      (delete_cluster_handler calm live 1 home true busy).0
      (delete_cluster_handler calm live 1 home true busy).1
delete-Declined_example = delete-Declined calm live 1 home true busy transient

delete-Promised_example :
    Returns
      (Promised home)
      Never
      (delete_cluster_handler calm live 1 home false configured).0
      (delete_cluster_handler calm live 1 home false configured).1
delete-Promised_example = delete-Promised calm live 1 home false configured

cancel_handler-Answered_example :
    Returns
      (Answered "d1" busy)
      Never
      (cancel_handler calm live "d1" busy).0
      (cancel_handler calm live "d1" busy).1
cancel_handler-Answered_example = cancel_handler-Answered calm live "d1" busy

abbrev serving : World
serving = idle (db_of (cluster ready) [])

retrieve_kubeconfig-Retrieved_example :
    Retrieved home serving
      (retrieve_kubeconfig calm live home serving).0
      (retrieve_kubeconfig calm live home serving).1
retrieve_kubeconfig-Retrieved_example = retrieve_kubeconfig-Retrieved calm live home serving
