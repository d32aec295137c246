-- ===== src/Deployments/Retrieve.antt =====
-- RetrieveKubeconfig of deployments/kubeconfig.go and RetrieveJoinToken of join_token.go: the
-- manual retries. The two differ in the last call only. `ErrClusterNotReady` is a text here.
pub mod Laws
use bandolier.Prelude.{String, not, ◌==◌}
use bandolier.Text.{◌<>◌, status_name}
use bandolier.Status.{ready, same_status}
use bandolier.Vault.{network_path, ssh_path}
use bandolier.Store.Clusters.{get_cluster}
use bandolier.World.{Ctx, Env, make_run_dir, write_key}
use bandolier.World.Exec.{Exec, ◌>>=◌, ◌>>◌}
use bandolier.World.Calls.{query, vault_get, run_command, text_field}
use bandolier.Deployments.Steps.{wrapped, check, fetch_kubeconfig, fetch_join_token}

module _ (env : Env) (ctx : Ctx) (id : String) where
  -- The steps that need the cluster's network and its key.
  abbrev pub connect : (String → Exec (Unit {0})) → Exec (Unit {0})
  connect fetch = do
    net ← wrapped "vault network: " (vault_get env ctx (network_path id))
    check (not (text_field "master_ip" net == "")) "master_ip missing from vault network"
    ssh ← wrapped "vault ssh: " (vault_get env ctx (ssh_path id))
    check (not (text_field "private_key" ssh == "")) "ssh private key missing"
    wrapped "temp dir: " (run_command env make_run_dir)
    wrapped "write ssh key: " (run_command env write_key)
    fetch (text_field "master_ip" net)

  unfoldable pub retrieve : (String → Exec (Unit {0})) → Exec (Unit {0})
  retrieve fetch = do
    c ← query env ctx (get_cluster id)
    check (same_status c.status ready)
        ("cluster not ready for kubeconfig retrieve (got " <> status_name c.status <> ")")
    connect fetch

  unfoldable pub retrieve_kubeconfig : Exec (Unit {0})
  unfolding retrieve fetch_kubeconfig
  retrieve_kubeconfig = retrieve (fetch_kubeconfig env ctx id)

  unfoldable pub retrieve_join_token : Exec (Unit {0})
  unfolding retrieve fetch_join_token
  retrieve_join_token = retrieve (λ ip. fetch_join_token env ctx id)
