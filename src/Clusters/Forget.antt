-- ===== src/Clusters/Forget.antt =====
-- clusters/forget.go: a cluster's secrets and rows are removed.
pub mod Laws
use bandolier.Prelude.{ℕ, String, Bool, true, false, List, [], ◌∷◌, ◌++◌, ◌==◌, if◌then◌else◌}
use bandolier.Text.{◌<>◌, error_text, status_name}
use bandolier.Status.{Status}
use bandolier.Vault.{
  proxmox_path, network_path, ssh_path, k3s_join_path, kubeconfig_path, join_token_path,
  wildcard_cert_path,
}
use bandolier.Store.Tables.{Outcome, Details, Detail, cluster_delete}
use bandolier.Store.Clusters.{delete_cluster}
use bandolier.Result.{Result, ok, err}
use bandolier.World.{Ctx, Env, World}
use bandolier.World.Exec.{Exec, pure, raise, attempt, catch, ◌>>=◌, ◌>>◌}
use bandolier.World.Calls.{statement, vault_delete}
use bandolier.Deployments.Effects.{audit}

abbrev pub purge_paths : String → List String
purge_paths id =
    proxmox_path id
    ∷ network_path id
    ∷ ssh_path id
    ∷ k3s_join_path id
    ∷ kubeconfig_path id
    ∷ join_token_path id
    ∷ wildcard_cert_path id
    ∷ []

-- `errs = append(errs, path+": "+err.Error())`
abbrev pub add_error : String → Result (Unit {0}) → List String → List String
add_error path (ok _) errs = errs
add_error path (err e) errs = (path <> ": " <> error_text e) ∷ errs

module _ (env : Env) (ctx : Ctx) where
  unfoldable pub delete_paths : List String → Exec (List String)
  delete_paths [] = pure []
  delete_paths (p ∷ ps) = do
    r ← attempt (vault_delete env ctx p)
    errs ← delete_paths ps
    pure (add_error p r errs)

  -- The errors, one for each path that was not deleted.
  unfoldable pub purge_vault_secrets : String → Exec (List String)
  unfolding delete_paths
  purge_vault_secrets id = delete_paths (purge_paths id)

  abbrev pub forget_details : String → Status → List String → Details
  forget_details name status errs =
      ("status_at_delete", Detail.text (status_name status))
        ∷ (if name == "" then [] else ("name", Detail.text name) ∷ [])
      ++ elim errs [ [] ↦ [] | e ∷ es ↦ ("vault_cleanup_errors", Detail.texts (e ∷ es)) ∷ [] ]

  unfoldable pub forget_cluster : String → String → Status → ℕ → Exec (Unit {0})
  unfolding purge_vault_secrets
  forget_cluster id name status actor = do
    errs ← purge_vault_secrets id
    catch (statement env ctx λ now. delete_cluster id) λ e. do
      audit env ctx actor cluster_delete id Outcome.failure
          (("reason", Detail.text "db_error") ∷ ("error", Detail.text (error_text e)) ∷ [])
      raise e
    audit env ctx actor cluster_delete id Outcome.success (forget_details name status errs)
