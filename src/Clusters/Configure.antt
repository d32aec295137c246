-- ===== src/Clusters/Configure.antt =====
-- `Initializer.Handle` of api/internal/clusters/initialize.go: the configuration of a cluster, from
-- the wizard to Vault. The body comes decoded, `none` for a text that is no JSON.
pub mod Checks
pub mod Vaulted
pub mod Stored
pub mod Answers
use bandolier.Prelude.{
  ℕ, ℤ, up_to, String, Bool, true, false, not, ◌&&◌, ◌||◌, List, [], ◌∷◌, Option, none, some, ◌==◌,
  if◌then◌else◌,
}
use bandolier.Text.{◌<>◌, error_text, trim_space}
use bandolier.Validate.{hostname}
use bandolier.Status.{
  Status, TransitionError, pending, initializing, initialized, error, same_status, can_transition,
}
use bandolier.Store.Tables.{Cluster, Outcome, Detail, Details, cluster_initialize}
use bandolier.Store.Clusters.{get_cluster, update_cluster_status}
use bandolier.Result.{Error, Result, ok, err, not_found, refused, failure}
use bandolier.Response.{
  Response, okay, bad_request, not_found_answer, conflict, server_error, unavailable,
}
use bandolier.World.{Ctx, Env, World, Value, Secret, ssh_keygen, dns_show}
use bandolier.World.Exec.{Exec, pure, raise, ignore, attempt, ◌>>=◌, ◌>>◌}
use bandolier.World.Calls.{statement, query, run_command, vault_get, vault_put, text_field}
use bandolier.Vault.{proxmox_path, network_path, ssh_path, dns_path, tls_path}
use bandolier.Profiles.Images.{Distro, resolve_image}
use bandolier.Clusters.Delete.{is_valid_cluster_id}
use bandolier.Deployments.Effects.{audit}
use bandolier.Deployments.Steps.{
  Provider, none_provider, bind_provider, stub_provider, new_provider, or_raise,
}
use bandolier.Clusters.Settings.{
  ProxmoxConfig, NetworkConfig, SshConfig, InitRequest, Fault, first_fault, settled, keep_keys,
  keep_tsig, keep_proxmox, dns_kind,
}
use bandolier.Clusters.Settings.Secrets.{
  proxmox_secret, network_secret, ssh_secret, dns_secret, tls_secret,
}

-- `generateSSHKey`
unfoldable pub generate_ssh_key : Env → Exec SshConfig
generate_ssh_key env w =
    (run_command env ssh_keygen >>= λ _.
    pure (record { public_key = (env.ssh_keys w.clock).0; private_key = (env.ssh_keys w.clock).1 }))
      w

module _ (env : Env) (ctx : Ctx) (uid : ℕ) (id : String) where
  abbrev pub reject : Details → Response → Exec Response
  reject details r = do audit env ctx uid cluster_initialize id Outcome.failure details; pure r

  -- The same after the cluster's status was changed.
  abbrev pub abort : String → Response → Exec Response
  abort reason r = do
    ignore (statement env ctx λ now. update_cluster_status now id error)
    reject (("reason", Detail.text reason) ∷ []) r

  abbrev pub put_or :
      String → (Error → Response) → Exec Response → Result (Unit {0}) → Exec Response
  put_or reason answer next (err e) = abort reason (answer e)
  put_or reason answer next (ok u) = next

  abbrev pub store_secret :
      String → Secret → String → (Error → Response) → Exec Response → Exec Response
  store_secret path secret reason answer next = do
    r ← attempt (vault_put env ctx path secret)
    put_or reason answer next r

  -- `provider.Healthy`
  abbrev pub healthy : Provider → NetworkConfig → Exec (Unit {0})
  healthy none_provider n = pure tt
  healthy bind_provider n = run_command env (dns_show n.dns_server n.dns_zone)
  healthy stub_provider n = raise (failure "dns: provider not implemented")

  abbrev pub finish_init : Bool → InitRequest → Exec Response
  finish_init edit req = do
    ignore (statement env ctx λ now. update_cluster_status now id initialized)
    audit env ctx uid cluster_initialize id Outcome.success (
        ("image_pre_uploaded", Detail.flag req.proxmox.image_pre_uploaded)
        ∷ ("edit_mode", Detail.flag edit)
        ∷ [])
    pure (okay "initialized")

  abbrev pub preflight_done : Bool → InitRequest → Result (Unit {0}) → Exec Response
  preflight_done edit req (err e) =
      abort "dns_preflight" (bad_request ("dns pre-flight: " <> error_text e))
  preflight_done edit req (ok u) = finish_init edit req

  abbrev pub with_provider : Bool → InitRequest → Result Provider → Exec Response
  with_provider edit req (err e) =
      abort "dns_provider" (bad_request ("dns provider: " <> error_text e))
  with_provider edit req (ok p) = do r ← attempt (healthy p req.network); preflight_done edit req r

  abbrev pub preflight : Bool → InitRequest → Exec Response
  preflight edit req =
      if dns_kind req.network == "none"
      then finish_init edit req
      else with_provider edit req (new_provider "bind")

  unfoldable pub store_all : Bool → Bool → InitRequest → Exec Response
  unfolding new_provider
  store_all edit byo req =
      store_secret (proxmox_path id) (proxmox_secret req.proxmox) "vault_proxmox"
        (λ e. server_error "vault proxmox")
        (store_secret (network_path id) (network_secret req.network) "vault_network"
          (λ e. server_error "vault network")
          (store_secret (ssh_path id) (ssh_secret byo req.ssh) "vault_ssh"
            (λ e. server_error "vault ssh")
            (store_secret (dns_path id) (dns_secret req.network) "vault_dns"
              (λ e. server_error ("vault dns write: " <> error_text e))
              (store_secret (tls_path id) tls_secret "vault_tls"
                (λ e. server_error ("vault tls write: " <> error_text e)) (preflight edit req)))))

  abbrev pub with_keys : Bool → InitRequest → Result SshConfig → Exec Response
  with_keys edit req (err e) = abort "ssh_keygen" (server_error ("ssh keygen: " <> error_text e))
  with_keys edit req (ok keys) = store_all edit false (record req { ssh = keys })

  abbrev pub save : Bool → InitRequest → Exec Response
  save edit req = do
    ignore (statement env ctx λ now. update_cluster_status now id initializing)
    (if not (req.ssh.public_key == "") && not (req.ssh.private_key == "")
        then store_all edit true req
        else (do keys ← attempt (generate_ssh_key env); with_keys edit req keys))

  abbrev pub unless_fault : Bool → InitRequest → Option Fault → Exec Response
  unless_fault edit req (some f) = reject f.details (bad_request f.message)
  unless_fault edit req none = save edit req

  unfoldable pub check_settings : Bool → InitRequest → Exec Response
  unfolding store_all generate_ssh_key first_fault
  check_settings edit req = unless_fault edit (settled req) (first_fault (settled req))

  abbrev pub merge_keys : InitRequest → Result Secret → Exec Response
  merge_keys req (err e) = pure (unavailable ("vault unavailable (ssh merge): " <> error_text e))
  merge_keys req (ok old) = check_settings true (keep_keys old req)

  abbrev pub merge_proxmox : InitRequest → Result Secret → Exec Response
  merge_proxmox req (err e) =
      pure (unavailable ("vault unavailable (proxmox merge): " <> error_text e))
  merge_proxmox req (ok old) = do
    dns ← attempt (vault_get env ctx (dns_path id))
    ssh ← attempt (vault_get env ctx (ssh_path id))
    merge_keys (keep_tsig dns (keep_proxmox old req)) ssh

  abbrev pub configure_moved : Status → Option InitRequest → Exec Response
  configure_moved s none =
      reject (("reason", Detail.text "invalid_json") ∷ []) (bad_request "invalid json")
  configure_moved s (some req) =
      if same_status s pending
      then check_settings false req
      else (do old ← attempt (vault_get env ctx (proxmox_path id)); merge_proxmox req old)

  abbrev pub if_movable : Status → Option InitRequest → Option TransitionError → Exec Response
  if_movable s body (some t) =
      reject (("reason", Detail.text "invalid_state_transition") ∷ [])
        (conflict (error_text (refused t)))
  if_movable s body none = configure_moved s body

  abbrev pub configure_found : Option InitRequest → Result Cluster → Exec Response
  configure_found body (err not_found) = pure (not_found_answer "not found")
  configure_found body (err e) = pure (server_error (error_text e))
  configure_found body (ok c) = if_movable c.status body (can_transition c.status initializing)

  unfoldable pub initialize : Option InitRequest → Exec Response
  unfolding check_settings is_valid_cluster_id
  initialize body =
      if is_valid_cluster_id id
      then (do found ← attempt (query env ctx (get_cluster id)); configure_found body found)
      else pure (bad_request "invalid cluster id")
