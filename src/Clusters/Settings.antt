-- ===== src/Clusters/Settings.antt =====
-- The body of a request of api/internal/clusters/initialize.go: its fields, the secrets that an edit
-- keeps, the defaults, and the checks.
pub mod Secrets
use bandolier.Prelude.{
  ℕ, ℤ, up_to, String, Bool, true, false, not, ◌&&◌, ◌||◌, List, [], ◌∷◌, Option, none, some, ◌==◌,
  if◌then◌else◌,
}
use bandolier.Text.{◌<>◌, error_text, trim_space}
use bandolier.Validate.{hostname}
use bandolier.Status.{
  Status, TransitionError, pending, initializing, initialized, error, same_status, can_transition,
}
use bandolier.Store.Tables.{Cluster, Outcome, Detail, Details, cluster_initialize}
use bandolier.Store.Clusters.{get_cluster, update_cluster_status}
use bandolier.Result.{Error, Result, ok, err, not_found, refused, failure}
use bandolier.Response.{
  Response, okay, bad_request, not_found_answer, conflict, server_error, unavailable,
}
use bandolier.World.{Ctx, Env, World, Value, Secret, ssh_keygen, dns_show}
use bandolier.World.Exec.{Exec, pure, raise, ignore, attempt, ◌>>=◌, ◌>>◌}
use bandolier.World.Calls.{statement, query, run_command, vault_get, vault_put, text_field}
use bandolier.Vault.{proxmox_path, network_path, ssh_path, dns_path, tls_path}
use bandolier.Profiles.Images.{Distro, resolve_image}
use bandolier.Clusters.Delete.{is_valid_cluster_id}
use bandolier.Deployments.Effects.{audit}
use bandolier.Deployments.Steps.{
  Provider, none_provider, bind_provider, stub_provider, new_provider, or_raise,
}

pub record ProxmoxConfig : Type 0 where
  pub endpoint : String
  pub token_id : String
  pub token_secret : String
  pub node : String
  pub storage : String
  pub username : String
  pub password : String
  pub image_storage : String
  pub snippets_storage : String
  pub image_pre_uploaded : Bool
  pub distro : String
  pub custom_url : String
  pub custom_sha256 : String
  pub ca_bundle : String

pub record NetworkConfig : Type 0 where
  pub cidr : String
  pub gateway : String
  pub dns : List String
  pub fqdn : String
  pub master_ip : String
  pub agent1_ip : String
  pub agent2_ip : String
  pub vlan : ℤ
  pub bridge_name : String
  pub traefik_dashboard : Option Bool
  pub dns_server : String
  pub dns_zone : String
  pub tsig_name : String
  pub tsig_secret : String

pub record SshConfig : Type 0 where
  pub public_key : String
  pub private_key : String

pub record InitRequest : Type 0 where
  pub proxmox : ProxmoxConfig
  pub network : NetworkConfig
  pub ssh : SshConfig

-- An edit leaves the secrets blank that it does not change.
abbrev pub kept_or : String → String → String
kept_or old new = if new == "" then old else new

abbrev pub keep_proxmox : Secret → InitRequest → InitRequest
keep_proxmox old req = record req {
  proxmox = record req.proxmox {
    token_secret = kept_or (text_field "token_secret" old) req.proxmox.token_secret;
    password = kept_or (text_field "password" old) req.proxmox.password;
  };
}

abbrev pub keep_tsig : Result Secret → InitRequest → InitRequest
keep_tsig (err e) req = req
keep_tsig (ok old) req = record req {
  network = record req.network {
    tsig_secret = kept_or (text_field "tsig_secret" old) req.network.tsig_secret;
  };
}

-- Both keys blank: the pair is kept.
abbrev pub keep_keys : Secret → InitRequest → InitRequest
keep_keys old req = record req {
  ssh =
      if req.ssh.public_key == "" && req.ssh.private_key == ""
      then record {
        public_key = text_field "public_key" old;
        private_key = text_field "private_key" old;
      }
      else req.ssh;
}

-- The name is trimmed before it is checked. The stores get their default after the check of the
-- VLAN, which does not look at them.
abbrev pub settled : InitRequest → InitRequest
settled req = record req {
  proxmox = record req.proxmox {
    image_storage = kept_or "local" req.proxmox.image_storage;
    snippets_storage = kept_or "local" req.proxmox.snippets_storage;
  };
  network = record req.network { fqdn = trim_space req.network.fqdn };
}

abbrev pub is_partial : SshConfig → Bool
is_partial s = if s.public_key == "" then not (s.private_key == "") else s.private_key == ""

abbrev pub is_incomplete : ProxmoxConfig → NetworkConfig → Bool
is_incomplete p n =
    p.endpoint == ""
    || (p.token_id == ""
        || (p.token_secret == ""
            || (p.username == ""
                || (p.password == ""
                    || (n.master_ip == ""
                        || (n.agent1_ip == "" || (n.agent2_ip == "" || n.bridge_name == "")))))))

-- Why a request is refused: the details of the audit row, and the answer.
pub record Fault : Type 0 where
  pub details : Details
  pub message : String

abbrev pub fault_of : String → String → Fault
fault_of reason message = record {
  details = ("reason", Detail.text reason) ∷ [];
  message = message;
}

abbrev pub image_fault : Result Distro → Option Fault
image_fault (ok d) = none
image_fault (err e) = some (fault_of "image_resolve" ("image: " <> error_text e))

-- The first of the checks that fails.
unfoldable pub first_fault : InitRequest → Option Fault
unfolding hostname resolve_image
first_fault req =
    let p = req.proxmox in
    let n = req.network in
    if is_partial req.ssh
    then some (
        fault_of "ssh_byo_partial"
          "ssh: provide both public + private key, or neither (for auto-gen)")
    else (if is_incomplete p n
        then some (fault_of "missing_required_fields" "missing required fields")
        else (if not (n.fqdn == "") && not (hostname n.fqdn)
            then some (fault_of "invalid_fqdn" "invalid fqdn")
            else (if not (up_to 4094 n.vlan)
                then some (record {
                  details =
                      ("reason", Detail.text "vlan_out_of_range")
                      ∷ ("vlan", Detail.integer n.vlan)
                      ∷ [];
                  message = "network.vlan must be 0 (untagged) or 1-4094";
                })
                else image_fault (resolve_image p.distro p.custom_url p.custom_sha256))))

abbrev pub dns_kind : NetworkConfig → String
dns_kind n =
    if n.dns_server == "" && n.dns_zone == "" && n.tsig_name == "" && n.tsig_secret == ""
    then "none"
    else "bind"
