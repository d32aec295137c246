-- ===== src/Tests/Clusters.antt =====
-- The configuration and the creation of clusters on concrete installations.
use bandolier.Prelude.{[], ◌∷◌, false, ◌≡◌, refl, pos, none, some, find_row}
use bandolier.Status.{pending, can_transition}
use bandolier.Store.Clusters.{get_cluster}
use bandolier.World.Exec.{◌>>=◌}
use bandolier.World.Calls.{query, run_command, vault_put}
use bandolier.Deployments.Effects.{audit}
use bandolier.Result.{ok}
use bandolier.Response.{okay}
use bandolier.World.{World}
use bandolier.World.Rules.{IsQuiet, IsLive}
use bandolier.World.Triples.{Ends}
use bandolier.World.Returns.{Never, Returns}
use bandolier.Clusters.Create.{create_handler}
use bandolier.Clusters.Create.Laws.{CreatedIf, create_handler-CreatedIf}
use bandolier.Clusters.Reconcile.{reconcile_factory_repos}
use bandolier.Clusters.Reconcile.Laws.{Reconciled, reconcile_factory_repos-Reconciled}
use bandolier.Clusters.Settings.{InitRequest}
use bandolier.Clusters.Configure.{initialize}
use bandolier.Tests.{home, calm, live, cluster, db_of, idle}

abbrev fresh : World
fresh = idle (db_of (cluster pending) [])

abbrev wizard : InitRequest
wizard = record {
  proxmox = record {
    endpoint = "https://pve";
    token_id = "root@pam!b";
    token_secret = "s";
    node = "pve";
    storage = "local-lvm";
    username = "root";
    password = "p";
    image_storage = "";
    snippets_storage = "";
    image_pre_uploaded = false;
    distro = "rocky9";
    custom_url = "";
    custom_sha256 = "";
    ca_bundle = "";
  };
  network = record {
    cidr = "10.0.0.0/24";
    gateway = "10.0.0.1";
    dns = "10.0.0.1" ∷ [];
    fqdn = " lab.local";
    master_ip = "10.0.0.9";
    agent1_ip = "10.0.0.10";
    agent2_ip = "10.0.0.11";
    vlan = pos 4094;
    bridge_name = "vmbr0";
    traefik_dashboard = none;
    dns_server = "";
    dns_zone = "";
    tsig_name = "";
    tsig_secret = "";
  };
  ssh = record { public_key = ""; private_key = "" };
}

configures : (initialize calm live 1 home (some wizard) fresh).0 ≡ ok (okay "initialized")
unfolding initialize query get_cluster find_row can_transition run_command vault_put audit ◌>>=◌
configures = refl

abbrev empty : World
empty = idle (record (db_of (cluster pending) []) { clusters = [] })

create_handler-CreatedIf_example :
    Returns
      (CreatedIf calm (some ("lab", "homelab")) empty)
      Never
      (create_handler calm live 1 (some ("lab", "homelab")) empty).0
      (create_handler calm live 1 (some ("lab", "homelab")) empty).1
create_handler-CreatedIf_example =
    create_handler-CreatedIf calm live 1 (some ("lab", "homelab")) empty

calm-IsQuiet : IsQuiet calm
calm-IsQuiet = record { sql = λ n. refl }

live-IsLive : IsLive live
live-IsLive = record { never = λ n. refl }

reconcile_factory_repos-Reconciled_example :
    Ends
      (Reconciled fresh)
      Never
      (reconcile_factory_repos calm live fresh).0
      (reconcile_factory_repos calm live fresh).1
reconcile_factory_repos-Reconciled_example =
    reconcile_factory_repos-Reconciled calm live fresh calm-IsQuiet live-IsLive
