-- ===== src/Vault.antt =====
-- api/internal/vault/paths.go, and the paths that the program writes out by hand.
use bandolier.Prelude.{String}
use bandolier.Text.{◌<>◌}

abbrev pub proxmox_path : String → String
proxmox_path id = "clusters/" <> id <> "/proxmox"

abbrev pub network_path : String → String
network_path id = "clusters/" <> id <> "/network"

abbrev pub ssh_path : String → String
ssh_path id = "clusters/" <> id <> "/ssh"

abbrev pub dns_path : String → String
dns_path id = "clusters/" <> id <> "/dns"

abbrev pub tls_path : String → String
tls_path id = "clusters/" <> id <> "/tls"

abbrev pub k3s_join_path : String → String
k3s_join_path id = "clusters/" <> id <> "/k3s"

abbrev pub kubeconfig_path : String → String
kubeconfig_path id = "clusters/" <> id <> "/kubeconfig"

abbrev pub join_token_path : String → String
join_token_path id = "clusters/" <> id <> "/join_token"

abbrev pub wildcard_cert_path : String → String
wildcard_cert_path id = "clusters/" <> id <> "/wildcard_cert"
