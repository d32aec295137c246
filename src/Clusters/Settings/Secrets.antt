-- ===== src/Clusters/Settings/Secrets.antt =====
-- What `Initializer.Handle` of api/internal/clusters/initialize.go puts under each path of Vault.
use bandolier.Prelude.{Bool, true, [], ◌∷◌, Option, none, some}
use bandolier.World.{Value, Secret}
use bandolier.Clusters.Settings.{ProxmoxConfig, NetworkConfig, SshConfig, dns_kind}

-- What Vault is given under each path.
abbrev pub proxmox_secret : ProxmoxConfig → Secret
proxmox_secret p =
    ("endpoint", Value.text p.endpoint)
    ∷ ("token_id", Value.text p.token_id)
    ∷ ("token_secret", Value.text p.token_secret)
    ∷ ("node", Value.text p.node)
    ∷ ("storage", Value.text p.storage)
    ∷ ("username", Value.text p.username)
    ∷ ("password", Value.text p.password)
    ∷ ("image_storage", Value.text p.image_storage)
    ∷ ("snippets_storage", Value.text p.snippets_storage)
    ∷ ("image_pre_uploaded", Value.flag p.image_pre_uploaded)
    ∷ ("distro", Value.text p.distro)
    ∷ ("custom_url", Value.text p.custom_url)
    ∷ ("custom_sha256", Value.text p.custom_sha256)
    ∷ ("ca_bundle", Value.text p.ca_bundle)
    ∷ []

-- The dashboard is on unless the request turns it off.
abbrev pub dashboard_on : Option Bool → Bool
dashboard_on none = true
dashboard_on (some b) = b

abbrev pub network_secret : NetworkConfig → Secret
network_secret n =
    ("cidr", Value.text n.cidr)
    ∷ ("gateway", Value.text n.gateway)
    ∷ ("dns", Value.texts n.dns)
    ∷ ("fqdn", Value.text n.fqdn)
    ∷ ("master_ip", Value.text n.master_ip)
    ∷ ("agent1_ip", Value.text n.agent1_ip)
    ∷ ("agent2_ip", Value.text n.agent2_ip)
    ∷ ("vlan", Value.integer n.vlan)
    ∷ ("bridge_name", Value.text n.bridge_name)
    ∷ ("traefik_dashboard", Value.flag (dashboard_on n.traefik_dashboard))
    ∷ []

abbrev pub ssh_secret : Bool → SshConfig → Secret
ssh_secret byo s =
    ("public_key", Value.text s.public_key)
    ∷ ("private_key", Value.text s.private_key)
    ∷ ("byo", Value.flag byo)
    ∷ []

abbrev pub dns_secret : NetworkConfig → Secret
dns_secret n =
    ("kind", Value.text (dns_kind n))
    ∷ ("server", Value.text n.dns_server)
    ∷ ("zone", Value.text n.dns_zone)
    ∷ ("tsig_name", Value.text n.tsig_name)
    ∷ ("tsig_secret", Value.text n.tsig_secret)
    ∷ []

abbrev pub tls_secret : Secret
tls_secret = ("pki_role", Value.text "traefik") ∷ []
