-- ===== src/Clusters/Configure/Stored.antt =====
-- What a request to configure a cluster leaves in Vault, whatever it is answered.
use bandolier.Prelude.{
  ℕ, String, Bool, true, false, not, ◌&&◌, ◌≡◌, refl, sym, List, [], ◌∷◌, Option, none, some, ◌==◌,
  ap, ◌∙◌, ◌⊎◌, inl, inr, insert, arith, Bool-cases,
}
use bandolier.Status.{initializing, can_transition}
use bandolier.Store.Tables.{Cluster}
use bandolier.Store.Clusters.{get_cluster}
use bandolier.Store.Deployments.{take}
use bandolier.Result.{Result, ok, err}
use bandolier.Response.{Response}
use bandolier.Vault.{proxmox_path, network_path, ssh_path, dns_path, tls_path}
use bandolier.World.{World, Secret}
use bandolier.Clusters.Settings.{
  InitRequest, SshConfig, settled, keep_keys, keep_tsig, keep_proxmox, kept_or, is_partial,
}
use bandolier.Clusters.Settings.Secrets.{
  proxmox_secret, network_secret, ssh_secret, dns_secret, tls_secret,
}
use bandolier.Clusters.Configure.Checks.{is_sound}
use bandolier.Clusters.Configure.Vaulted.{is_okay}

-- What is written, in that order.
abbrev pub writes : String → Bool → InitRequest → List (String × Secret)
writes id byo s =
    (proxmox_path id, proxmox_secret s.proxmox)
    ∷ (network_path id, network_secret s.network)
    ∷ (ssh_path id, ssh_secret byo s.ssh)
    ∷ (dns_path id, dns_secret s.network)
    ∷ (tls_path id, tls_secret)
    ∷ []

unfoldable pub put_all : List (String × Secret) → List (String × Secret) → List (String × Secret)
put_all [] v = v
put_all (e ∷ es) v = put_all es (insert e.0 e.1 v)

-- The request but for the passwords and keys, which an edit may leave blank.
abbrev pub public_part : InitRequest → InitRequest
public_part r = record {
  proxmox = record r.proxmox { token_secret = ""; password = "" };
  network = record r.network { tsig_secret = "" };
  ssh = record { public_key = ""; private_key = "" };
}

abbrev pub is_blank : SshConfig → Bool
is_blank k = k.public_key == "" && k.private_key == ""

abbrev pub is_given : SshConfig → Bool
is_given k = not (k.public_key == "") && not (k.private_key == "")

-- What was posted of the passwords and keys is saved.
pub record Own (posted saved : InitRequest) : Type 0 where
  pub token :
      (posted.proxmox.token_secret == "") ≡ false
      → saved.proxmox.token_secret ≡ posted.proxmox.token_secret
  pub password :
      (posted.proxmox.password == "") ≡ false → saved.proxmox.password ≡ posted.proxmox.password
  pub tsig :
      (posted.network.tsig_secret == "") ≡ false
      → saved.network.tsig_secret ≡ posted.network.tsig_secret
  pub keys : is_blank posted.ssh ≡ false → saved.ssh ≡ posted.ssh

-- The configuration `saved`, of which the first `count` writes were made: it is what was posted for
-- a cluster that may be configured, and it has passed the checks.
pub record Stored (id : String) (body : Option InitRequest) (w₀ : World) (r : Response) (w : World)
    : Type 0 where
  pub cluster : Cluster
  pub found : get_cluster id w₀.db ≡ ok cluster
  pub movable : can_transition cluster.status initializing ≡ none
  pub posted : InitRequest
  pub body_eq : body ≡ some posted
  pub saved : InitRequest
  pub byo : Bool
  pub asked : public_part saved ≡ public_part (settled posted)
  pub sound : is_sound saved ≡ true
  pub keys : byo ≡ true → is_given saved.ssh ≡ true
  pub own : Own posted saved
  pub count : ℕ
  pub vault : w.vault ≡ put_all (take count (writes id byo saved)) w₀.vault
  pub complete : is_okay r ≡ true → count ≡ 5

pub record Untouched (w₀ : World) (r : Response) (w : World) : Type 0 where
  pub vault : w.vault ≡ w₀.vault
  pub refused : is_okay r ≡ false

abbrev pub Configured : String → Option InitRequest → World → Response → World → Type 0
Configured id body w₀ r w = Untouched w₀ r w ⊎ Stored id body w₀ r w

-- A pair that is neither given nor half given is blank.
not_given : (k : SshConfig) → is_given k ≡ false → is_partial k ≡ false → is_blank k ≡ true
not_given k g p = ground arith

pub replaced :
    (s posted : SshConfig)
    → (is_blank posted ≡ false → s ≡ posted)
    → is_given s ≡ false
    → is_partial s ≡ false
    → is_blank posted ≡ true
replaced s posted own g p = elim (Bool-cases (is_blank posted)) [
  | inl e ↦ e
  | inr e ↦ ap is_blank (sym (own e)) ∙ not_given s g p
]

keep_keys-own :
    (old : Secret) (m : InitRequest) → is_blank m.ssh ≡ false → (keep_keys old m).ssh ≡ m.ssh
keep_keys-own old m e = rw e refl

kept_or-given : (old new : String) → (new == "") ≡ false → kept_or old new ≡ new
kept_or-given old new e = rw e refl

pub Own-refl : (req : InitRequest) → Own req req
Own-refl req = record {
  token = λ e. refl;
  password = λ e. refl;
  tsig = λ e. refl;
  keys = λ e. refl;
}

pub Own-keep_proxmox : (old : Secret) (req : InitRequest) → Own req (keep_proxmox old req)
Own-keep_proxmox old req = record {
  token = λ e. kept_or-given _ req.proxmox.token_secret e;
  password = λ e. kept_or-given _ req.proxmox.password e;
  tsig = λ e. refl;
  keys = λ e. refl;
}

pub Own-keep_tsig :
    (dns : Result Secret) (req m : InitRequest)
    → m.network.tsig_secret ≡ req.network.tsig_secret
    → Own req m
    → Own req (keep_tsig dns m)
Own-keep_tsig (err e) req m same o = o
Own-keep_tsig (ok old) req m same o = record {
  token = o.token;
  password = o.password;
  tsig = λ e. kept_or-given _ m.network.tsig_secret (ap (λ t. t == "") same ∙ e) ∙ same;
  keys = o.keys;
}

pub Own-keep_keys :
    (old : Secret) (req m : InitRequest) → m.ssh ≡ req.ssh → Own req m → Own req (keep_keys old m)
Own-keep_keys old req m same o = record {
  token = o.token;
  password = o.password;
  tsig = o.tsig;
  keys = λ e. keep_keys-own old m (ap is_blank same ∙ e) ∙ same;
}
