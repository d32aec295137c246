-- ===== src/Tests.antt =====
-- A small installation, and runs of the model on it.
pub mod Rows
pub mod Hostnames
pub mod Runs
pub mod Deploys
pub mod Clusters
pub mod Requests
pub mod Installs
pub mod Accounts
use bandolier.Prelude.{
  ℕ, ◌*◌, String, List, [], ◌∷◌, Option, none, some, true, false, ◌==◌, if◌then◌else◌,
}
use bandolier.Status.{Status}
use bandolier.Store.Tables.{
  Db, Cluster, Deployment, DeploymentStatus, Operation, deploy_op, destroy_op, upgrade_op, User,
}
use bandolier.Mutex.{ClusterMutex}
use bandolier.Hub.{Hub}
use bandolier.World.{matched, mismatched}
use bandolier.World.{Env, World, Ctx, Command, Value, Secret, tf_output, tf_apply, tf_destroy}
use bandolier.Vault.{network_path, ssh_path, tls_path}
use bandolier.Deployments.Finish.{Task}

abbrev pub home : String
home = "0123456789abcdef0123456789abcdef"

abbrev pub dep : String
dep = "d1"

abbrev pub certificate : Secret
certificate =
    ("certificate", Value.text "leaf")
    ∷ ("private_key", Value.text "key")
    ∷ ("ca_chain", Value.texts ("ca" ∷ []))
    ∷ ("expiration", Value.json_number 99)
    ∷ []

-- Every step succeeds, and no statement fails.
abbrev pub calm : Env
calm = record {
  sql_fails = λ n. false;
  vault_fails = λ n. false;
  outcome = λ c n. none;
  output = λ c n. "10.0.0.9";
  printed = λ c n. [];
  ssh_keys = λ n. ("public", "private");
  issue = λ name role n. some certificate;
  format_time = λ n. "2026";
  random_id = λ n. "d1";
  is_registered = λ p. true;
  is_enabled = λ p. true;
  traefik_version = "30.0.0";
  log_root = "/logs";
  helm_timeout = "";
  sha256 = λ s. s;
  decode_ingresses = λ s. none;
  decode_storage_classes = λ s. none;
  decode_releases = λ s. none;
  decode_charts = λ s. none;
  lower = λ s. s;
  nanos = λ n. n * 1_000_000_000;
  crypto = record {
    compare_hash = λ h p. if h == p then matched else mismatched;
    hash_password = λ p n. some p;
    session_id = λ n. some "s1";
  };
}

abbrev fails_apply : Command → ℕ → Option String
fails_apply tf_apply n = some "quota"
fails_apply tf_destroy n = some "api down"
fails_apply _ n = none

-- Terraform cannot apply or destroy.
abbrev pub stormy : Env
stormy = record calm { outcome = fails_apply }

abbrev pub live : Ctx
live = record { cancel_at = none }

abbrev pub cluster : Status → Cluster
cluster s = record {
  id = home;
  name = "home";
  profile = "homelab";
  status = s;
  created_at = 0;
  updated_at = 0;
  pending_forget = false;
}

abbrev pub row : Operation → Deployment
row o = record {
  id = "d1";
  cluster_id = home;
  operation = o;
  status = DeploymentStatus.running;
  started_at = some 1;
  finished_at = none;
  error_message = none;
  log_path = none;
  actor_id = some 1;
}

abbrev pub admin : User
admin = record { id = 1; password_hash = "" }

abbrev pub db_of : Cluster → List Deployment → Db
db_of c ds = record {
  users = admin ∷ [];
  sessions = [];
  clusters = c ∷ [];
  deployments = ds;
  audit_log = [];
  repos = [];
  last_repo_id = 0;
  installs = [];
}

abbrev pub secrets : List (String × Secret)
secrets =
    (
      network_path home,
      ("fqdn", Value.text "lab.example") ∷ ("master_ip", Value.text "10.0.0.9") ∷ [],
    )
    ∷ (ssh_path home, ("private_key", Value.text "pem") ∷ [])
    ∷ (tls_path home, ("pki_role", Value.text "lab") ∷ [])
    ∷ []

-- An api that is idle, and one in which an operation of the cluster is under way.
abbrev pub idle : Db → World
idle db = record {
  clock = 1;
  db = db;
  vault = secrets;
  mutex = record { per = [] };
  crashed = false;
  hub = record { subs = []; history = []; next_channel = 0 };
  cancel_map = [];
  jobs = [];
  apps = record { cancels = []; jobs = []; catalog = []; releases = []; storage_classes = [] };
}

abbrev pub under_way : Db → World
under_way db = record (idle db) {
  mutex = record { per = (home, true) ∷ [] };
  cancel_map = (dep, none) ∷ [];
}

abbrev pub task : Ctx → Task
task c = record { ctx = c; dep_id = "d1"; cluster_id = home; actor = 1 }
