-- ===== src/World.antt =====
-- The state that the parts of the api share, and the actions on it. A goroutine's or a handler's
-- code is an action: it returns a value or an error, and the state in either case.
-- What stands outside the repository is the record `Env`: which SQL statements and Vault calls
-- fail, how each external command ends, random ids, and the registered profiles. It is asked with
-- the time, so no two calls need get the same answer. Time passes with each call that leaves the
-- process.
pub mod Exec
pub mod Calls
pub mod Triples
pub mod Rules
pub mod Returns
pub mod Attempts
use bandolier.Prelude.{ℕ, ℤ, String, Bool, List, Option}
use bandolier.Store.Tables.{Db, Operation}
use bandolier.Mutex.{ClusterMutex}
use bandolier.Hub.{Hub}
use bandolier.Apps.Types.{
  ProbeItem, RawRelease, RawChart, CatalogEntry, Release, StorageClass, AppJob,
}

-- A `context.Context`: the time of its cancellation, if it is ever cancelled.
pub record Ctx : Type 0 where
  pub cancel_at : Option ℕ

-- The external commands and library calls that an operation of a cluster makes.
pub data Command : Type 0 where
  create_log make_run_dir create_values write_values : Command
  tf_setup copy_module write_tfvars tf_init tf_apply tf_destroy tf_output : Command
  wait_for_ssh write_key : Command
  build_tfvars build_inventory build_extra_vars build_upgrade_vars : Command
  pre_destroy post_destroy : Command
  ansible_prepare ansible_run : Command
  ssh_kubeconfig ssh_join_token : Command
  -- nsupdate for the name and the address
  dns_upsert : String → String → Command
  helm_for kubectl_apply helm_repo_add helm_repo_update : Command
  -- `helm install` of Traefik at that version, with that ingress hostname (empty for none)
  helm_install : String → String → Command
  -- the helm CLI with these arguments, on the kubeconfig that `For` has written
  helm : List String → Command
  make_temp_dir : Command
  -- a file of that name with that content
  write_file : String → String → Command
  -- `kubectl get ingress,ingressroutes` and `kubectl get storageclass`, as JSON
  kubectl_get_ingresses : String → Command
  kubectl_get_storageclass : Command
  ssh_keygen : Command
  -- nsupdate's `show` for the server and the zone
  dns_show : String → String → Command

-- A line that a command prints to the log, or an event of the playbook.
pub data Line : Type 0 where
  stdout : String → Line
  playbook_event : Line

-- A value of a Vault secret.
pub data Value : Type 0 where
  text : String → Value
  flag : Bool → Value
  number : ℕ → Value
  -- a `json.Number`, which is none of Go's number types
  json_number : ℕ → Value
  integer : ℤ → Value
  texts : List String → Value

-- How `bcrypt.CompareHashAndPassword` ends.
pub data Comparison : Type 0 where
  matched mismatched broken : Comparison

-- What api/internal/auth asks of bcrypt and of the source of randomness.
pub record Crypto : Type 0 where
  -- the hash and the password
  pub compare_hash : String → String → Comparison
  -- `bcrypt.GenerateFromPassword`, with a salt that depends on the time
  pub hash_password : String → ℕ → Option String
  -- `newSessionID`
  pub session_id : ℕ → Option String

pub record Env : Type 0 where
  pub sql_fails : ℕ → Bool
  pub vault_fails : ℕ → Bool
  -- the error text of the command at that time, or `none`
  pub outcome : Command → ℕ → Option String
  -- what the command prints or returns, where the program reads it
  pub output : Command → ℕ → String
  -- what the command prints while it runs
  pub printed : Command → ℕ → List Line
  -- the key pair, public key first, that `generateSSHKey` makes
  pub ssh_keys : ℕ → String × String
  -- the data that Vault PKI returns for the common name and the role, if any
  pub issue : String → String → ℕ → Option (List (String × Value))
  -- `Format(time.RFC3339)` of a time
  pub format_time : ℕ → String
  pub random_id : ℕ → String
  pub is_registered : String → Bool
  -- `Enabled()` of a registered profile
  pub is_enabled : String → Bool
  -- BANDOLIER_TRAEFIK_CHART_VERSION, after `traefikChartVersion`
  pub traefik_version : String
  -- `Executor.LogRoot`
  pub log_root : String
  -- BANDOLIER_HELM_INSTALL_TIMEOUT, empty if it is not set
  pub helm_timeout : String
  -- the hex digits of `sha256.Sum256`
  pub sha256 : String → String
  -- `json.Unmarshal` of the answers of kubectl
  pub decode_ingresses : String → Option (List ProbeItem)
  pub decode_storage_classes : String → Option (List StorageClass)
  pub decode_releases : String → Option (List RawRelease)
  pub decode_charts : String → Option (List RawChart)
  -- `strings.ToLower`
  pub lower : String → String
  -- `time.Now()` in nanoseconds
  pub nanos : ℕ → ℕ
  pub crypto : Crypto

abbrev pub Secret : Type 0
Secret = List (String × Value)

-- A goroutine that was spawned and has not ended.
pub record Job : Type 0 where
  pub dep_id : String
  pub cluster_id : String
  pub operation : Operation
  pub profile : String
  pub k3s_version : String
  pub actor : ℕ

-- What a cache of the package apps keeps for a cluster: the time of the entry, and its rows.
pub record CacheEntry (A : Type 0) : Type 0 where
  pub stored_at : ℕ
  pub rows : List A

abbrev pub Cached : Type 0 → Type 0
Cached A = List (String × CacheEntry A)

-- The state of the package apps: the `cancelMap` of its executor, its goroutines, its caches.
pub record Apps : Type 0 where
  pub cancels : List (String × Option ℕ)
  pub jobs : List AppJob
  pub catalog : Cached CatalogEntry
  pub releases : Cached Release
  pub storage_classes : Cached StorageClass

pub record World : Type 0 where
  pub clock : ℕ
  pub db : Db
  pub vault : List (String × Secret)
  pub mutex : ClusterMutex
  -- Go's fatal error on the unlock of an unlocked mutex
  pub crashed : Bool
  pub hub : Hub
  -- `cancelMap`: for each id that can be cancelled, whether its cancel func was called, and when
  pub cancel_map : List (String × Option ℕ)
  pub jobs : List Job
  pub apps : Apps
