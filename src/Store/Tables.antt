-- ===== src/Store/Tables.antt =====
-- The rows of the tables: store/clusters.go, deployments.go, users.go, audit.go, and the rows of
-- apps_repos and apps_installs (api/internal/apps/types.go) that go with a cluster.
use bandolier.Prelude.{ℕ, ℤ, String, Bool, List, Option}
use bandolier.Status.{Status}

-- `updated_at` and `created_at` are times; `pending_forget` is the cascade-delete latch.
pub record Cluster : Type 0 where
  pub id : String
  pub name : String
  pub profile : String
  pub status : Status
  pub created_at : ℕ
  pub updated_at : ℕ
  pub pending_forget : Bool

pub data Operation : Type 0 where
  deploy_op destroy_op upgrade_op : Operation

pub data DeploymentStatus : Type 0 where
  running succeeded failed cancelled : DeploymentStatus

pub record Deployment : Type 0 where
  pub id : String
  pub cluster_id : String
  pub operation : Operation
  pub status : DeploymentStatus
  pub started_at : Option ℕ
  pub finished_at : Option ℕ
  pub error_message : Option String
  pub log_path : Option String
  pub actor_id : Option ℕ

pub record User : Type 0 where
  pub id : ℕ
  pub password_hash : String

-- `expires_at` in nanoseconds.
pub record Session : Type 0 where
  pub id : String
  pub user_id : ℕ
  pub expires_at : ℕ

-- audit/actions.go: an action is one of its constants.
pub data Action : Type 0 where
  auth_setup auth_login auth_logout change_password : Action
  cluster_create cluster_initialize cluster_deploy cluster_destroy cluster_delete : Action
  cluster_upgrade cluster_kubeconfig_download cluster_join_token_retrieve : Action
  app_repo_add app_repo_remove app_install app_upgrade app_uninstall app_bundle_install : Action
  cluster_dns_write cluster_cert_issue cluster_cert_renew vault_token_renew : Action

pub data Outcome : Type 0 where
  success failure started succeeded failed cancelled : Outcome

-- apps/bundle.go: what became of one chart of a bundle.
pub data ChartResult : Type 0 where
  succeeded failed skipped rolled_back not_attempted : ChartResult

pub record ChartOutcome : Type 0 where
  pub chart : String
  pub version : String
  pub release : String
  pub outcome : ChartResult

-- A value of the JSON object in `details`.
pub data Detail : Type 0 where
  text : String → Detail
  flag : Bool → Detail
  number : ℕ → Detail
  integer : ℤ → Detail
  texts : List String → Detail
  charts : List ChartOutcome → Detail

abbrev pub Details : Type 0
Details = List (String × Detail)

-- A row of audit_log; `none` is NULL.
pub record AuditRow : Type 0 where
  pub actor_id : Option ℕ
  pub action : Action
  pub target : Option String
  pub outcome : Outcome
  pub ts : ℕ
  pub details : Option Details

pub record Repo : Type 0 where
  pub id : ℕ
  pub cluster_id : String
  pub name : String
  pub url : String
  pub added_at : ℕ
  pub added_by : Option ℕ

pub data InstallOperation : Type 0 where
  install upgrade uninstall : InstallOperation

pub record Install : Type 0 where
  pub id : String
  pub cluster_id : String
  pub chart : String
  pub version : String
  pub release_name : String
  pub namespace : String
  pub hostname : Option String
  pub operation : InstallOperation
  pub status : DeploymentStatus
  pub atomic : Bool
  pub values_hash : Option String
  pub started_at : ℕ
  pub finished_at : Option ℕ
  pub error_message : Option String
  pub actor_id : Option ℕ
  pub hostname_unclaimed : Bool

pub record Db : Type 0 where
  pub users : List User
  pub sessions : List Session
  pub clusters : List Cluster
  pub deployments : List Deployment
  pub audit_log : List AuditRow
  pub repos : List Repo
  -- the last id that AUTOINCREMENT gave out in apps_repos
  pub last_repo_id : ℕ
  pub installs : List Install
