-- ===== src/Lib.antt =====
-- bandolier: a verification library for the Go api of this repository.
--
-- Bandolier deploys k3s clusters: an operator configures a cluster, and the api deploys, upgrades
-- and destroys it in goroutines that run Terraform, Ansible, SSH, DNS updates and Helm. The library
-- models the part that decides what happens: the state machine of a cluster, the rows in SQLite,
-- the lock of each cluster, the event hub, the requests, and the goroutines whole, with every early
-- return and every error that the source drops.
--
-- The parts, and the files that model them (paths are below api/internal):
--   Status          clusters/statemachine.go: Status, allowed, CanTransition
--   Store           store/clusters.go, deployments.go, audit.go, nullable.go, users.go, sessions.go
--                   and audit/log.go: each statement is a function from the tables to a result
--                   and the tables
--   Mutex           deployments/mutex.go: TryLock, Unlock
--   Hub             deployments/stream.go: Publish, Subscribe, the unsubscribe that it returns
--   World           the state that the parts share; actions on it (World/Exec), the calls that
--                   leave the process (World/Calls: SQL, Vault, commands), and rules to reason
--                   about actions (World/Triples, Rules, Returns, Attempts)
--   Text, Vault     the texts that the code builds; vault/paths.go
--   Validate        validate/validate.go: Hostname and its regular expression
--   Response        the answers of the handlers
--   Deployments     deployments/executor.go, upgrade.go, cancel.go, cancel_handler.go,
--                   kubeconfig.go, join_token.go:
--     Effects         register, deregister, Cancel, finishStatus, teeWriter, audit.Write
--     Start           Deploy, Destroy, Upgrade up to the `go` statement (Start/Launch)
--     Steps           FetchKubeconfig, FetchJoinToken, writeWildcardDNS, issueWildcardTLS,
--                     installTraefik, with clusters/cert.go and dns/factory.go
--     Pipeline        run; Teardown: runDestroy; UpgradeRun: runUpgrade
--     Finish          the closure `fail`, the records of a success, the deferred calls
--     Recover         RecoverOrphanedDeployments
--     Retrieve        RetrieveKubeconfig, RetrieveJoinToken
--     CancelHandler   POST /api/deployments/{id}/cancel
--     Lifecycle       a request and its goroutine together
--   Apps            apps: installs with Helm.
--     Types, Store    types.go, and store.go with the keys of its migration
--     Helm            helm.go and factory.go: the arguments of each call of the helm CLI
--     HelmTimeout     helm_timeout.go; Probe: probe.go; StorageClasses: storageclass.go
--     Executor        Install, Upgrade, Uninstall (executor.go) and InstallBundle (bundle.go) up to
--                     the `go` statement, the cancel map of the package
--     Run, Goroutines runInstallOrUpgrade, runUninstall and their closure `finish`
--     Bundle          runBundleInstall, rollbackInstalled, markRolledBack; its loop is Bundle/Loop
--     Runs            the goroutine of a request, whatever it is to do
--     Cache, Catalog  the caches with their expiry; the curated entries, FilterCatalog, mergeCurated
--     Parsing         what `helm list` and `helm search` print; Listing: the handlers that read
--     Requests, Repos the handlers that change something: handlers.go and repos.go
--   Auth            auth/handlers.go, middleware.go, password.go and session.go: Setup, Login, Logout,
--                   Status, ChangePassword, RequireSession; Auth/Token: ws_token.go, ws.go and
--                   ws_handler.go
--   Profiles        profiles/homelab/distros.go: Images, ResolveImage
--   Clusters        clusters/forget.go (Forget), handlers.go (Delete, Create),
--                   factory_repo_reconcile.go (Reconcile), initialize.go (Settings, Configure)
--   Tests           a small installation, and the theorems applied to it
--
-- How they interact. An action is a function from the state `World` to a value or an error and the
-- state after it (World/Exec); a handler or a goroutine is one action, and a dropped error
-- (`_ = f()`) is `ignore`. A request takes the lock, writes its row and adds a `Job`; the goroutine
-- of the job is `run`, `run_destroy` or `run_upgrade` on a `Task`, whose context may be cancelled
-- at any time. The theorems about a goroutine start from any state with the lock held, so they do
-- not depend on what ran between the request and the goroutine.
--
-- What is not in the repository is the record `Env`: which statements and Vault calls fail, how
-- each command ends and what it prints, ids and times. It is asked with the clock, which every call
-- outside advances, so two calls need not get the same answer. A theorem makes no assumption about
-- it but `IsQuiet` (no SQL statement fails) where it says so; `IsLive` says that a context is never
-- cancelled; `IsSteady` that the clock does not go backwards. The decoders of JSON,
-- `strings.ToLower`, SHA-256, bcrypt and the random ids are functions of `Env` too; HMAC and base64
-- come in the records `WsCodec` and `KeySource`; what a theorem expects of them is `Encodes` and
-- `Prints`. A context that is cancelled makes each later statement and Vault call on it fail, as
-- `database/sql` and the Vault client do, and leaves the database as it was.
--
-- The loops over paths, orphans, events and the charts of a bundle are structural, so no fuel is
-- used. Numbers are natural numbers, with the range of an int64 written out where a text is read as
-- one (a duration, the revision of a release); the other bounds are the hub's cap of 5000 events and
-- the limits of lists and bundles.
--
-- Not modelled: the log file, the text of the manifests and of the values files, and what the
-- libraries' error texts say; the removal of temporary files; the other handlers,
-- telemetry, certificate renewal and the rest of the profiles. The actions of two goroutines are
-- not interleaved: the searches of the repos of a catalog run one after another.
pub mod Prelude
pub mod Status
pub mod Result
pub mod Response
pub mod Store
pub mod Mutex
pub mod Hub
pub mod World
pub mod Text
pub mod Vault
pub mod Validate
pub mod Profiles
pub mod Apps
pub mod Auth
pub mod Clusters
pub mod Deployments
pub mod Tests
