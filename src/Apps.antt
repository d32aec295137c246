-- ===== src/Apps.antt =====
-- api/internal/apps: repositories, the catalog, and installs, upgrades and uninstalls with Helm.
pub mod Types
pub mod Store
pub mod HelmTimeout
pub mod Helm
pub mod Probe
pub mod Catalog
pub mod Executor
pub mod Run
pub mod Goroutines
pub mod Bundle
pub mod Outcome
pub mod Runs
pub mod Cache
pub mod StorageClasses
pub mod Requests
pub mod Repos
pub mod Parsing
pub mod Listing
