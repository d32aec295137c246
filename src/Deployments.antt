-- ===== src/Deployments.antt =====
-- api/internal/deployments: the executor that deploys, upgrades and destroys clusters.
pub mod Effects
pub mod Finish
pub mod Stable
pub mod Outcome
pub mod Steps
pub mod Start
pub mod Pipeline
pub mod Teardown
pub mod UpgradeRun
pub mod Recover
pub mod Retrieve
pub mod Lifecycle
pub mod CancelHandler
