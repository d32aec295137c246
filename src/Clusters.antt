-- ===== src/Clusters.antt =====
-- api/internal/clusters: what an operator may do to a cluster outside its deployments.
pub mod Forget
pub mod Delete
pub mod Create
pub mod Reconcile
pub mod Settings
pub mod Configure
