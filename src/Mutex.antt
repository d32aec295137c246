-- ===== src/Mutex.antt =====
-- api/internal/deployments/mutex.go: one lock for each cluster, made at its first use.
pub mod Laws
use bandolier.Prelude.{String, Bool, true, false, List, [], Option, none, some, lookup, insert}

-- For each id, whether its `sync.Mutex` is held.
pub record ClusterMutex : Type 0 where
  pub per : List (String × Bool)

unfoldable pub new_cluster_mutex : ClusterMutex
new_cluster_mutex = record { per = [] }

unfoldable pub try_lock : String → ClusterMutex → Bool × ClusterMutex
try_lock id m = elim (lookup id m.per) [
  | none ↦ (true, record { per = insert id true m.per })
  | some false ↦ (true, record { per = insert id true m.per })
  | some true ↦ (false, m)
]

-- `none` is Go's fatal error, unlock of an unlocked mutex. An id that has no mutex is left alone.
unfoldable pub unlock : String → ClusterMutex → Option ClusterMutex
unlock id m = elim (lookup id m.per) [
  | none ↦ some m
  | some false ↦ none
  | some true ↦ some (record { per = insert id false m.per })
]
