-- ===== src/Mutex/Laws.antt =====
-- deployments/mutex.go against its abstract view, a set of locked ids.
use bandolier.Prelude.{
  String, Bool, true, false, not, ◌≡◌, refl, ◌&&◌, ◌||◌, ◌==◌, eq_iff, Option, none, some, arith,
  lookup, lookup-insert,
}
use bandolier.Mutex.{ClusterMutex, new_cluster_mutex, try_lock, unlock}

abbrev held : Option Bool → Bool
held none = false
held (some b) = b

-- The abstract view: whether the id is locked.
unfoldable pub is_locked : String → ClusterMutex → Bool
is_locked id m = held (lookup id m.per)

pub is_locked-new : (id : String) → is_locked id new_cluster_mutex ≡ false
unfolding is_locked new_cluster_mutex lookup
is_locked-new id = refl

-- A try succeeds exactly on an id that is not locked, and then locks that id and no other.
pub try_lock_lem :
    (id j : String) (m : ClusterMutex)
    → ((try_lock id m).0 ≡ not (is_locked id m))
      × (is_locked j (try_lock id m).1 ≡ (id == j || is_locked j m))
unfolding is_locked try_lock
try_lock_lem id j m = (ground arith, ground (arith, eq_iff id j, lookup-insert id j true m.per))

-- An unlock of a locked id succeeds, and unlocks that id and no other.
pub unlock_lem :
    (id : String) (m : ClusterMutex)
    → is_locked id m ≡ true
    → (m' : ClusterMutex) × (unlock id m ≡ some m')
      × ((j : String) → is_locked j m' ≡ (not (id == j) && is_locked j m))
unfolding is_locked unlock
unlock_lem id m h = (
  record { per = bandolier.Prelude.insert id false m.per },
  ground arith,
  λ j. ground (arith, eq_iff id j, lookup-insert id j false m.per),
)
