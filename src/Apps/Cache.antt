-- ===== src/Apps/Cache.antt =====
-- `catalogCache` of api/internal/apps/catalog.go, `releaseCache` of handlers.go and
-- `storageClassCache` of storageclass.go, which differ in their rows only: an entry for each
-- cluster, with the time that it was made. Times are nanoseconds; each call holds the cache's
-- mutex, so it is one step.
use bandolier.Prelude.{
  ℕ, ◌-◌, String, ◌≡◌, List, Option, none, some, ◌==◌, ltb, if◌then◌else◌, lookup, insert, erase,
  lookup-insert, lookup-erase, arith, eq_refl,
}
use bandolier.World.{Cached, CacheEntry}

module _ {A : Type 0} where
  abbrev fresh_rows : ℕ → ℕ → Option (CacheEntry A) → Option (List A)
  fresh_rows ttl now none = none
  fresh_rows ttl now (some e) = if ltb ttl (now - e.stored_at) then none else some e.rows

  abbrev kept : ℕ → ℕ → String → Cached A → Option (CacheEntry A) → Cached A
  kept ttl now key c none = c
  kept ttl now key c (some e) = if ltb ttl (now - e.stored_at) then erase key c else c

  -- The rows, and the cache without the entry if it was too old.
  unfoldable pub cache_get : ℕ → ℕ → String → Cached A → Option (List A) × Cached A
  cache_get ttl now key c = (fresh_rows ttl now (lookup key c), kept ttl now key c (lookup key c))

  unfoldable pub cache_put : ℕ → String → List A → Cached A → Cached A
  cache_put now key rows c = insert key (record { stored_at = now; rows = rows }) c

  unfoldable pub cache_invalidate : String → Cached A → Cached A
  cache_invalidate key c = erase key c

  -- What was put is found as it was until its time is over, and not afterwards; other clusters'
  -- entries are found as before.
  pub cache_get-cache_put :
      (ttl made now : ℕ) (key asked : String) (rows : List A) (c : Cached A)
      → (cache_get ttl now asked (cache_put made key rows c)).0 ≡ (
          if key == asked
          then (if ltb ttl (now - made) then none else some rows)
          else (cache_get ttl now asked c).0)
  unfolding cache_get cache_put
  cache_get-cache_put ttl made now key asked rows c =
      ground (arith, lookup-insert key asked (record { stored_at = made; rows = rows }) c)

  -- After an invalidation nothing is found for the cluster.
  pub cache_get-cache_invalidate :
      (ttl now : ℕ) (key : String) (c : Cached A)
      → (cache_get ttl now key (cache_invalidate key c)).0 ≡ none
  unfolding cache_get cache_invalidate
  cache_get-cache_invalidate ttl now key c = ground (arith, lookup-erase key key c, eq_refl key)
