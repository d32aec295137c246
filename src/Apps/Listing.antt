-- ===== src/Apps/Listing.antt =====
-- The handlers of api/internal/apps/handlers.go that read, and `Aggregate` of catalog.go. The
-- searches of the repos run in the order of the repos here; in the program they run side by side,
-- and the sort that follows makes up for it but for entries of the same source and name. Their
-- contexts and the lines of the log are left out.
use bandolier.Prelude.{
  ℕ, ◌^◌, ◌*◌, String, List, [], ◌∷◌, ◌++◌, Option, none, some, ◌==◌, if◌then◌else◌,
}
use bandolier.Text.{◌<>◌, error_text}
use bandolier.Response.{
  Reply, sent, refused, server_error, bad_request, not_found_answer, unavailable,
}
use bandolier.Store.Tables.{Repo, Install}
use bandolier.Result.{of_apps, Result, ok, err, failure, repo_not_found}
use bandolier.World.{Ctx, Env, World, helm}
use bandolier.World.Exec.{Exec, pure, raise, attempt, ignore, modify, ◌>>=◌, ◌>>◌}
use bandolier.World.Calls.{query, read_output}
use bandolier.Deployments.Effects.{must}
use bandolier.Apps.Types.{CatalogEntry, Release}
use bandolier.Apps.Cache.{cache_get, cache_put}
use bandolier.Apps.Catalog.{filter_catalog, merge_curated}
use bandolier.Apps.Catalog.Curated.{curated}
use bandolier.Apps.Helm.{repo_add, helm_factory_for}
use bandolier.Apps.Parsing.{parse_releases, parse_charts, parse_bounded_int}
use bandolier.Apps.Store.{list_repos, list_installs_for_cluster, get_install}
use bandolier.Apps.StorageClasses.{releases_cache_ttl}

-- `catalogCacheTTL`, 60 seconds.
abbrev pub catalog_cache_ttl : ℕ
catalog_cache_ttl = 60 * 1_000_000_000

abbrev pub list_args : List String
list_args = "list" ∷ "-A" ∷ "-o" ∷ "json" ∷ []

abbrev pub search_args : String → List String
search_args name = "search" ∷ "repo" ∷ (name <> "/") ∷ "--versions" ∷ "-o" ∷ "json" ∷ []

module _ (env : Env) where
  abbrev pub wrapped : {A : Type 0} → String → Exec A → Exec A
  wrapped prefix m = must (λ msg. raise (failure msg)) prefix m

  abbrev pub decoded : {A B : Type 0} → String → (List A → List B) → Option (List A) → Exec (List B)
  decoded label parse none = raise (failure label)
  decoded label parse (some rows) = pure (parse rows)

  -- `HelmCLI.List`
  unfoldable pub helm_list : Exec (List Release)
  unfolding parse_releases
  helm_list = do
    out ← wrapped "helm list: " (read_output env (helm list_args))
    if out == ""
        then pure []
        else decoded "parse helm list" parse_releases (env.decode_releases out)

  -- `HelmCLI.SearchRepo`
  unfoldable pub search_repo : String → Exec (List CatalogEntry)
  unfolding parse_charts
  search_repo name = do
    out ← wrapped ("helm search " <> name <> ": ") (read_output env (helm (search_args name)))
    (if out == ""
        then pure []
        else decoded "parse helm search" (parse_charts name) (env.decode_charts out))

  unfoldable pub add_repos : List Repo → Exec (Unit {0})
  add_repos [] = pure tt
  add_repos (r ∷ rs) = do ignore (repo_add env r.name r.url); add_repos rs

  abbrev pub entries_or_none : Result (List CatalogEntry) → List CatalogEntry
  entries_or_none (ok es) = es
  entries_or_none (err e) = []

  -- A repo whose search fails is left out.
  unfoldable pub search_repos : List Repo → Exec (List CatalogEntry)
  unfolding search_repo
  search_repos [] = pure []
  search_repos (r ∷ rs) = do
    found ← attempt (search_repo r.name)
    rest ← search_repos rs
    pure (entries_or_none found ++ rest)

  unfoldable pub cached_catalog : String → Exec (Option (List CatalogEntry))
  unfolding cache_get
  cached_catalog id w =
      let (found, c) = cache_get catalog_cache_ttl (env.nanos w.clock) id w.apps.catalog in
      (ok found, record w { apps = record w.apps { catalog = c } })

  abbrev pub keep_catalog : String → List CatalogEntry → World → World
  keep_catalog id es w = record w {
    apps = record w.apps { catalog = cache_put (env.nanos w.clock) id es w.apps.catalog };
  }

  module _ (ctx : Ctx) (id : String) where
    abbrev pub or_aggregate : Option (List CatalogEntry) → Exec (List CatalogEntry)
    or_aggregate (some es) = pure es
    or_aggregate none = do
      repos ← query env ctx λ db. ok (list_repos id db)
      add_repos repos
      found ← search_repos repos
      modify (keep_catalog id (merge_curated found curated))
      pure (merge_curated found curated)

    -- `Catalog.Aggregate`
    unfoldable pub aggregate : Exec (List CatalogEntry)
    unfolding cached_catalog add_repos search_repos cache_put merge_curated list_repos
    aggregate = do cached ← cached_catalog id; or_aggregate cached

    module _ (search source : String) where
      abbrev pub filtered : ℕ → ℕ → Result (List CatalogEntry) → Reply (List CatalogEntry × ℕ)
      filtered limit offset (err e) = refused (server_error (error_text e))
      filtered limit offset (ok es) = sent (filter_catalog env.lower es search source limit offset)

      -- Without a kubeconfig the curated entries alone are filtered.
      abbrev pub catalog_on : ℕ → ℕ → Result String → Exec (Reply (List CatalogEntry × ℕ))
      catalog_on limit offset (err e) =
          pure (sent (filter_catalog env.lower curated search source limit offset))
      catalog_on limit offset (ok kubeconfig) = do
        all ← attempt aggregate
        pure (filtered limit offset all)

      abbrev pub with_offset : ℕ → Option ℕ → Exec (Reply (List CatalogEntry × ℕ))
      with_offset limit none = pure (refused (bad_request "offset must be 0 or positive"))
      with_offset limit (some offset) = do
        found ← attempt (helm_factory_for env ctx id)
        catalog_on limit offset found

      abbrev pub with_limit : Option ℕ → String → Exec (Reply (List CatalogEntry × ℕ))
      with_limit none offset = pure (refused (bad_request "limit must be 0-500"))
      with_limit (some limit) offset = with_offset limit (parse_bounded_int offset 0 (2 ^ 20))

      -- `Handler.Catalog`
      unfoldable pub catalog_handler : String → String → Exec (Reply (List CatalogEntry × ℕ))
      unfolding aggregate filter_catalog helm_factory_for parse_bounded_int
      catalog_handler limit offset = with_limit (parse_bounded_int limit 0 500) offset

  unfoldable pub cached_releases : String → Exec (Option (List Release))
  unfolding cache_get
  cached_releases id w =
      let (found, c) = cache_get releases_cache_ttl (env.nanos w.clock) id w.apps.releases in
      (ok found, record w { apps = record w.apps { releases = c } })

  abbrev pub keep_releases : String → List Release → World → World
  keep_releases id rs w = record w {
    apps = record w.apps { releases = cache_put (env.nanos w.clock) id rs w.apps.releases };
  }

  module _ (ctx : Ctx) (id : String) where
    abbrev pub listed : Result (List Release) → Exec (Reply (List Release))
    listed (err e) = pure (refused (server_error (error_text e)))
    listed (ok rs) = do modify (keep_releases id rs); pure (sent rs)

    abbrev pub releases_on : Result String → Exec (Reply (List Release))
    releases_on (err e) = pure (refused (unavailable "cluster helm unavailable"))
    releases_on (ok kubeconfig) = do r ← attempt helm_list; listed r

    abbrev pub or_releases : Option (List Release) → Exec (Reply (List Release))
    or_releases (some rs) = pure (sent rs)
    or_releases none = do found ← attempt (helm_factory_for env ctx id); releases_on found

    -- `Handler.Releases`
    unfoldable pub releases_handler : Exec (Reply (List Release))
    unfolding helm_list cached_releases cache_put helm_factory_for
    releases_handler = do cached ← cached_releases id; or_releases cached

    abbrev pub installs_answer : Result (List Install) → Reply (List Install)
    installs_answer (err e) = refused (server_error (error_text e))
    installs_answer (ok is) = sent is

    abbrev pub installs_with : Option ℕ → Exec (Reply (List Install))
    installs_with none = pure (refused (bad_request "limit must be 1-200"))
    installs_with (some limit) = do
      rows ← attempt (query env ctx λ db. ok (list_installs_for_cluster id limit db))
      pure (installs_answer rows)

    -- `Handler.Installs`
    unfoldable pub installs_handler : String → Exec (Reply (List Install))
    unfolding list_installs_for_cluster parse_bounded_int
    installs_handler limit =
        installs_with (if limit == "" then some 50 else parse_bounded_int limit 1 200)

    abbrev pub install_answer : Result Install → Reply Install
    install_answer (ok i) = sent i
    install_answer (err (of_apps repo_not_found)) = refused (not_found_answer "install not found")
    install_answer (err e) = refused (server_error (error_text e))

    -- `Handler.GetInstall`: here the id is that of the install.
    unfoldable pub get_install_handler : Exec (Reply Install)
    unfolding get_install
    get_install_handler = do
      row ← attempt (query env ctx (get_install id))
      pure (install_answer row)
