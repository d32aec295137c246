-- ===== src/Apps/StorageClasses.antt =====
-- api/internal/apps/storageclass.go and validate.go: the names that may go into a helm argument,
-- and the list of a cluster's storage classes.
use Prim.Native.String.{count}
use bandolier.Prelude.{
  ℕ, ◌*◌, String, Bool, ◌&&◌, ◌||◌, List, [], Option, none, some, ◌==◌, leb, eqb, if◌then◌else◌,
}
use bandolier.Text.{error_text}
use bandolier.Validate.{
  Regex, blank, class, then_, either, repeat, matches, code_points, hostname, is_alnum,
}
use bandolier.Response.{Reply, sent, refused, server_error}
use bandolier.Result.{Result, ok, err, failure}
use bandolier.World.{Ctx, Env, World, kubectl_get_storageclass}
use bandolier.World.Exec.{Exec, pure, raise, attempt, modify, ◌>>=◌, ◌>>◌}
use bandolier.World.Calls.{read_output}
use bandolier.Deployments.Effects.{must}
use bandolier.Apps.Types.{StorageClass}
use bandolier.Apps.Cache.{cache_get, cache_put}
use bandolier.Apps.Helm.{helm_factory_for}

-- `[-a-z0-9.]`
abbrev pub is_name_char : ℕ → Bool
is_name_char c = is_alnum c || (eqb c 45 || eqb c 46)

-- `^[a-z0-9]([-a-z0-9.]*[a-z0-9])?$`
abbrev pub storage_class_name_re : Regex
storage_class_name_re =
    then_ (class is_alnum) (either (then_ (repeat (class is_name_char)) (class is_alnum)) blank)

unfoldable pub valid_storage_class_name : String → Bool
unfolding matches
valid_storage_class_name s = leb (count s) 253 && matches storage_class_name_re (code_points s)

unfoldable pub valid_hostname : String → Bool
unfolding hostname
valid_hostname s = hostname s

-- `releasesCacheTTL`, 30 seconds.
abbrev pub releases_cache_ttl : ℕ
releases_cache_ttl = 30 * 1_000_000_000

module _ (env : Env) where
  abbrev pub parsed : Option (List StorageClass) → Exec (List StorageClass)
  parsed none = raise (failure "parse storageclass list")
  parsed (some cs) = pure cs

  -- `parseStorageClassJSON`; the decoder gives the items.
  unfoldable pub parse_storage_class_json : String → Exec (List StorageClass)
  parse_storage_class_json out =
      if out == "" then pure [] else parsed (env.decode_storage_classes out)

  unfoldable pub list_storage_classes : String → Exec (List StorageClass)
  unfolding parse_storage_class_json
  list_storage_classes kubeconfig =
      if kubeconfig == "" then raise (failure "listStorageClasses: empty kubeconfig path") else (do
        out ←
            must (λ msg. raise (failure msg)) "kubectl get storageclass: "
              (read_output env kubectl_get_storageclass)
        parse_storage_class_json out)

  unfoldable pub cached_classes : String → Exec (Option (List StorageClass))
  unfolding cache_get
  cached_classes id w =
      let (found, c) = cache_get releases_cache_ttl (env.nanos w.clock) id w.apps.storage_classes in
      (ok found, record w { apps = record w.apps { storage_classes = c } })

  abbrev pub keep_classes : String → List StorageClass → World → World
  keep_classes id cs w = record w {
    apps = record w.apps {
      storage_classes = cache_put (env.nanos w.clock) id cs w.apps.storage_classes;
    };
  }

  abbrev pub listed : String → Result (List StorageClass) → Exec (Reply (List StorageClass))
  listed id (err e) = pure (refused (server_error (error_text e)))
  listed id (ok cs) = do modify (keep_classes id cs); pure (sent cs)

  -- A cluster that is not ready has no classes.
  abbrev pub on_cluster : String → Result String → Exec (Reply (List StorageClass))
  on_cluster id (err e) = pure (sent [])
  on_cluster id (ok kubeconfig) = do cs ← attempt (list_storage_classes kubeconfig); listed id cs

  abbrev pub or_list : Ctx → String → Option (List StorageClass) → Exec (Reply (List StorageClass))
  or_list ctx id (some cs) = pure (sent cs)
  or_list ctx id none = do found ← attempt (helm_factory_for env ctx id); on_cluster id found

  -- `Handler.StorageClasses`
  unfoldable pub storage_classes_handler : Ctx → String → Exec (Reply (List StorageClass))
  unfolding cached_classes list_storage_classes helm_factory_for cache_put
  storage_classes_handler ctx id = do cached ← cached_classes id; or_list ctx id cached
