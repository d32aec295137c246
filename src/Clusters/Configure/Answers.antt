-- ===== src/Clusters/Configure/Answers.antt =====
-- `Initializer.Handle` puts nothing into Vault that has not passed its checks.
use bandolier.Prelude.{ℕ, String, Bool, true, ◌≡◌, List, Option, none, some}
use bandolier.Status.{initializing, can_transition}
use bandolier.Store.Tables.{Cluster}
use bandolier.Store.Clusters.{get_cluster}
use bandolier.Store.Deployments.{take}
use bandolier.Result.{Result, ok}
use bandolier.Response.{Response}
use bandolier.World.{Ctx, Env, World, Secret}
use bandolier.World.Returns.{Returns}
use bandolier.Clusters.Settings.{InitRequest, settled}
use bandolier.Clusters.Configure.Checks.{is_sound}
use bandolier.Clusters.Configure.Vaulted.{Held}
use bandolier.Clusters.Configure.Stored.{writes, put_all, public_part, is_given, Own, Configured}

module _ (env : Env) (ctx : Ctx) (uid : ℕ) (id : String) (body : Option InitRequest)
    (w₀ : World) where
  abbrev P : World → Type 0
  P = Held w₀.vault

  abbrev R : Response → World → Type 0
  R = Configured id body w₀

  module _ (c : Cluster) (found : get_cluster id w₀.db ≡ ok c)
      (movable : can_transition c.status initializing ≡ none) (req : InitRequest)
      (body_eq : body ≡ some req) where
    module _ (s : InitRequest) (byo : Bool) (asked : public_part s ≡ public_part (settled req))
        (sound : is_sound s ≡ true) (keys : byo ≡ true → is_given s.ssh ≡ true)
        (own : Own req s) where
      abbrev after : ℕ → List (String × Secret)
      after n = put_all (take n (writes id byo s)) w₀.vault

  record Start (w : World) : Type 0 where
    vault : w.vault ≡ w₀.vault
    db : w.db ≡ w₀.db
