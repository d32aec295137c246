-- ===== src/Deployments/Retrieve/Laws.antt =====
-- What a manual retrieval changes, and for which clusters.
use bandolier.Prelude.{String, Bool, true, false, ◌≡◌, refl}
use bandolier.Status.{ready, same_status}
use bandolier.Result.{Result, ok, err}
use bandolier.Store.Tables.{Cluster}
use bandolier.Store.Clusters.{get_cluster}
use bandolier.World.{Ctx, Env, World}
use bandolier.World.Exec.{Exec, ◌>>=◌}
use bandolier.World.Triples.{Spec, Spec-bind, Spec-raise}
use bandolier.World.Returns.{Never, SpecR, SpecR-of, SpecR-query, Returns}
use bandolier.Deployments.Stable.{Stable, vault_get-Spec, run_command-Spec}
use bandolier.Deployments.Steps.{check, fetch_kubeconfig, fetch_join_token}
use bandolier.Deployments.Steps.Specs.{
  check-Spec, wrapped-Spec, fetch_kubeconfig-Spec, fetch_join_token-Spec,
}
use bandolier.Deployments.Retrieve.{connect, retrieve, retrieve_kubeconfig, retrieve_join_token}
use bandolier.Deployments.Start.Granting.{Idle}
use bandolier.Deployments.Effects.{emit}

Idle-Stable : (dep : String) (w₀ : World) → Stable dep (Idle w₀)
unfolding emit
Idle-Stable dep w₀ = record {
  on_emit = λ e w early i. record { control = i.control; db = i.db };
  on_call = λ v w i. record { control = i.control; db = i.db };
}

-- The database and the control state stay; a retrieval that ran through was one of a cluster that
-- is `ready`.
abbrev pub Retrieved : String → World → Result (Unit {0}) → World → Type 0
Retrieved id w₀ (ok u) w =
    ((c : Cluster) × (get_cluster id w₀.db ≡ ok c) × (same_status c.status ready ≡ true))
    × Idle w₀ w
Retrieved id w₀ (err e) w = Idle w₀ w

returned :
    (id : String) (w₀ : World) (r : Result (Unit {0})) (w : World)
    → Returns
        (λ u v.
          ((x : Cluster) × (get_cluster id w₀.db ≡ ok x) × (same_status x.status ready ≡ true))
          × Idle w₀ v)
        (Idle w₀)
        r
        w
    → Retrieved id w₀ r w
returned id w₀ (ok u) w p = p
returned id w₀ (err e) w p = p

module _ (env : Env) (ctx : Ctx) (id : String) (w₀ : World) where
  connect-Spec :
      (fetch : String → Exec (Unit {0}))
      → ((ip : String) → Spec (Idle w₀) (Idle w₀) (Idle w₀) (fetch ip))
      → Spec (Idle w₀) (Idle w₀) (Idle w₀) (connect env ctx id fetch)
  connect-Spec fetch sf =
      let st = Idle-Stable "" w₀ in
      Spec-bind _ _ (wrapped-Spec st _ _ (vault_get-Spec st env ctx _)) (λ net.
        Spec-bind _ _ (check-Spec st _ _) (λ _.
          Spec-bind _ _ (wrapped-Spec st _ _ (vault_get-Spec st env ctx _)) (λ ssh.
            Spec-bind _ _ (check-Spec st _ _) (λ _.
              Spec-bind _ _ (wrapped-Spec st _ _ (run_command-Spec st env _)) (λ _.
                Spec-bind _ _ (wrapped-Spec st _ _ (run_command-Spec st env _)) (λ _. sf _))))))

  asked-SpecR :
      (c : Cluster) (b : Bool) (msg : String) (fetch : String → Exec (Unit {0}))
      → get_cluster id w₀.db ≡ ok c
      → same_status c.status ready ≡ b
      → ((ip : String) → Spec (Idle w₀) (Idle w₀) (Idle w₀) (fetch ip))
      → SpecR
          (Idle w₀)
          (λ u w.
            ((x : Cluster) × (get_cluster id w₀.db ≡ ok x) × (same_status x.status ready ≡ true))
            × Idle w₀ w)
          (Idle w₀)
          (check b msg >>= λ _. connect env ctx id fetch)
  asked-SpecR c true msg fetch found is_ready sf =
      SpecR-of _
        (Spec-bind _ _ (check-Spec (Idle-Stable "" w₀) true msg) (λ _. connect-Spec fetch sf))
        (λ u w i. ((c, found, is_ready), i))
  asked-SpecR c false msg fetch found is_ready sf =
      SpecR-of {Q = Never} _
        (Spec-bind {Q = Never} _ _ (Spec-raise (λ w i. i) _) (λ _. record { at = λ w n. absurd n }))
        (λ u w n. absurd n)

  retrieve-Retrieved :
      (fetch : String → Exec (Unit {0}))
      → ((ip : String) → Spec (Idle w₀) (Idle w₀) (Idle w₀) (fetch ip))
      → Retrieved id w₀ (retrieve env ctx id fetch w₀).0 (retrieve env ctx id fetch w₀).1
  unfolding retrieve
  retrieve-Retrieved fetch sf = returned id w₀ _ _ (
      (SpecR-query w₀.db env ctx (get_cluster id) _ (λ w i. i.db)
          (λ w i. record { control = i.control; db = i.db }) (λ w i. i)
          (λ c found. asked-SpecR c (same_status c.status ready) _ fetch found refl sf)).at
        w₀ (record { control = (refl, refl, refl, refl); db = refl }))

-- A retrieval of the kubeconfig changes neither the database, the locks nor the goroutines, and it
-- returns without an error only for a cluster that is there and `ready`.
pub retrieve_kubeconfig-Retrieved :
    (env : Env) (ctx : Ctx) (id : String) (w : World)
    → Retrieved id w (retrieve_kubeconfig env ctx id w).0 (retrieve_kubeconfig env ctx id w).1
unfolding retrieve_kubeconfig
retrieve_kubeconfig-Retrieved env ctx id w =
    retrieve-Retrieved env ctx id w (fetch_kubeconfig env ctx id)
      (fetch_kubeconfig-Spec (Idle-Stable "" w) env ctx id)

-- A retrieval of the join token changes neither the database, the locks nor the goroutines, and it
-- returns without an error only for a cluster that is there and `ready`.
pub retrieve_join_token-Retrieved :
    (env : Env) (ctx : Ctx) (id : String) (w : World)
    → Retrieved id w (retrieve_join_token env ctx id w).0 (retrieve_join_token env ctx id w).1
unfolding retrieve_join_token
retrieve_join_token-Retrieved env ctx id w =
    retrieve-Retrieved env ctx id w (λ ip. fetch_join_token env ctx id)
      (λ ip. fetch_join_token-Spec (Idle-Stable "" w) env ctx id)
