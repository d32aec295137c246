-- ===== src/Deployments/Teardown/Forget.antt =====
-- ForgetCluster inside `runDestroy`: the goroutine's control state and its events.
use bandolier.Prelude.{ℕ, String, Bool, true, false, List, [], ◌∷◌, if◌then◌else◌}
use bandolier.Status.{Status}
use bandolier.Result.{Result, ok, err}
use bandolier.Store.Tables.{Cluster, Action, Outcome, Details}
use bandolier.World.{Ctx, Env, World}
use bandolier.World.Exec.{Exec}
use bandolier.World.Rules.{IsLoose, statement-Spec}
use bandolier.World.Triples.{
  Spec, Spec-bind, Spec-attempt, Spec-pure, Spec-catch, Spec-raise, Spec-ignore,
}
use bandolier.Clusters.Forget.{delete_paths, purge_vault_secrets, purge_paths, forget_cluster}
use bandolier.Deployments.Effects.{audit}
use bandolier.Deployments.Finish.{Task}
use bandolier.Deployments.Stable.{Stable, vault_delete-Spec, query-Spec}
use bandolier.Deployments.Teardown.{report_forget, forget_row, forget_latched, cascade_forget}
use bandolier.Deployments.Teardown.Specs.{print-Spec}

module _ {I : World → Type 0} (loose : IsLoose I) (env : Env) where
  pub audit-Spec :
      {E : World → Type 0} (ctx : Ctx) (actor : ℕ) (action : Action) (target : String) (o : Outcome)
      (d : Details)
      → Spec I I E (audit env ctx actor action target o d)
  unfolding audit
  audit-Spec ctx actor action target o d = Spec-ignore _ (statement-Spec loose env ctx _)

module _ {dep : String} {I : World → Type 0} (st : Stable dep I) (env : Env) where
  pub delete_paths-Spec :
      {E : World → Type 0} (ctx : Ctx) (ps : List String) → Spec I I E (delete_paths env ctx ps)
  unfolding delete_paths
  delete_paths-Spec ctx [] = Spec-pure (λ w i. i) []
  delete_paths-Spec ctx (p ∷ ps) =
      Spec-bind _ _ (Spec-attempt _ (vault_delete-Spec st env ctx p))
        (λ r. Spec-bind _ _ (delete_paths-Spec ctx ps) (λ errs. Spec-pure (λ w i. i) _))

module _ {dep : String} {I : World → Type 0} (st : Stable dep I) (loose : IsLoose I)
    (env : Env) where
  forget_cluster-Spec :
      (ctx : Ctx) (id name : String) (s : Status) (actor : ℕ)
      → Spec I I I (forget_cluster env ctx id name s actor)
  unfolding forget_cluster purge_vault_secrets
  forget_cluster-Spec ctx id name s actor =
      Spec-bind _ _ (delete_paths-Spec st env ctx (purge_paths id)) (λ errs.
        Spec-bind _ _
          (Spec-catch _ _ (statement-Spec loose env ctx _) (λ e.
            Spec-bind _ _ (audit-Spec loose env ctx actor _ id _ _) (λ _. Spec-raise (λ w i. i) e)))
          (λ _. audit-Spec loose env ctx actor _ id _ _))

module _ (t : Task) {I E : World → Type 0} (st : Stable t.dep_id I) (env : Env) where
  pub report_forget-Spec : (r : Result (Unit {0})) → Spec I I E (report_forget env t r)
  report_forget-Spec (ok _) = Spec-pure (λ w i. i) tt
  report_forget-Spec (err e) = print-Spec t st _

module _ (t : Task) {I E : World → Type 0} (st : Stable t.dep_id I) (loose : IsLoose I)
    (env : Env) where
  forget_row-Spec : (c : Cluster) → Spec I I E (forget_row env t c)
  forget_row-Spec c = Spec-bind _ _ (print-Spec t st _) (λ _.
      Spec-bind _ _ (Spec-attempt _ (forget_cluster-Spec st loose env t.ctx t.cluster_id _ _ _))
        (report_forget-Spec t st env))

  if-Spec :
      (b : Bool) (m : Exec (Unit {0}))
      → Spec I I E m
      → Spec I I E (if b then m else bandolier.World.Exec.pure tt)
  if-Spec true m sm = sm
  if-Spec false m sm = Spec-pure (λ w i. i) tt

  forget_latched-Spec : (r : Result Cluster) → Spec I I E (forget_latched env t r)
  forget_latched-Spec (err e) = Spec-pure (λ w i. i) tt
  forget_latched-Spec (ok c) = if-Spec c.pending_forget _ (forget_row-Spec c)

  pub cascade_forget-Spec : Spec I I E (cascade_forget env t)
  unfolding cascade_forget
  cascade_forget-Spec =
      Spec-bind _ _ (Spec-attempt _ (query-Spec st env t.ctx _)) forget_latched-Spec
