-- ===== src/Clusters/Delete/Removal.antt =====
-- What an answer of success says of the rows.
use bandolier.World.Rules.{any-Spec}
use bandolier.Prelude.{ℕ, String, Bool, ◌&&◌, Bool-cases, inl, inr}
use bandolier.Result.{
  of_apps, ok, err, Error, not_found, duplicate_name, invalid_transition, locked, in_progress,
  not_cancellable, ctx_cancelled, failure, refused,
}
use bandolier.Store.Tables.{Cluster, Action, Outcome, Details}
use bandolier.Response.{Response, no_content}
use bandolier.World.{Ctx, Env, World}
use bandolier.World.Exec.{pure}
use bandolier.World.Triples.{Spec, Spec-ignore}
use bandolier.Deployments.Effects.{audit}
use bandolier.World.Returns.{Never, SpecR, SpecR-bind, SpecR-pure, Returns}
use bandolier.World.Attempts.{SpecR-attempt}
use bandolier.Clusters.Forget.Laws.{Gone, forget_cluster-Spec}
use bandolier.Clusters.Delete.{
  direct_deletable, cascade_deletable, is_valid_cluster_id, delete_cluster_handler, delete_found,
  direct_delete, refuse_delete, cascade_delete, kickoff_answer,
}

-- What an answer promises: 204 that the rows of the cluster are gone.
abbrev pub Promised : String → Response → World → Type 0
Promised id no_content w = Gone id w.db
Promised id _ w = Unit

abbrev No : World → Type 0
No w = Unit

module _ (env : Env) (ctx : Ctx) (uid : ℕ) (id : String) where
  audit_any-Spec :
      (action : Action) (o : Outcome) (d : Details)
      → Spec No No Never (audit env ctx uid action id o d)
  unfolding audit
  audit_any-Spec action o d = Spec-ignore _ (any-Spec _)

  kickoff-SpecR : (e : Error) → SpecR No (Promised id) Never (pure (kickoff_answer e))
  kickoff-SpecR not_found = SpecR-pure _ (λ w p. tt)
  kickoff-SpecR duplicate_name = SpecR-pure _ (λ w p. tt)
  kickoff-SpecR invalid_transition = SpecR-pure _ (λ w p. tt)
  kickoff-SpecR locked = SpecR-pure _ (λ w p. tt)
  kickoff-SpecR in_progress = SpecR-pure _ (λ w p. tt)
  kickoff-SpecR not_cancellable = SpecR-pure _ (λ w p. tt)
  kickoff-SpecR (of_apps e) = SpecR-pure _ (λ w p. tt)
  kickoff-SpecR ctx_cancelled = SpecR-pure _ (λ w p. tt)
  kickoff-SpecR (failure s) = SpecR-pure _ (λ w p. tt)
  kickoff-SpecR (refused t) = SpecR-pure _ (λ w p. tt)

  cascade-SpecR : SpecR No (Promised id) Never (cascade_delete env ctx uid id)
  unfolding cascade_delete
  cascade-SpecR =
      SpecR-attempt No No _ _ (any-Spec _)
        (λ _.
          SpecR-attempt No No _ _ (any-Spec _)
            (λ dep. SpecR-bind {Q = No} _ _ (audit_any-Spec _ _ _) (λ _. SpecR-pure _ (λ w p. tt)))
            (λ e.
              SpecR-bind {Q = No} _ _ (Spec-ignore _ (any-Spec _))
                (λ _. SpecR-bind {Q = No} _ _ (audit_any-Spec _ _ _) (λ _. kickoff-SpecR e))))
        (λ e. SpecR-pure _ (λ w p. tt))

  refused-SpecR : (c : Cluster) → SpecR No (Promised id) Never (refuse_delete env ctx uid id c)
  unfolding refuse_delete
  refused-SpecR c = SpecR-bind {Q = No} _ _ (audit_any-Spec _ _ _) (λ _.
      elim (Bool-cases (cascade_deletable c.status)) [
        | inl e ↦ rw e (SpecR-pure _ (λ w p. tt))
        | inr e ↦ rw e (SpecR-pure _ (λ w p. tt))
      ])

  direct-SpecR : (c : Cluster) → SpecR No (Promised id) Never (direct_delete env ctx uid id c)
  unfolding direct_delete
  direct-SpecR c = elim (Bool-cases (direct_deletable c.status)) [
    | inl e ↦ rw e (
        SpecR-attempt (λ w. Gone id w.db) No _ _
          (forget_cluster-Spec env ctx id c.name c.status uid)
          (λ _. SpecR-pure no_content (λ w g. g)) (λ x. SpecR-pure _ (λ w p. tt)))
    | inr e ↦ rw e (refused-SpecR c)
  ]

  found-SpecR :
      (cascade : Bool) (c : Cluster)
      → SpecR No (Promised id) Never (delete_found env ctx uid id cascade (ok c))
  found-SpecR cascade c = elim (Bool-cases (cascade && cascade_deletable c.status)) [
    | inl e ↦ rw e cascade-SpecR
    | inr e ↦ rw e (direct-SpecR c)
  ]

  failed-SpecR :
      (cascade : Bool) (e : Error)
      → SpecR No (Promised id) Never (delete_found env ctx uid id cascade (err e))
  failed-SpecR cascade not_found =
      SpecR-bind {Q = No} _ _ (audit_any-Spec _ _ _) (λ _. SpecR-pure _ (λ w p. tt))
  failed-SpecR cascade duplicate_name = SpecR-pure _ (λ w p. tt)
  failed-SpecR cascade invalid_transition = SpecR-pure _ (λ w p. tt)
  failed-SpecR cascade locked = SpecR-pure _ (λ w p. tt)
  failed-SpecR cascade in_progress = SpecR-pure _ (λ w p. tt)
  failed-SpecR cascade not_cancellable = SpecR-pure _ (λ w p. tt)
  failed-SpecR cascade (of_apps e) = SpecR-pure _ (λ w p. tt)
  failed-SpecR cascade ctx_cancelled = SpecR-pure _ (λ w p. tt)
  failed-SpecR cascade (failure s) = SpecR-pure _ (λ w p. tt)
  failed-SpecR cascade (refused t) = SpecR-pure _ (λ w p. tt)

  handler-SpecR :
      (cascade : Bool)
      → SpecR No (Promised id) Never (delete_cluster_handler env ctx uid id cascade)
  unfolding delete_cluster_handler
  handler-SpecR cascade = elim (Bool-cases (is_valid_cluster_id id)) [
    | inl e ↦
        rw e (SpecR-attempt No No _ _ (any-Spec _) (found-SpecR cascade) (failed-SpecR cascade))
    | inr e ↦ rw e (SpecR-pure _ (λ w p. tt))
  ]

-- If a delete answers 204, then the cluster's row is gone, and every deployment of it with the row,
-- whatever Vault and the database answered on the way. The handler always answers.
pub delete-Promised :
    (env : Env) (ctx : Ctx) (uid : ℕ) (id : String) (cascade : Bool) (w : World)
    → Returns
        (Promised id)
        Never
        (delete_cluster_handler env ctx uid id cascade w).0
        (delete_cluster_handler env ctx uid id cascade w).1
delete-Promised env ctx uid id cascade w = (handler-SpecR env ctx uid id cascade).at w tt
