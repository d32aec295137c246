-- ===== src/Clusters/Delete/Laws.antt =====
-- Which clusters the handler deletes.
use bandolier.Prelude.{
  ℕ, suc, String, Bool, true, false, ◌≡◌, refl, ◌&&◌, arith, Bool-cases, inl, inr,
}
use bandolier.Status.{Status}
use bandolier.Result.{
  of_apps, ok, err, Error, not_found, duplicate_name, invalid_transition, locked, in_progress,
  not_cancellable, ctx_cancelled, failure, refused,
}
use bandolier.Store.Tables.{Cluster, Details, Outcome, Action}
use bandolier.Store.Clusters.{get_cluster}
use bandolier.Store.Audits.{Entry, insert_audit_entry}
use bandolier.Response.{Response, no_content, accepted}
use bandolier.World.{Ctx, Env, World}
use bandolier.World.Exec.{pure, ◌>>=◌}
use bandolier.World.Calls.{tick}
use bandolier.World.Triples.{Spec, Spec-ignore}
use bandolier.World.Rules.{Ends-always}
use bandolier.World.Returns.{Never, SpecR, SpecR-bind, SpecR-pure, Returns, statement_ok-Spec}
use bandolier.World.Attempts.{SpecR-attempt-query}
use bandolier.Clusters.Delete.{
  deletable, direct_deletable, cascade_deletable, is_valid_cluster_id, delete_cluster_handler,
  delete_found, direct_delete, refuse_delete,
}
use bandolier.Deployments.Effects.{audit}
use bandolier.Deployments.Outcome.{SameControl}

abbrev pub is_refusal : Response → Bool
is_refusal no_content = false
is_refusal (accepted dep) = false
is_refusal _ = true

-- The clusters, their deployments and secrets, the locks and the goroutines are as they were.
pub record Kept (w₀ w : World) : Type 0 where
  pub clusters : w.db.clusters ≡ w₀.db.clusters
  pub deployments : w.db.deployments ≡ w₀.db.deployments
  pub vault : w.vault ≡ w₀.vault
  pub control : SameControl w₀ w

abbrev pub Declined : World → Response → World → Type 0
Declined w₀ r w = (is_refusal r ≡ true) × Kept w₀ w

record Still (w₀ w : World) : Type 0 where
  kept : Kept w₀ w
  db : w.db ≡ w₀.db

audit-Kept :
    (now : ℕ) (e : Entry) (w₀ w : World)
    → Kept w₀ w
    → Kept w₀ (record w { clock = suc w.clock; db = (insert_audit_entry now e w.db).1 })
unfolding insert_audit_entry
audit-Kept now e w₀ w k = record {
  clusters = ground (arith, k.clusters);
  deployments = ground (arith, k.deployments);
  vault = k.vault;
  control = k.control;
}

later-Kept : (w₀ w : World) → Kept w₀ w → Kept w₀ (tick w)
later-Kept w₀ w k = record {
  clusters = k.clusters;
  deployments = k.deployments;
  vault = k.vault;
  control = k.control;
}

audit-Kept-Spec :
    {E : World → Type 0} (env : Env) (ctx : Ctx) (actor : ℕ) (action : Action) (target : String)
    (o : Outcome) (d : Details) (w₀ : World)
    → Spec (Still w₀) (Kept w₀) E (audit env ctx actor action target o d)
unfolding audit
audit-Kept-Spec env ctx actor action target o d w₀ = Spec-ignore _ (
    statement_ok-Spec env ctx _ (λ w k. later-Kept w₀ w k.kept)
      (λ w k. Ends-always (Kept w₀) _ _ (audit-Kept w.clock _ w₀ w k.kept)))

cascade_off : (b : Bool) (s : Status) → deletable b s ≡ false → (b && cascade_deletable s) ≡ false
cascade_off b s h = ground arith

direct_off : (b : Bool) (s : Status) → deletable b s ≡ false → direct_deletable s ≡ false
direct_off b s h = ground arith

module _ (env : Env) (ctx : Ctx) (uid : ℕ) (id : String) (w₀ : World) where
  abbrev decline :
      {E : World → Type 0} (r : Response)
      → is_refusal r ≡ true
      → SpecR (Still w₀) (Declined w₀) E (pure r)
  decline r h = SpecR-pure r (λ w k. (h, k.kept))

  audited :
      {E : World → Type 0} (action : Action) (o : Outcome) (d : Details) (r : Response)
      → is_refusal r ≡ true
      → SpecR (Still w₀) (Declined w₀) E (audit env ctx uid action id o d >>= λ _. pure r)
  audited action o d r h =
      SpecR-bind _ _ (audit-Kept-Spec env ctx uid action id o d w₀)
        (λ _. SpecR-pure r (λ w k. (h, k)))

  refuse-SpecR :
      {E : World → Type 0} (c : Cluster)
      → SpecR (Still w₀) (Declined w₀) E (refuse_delete env ctx uid id c)
  unfolding refuse_delete
  refuse-SpecR c = audited _ _ _ _ (ground arith)

  found-SpecR :
      {E : World → Type 0} (cascade : Bool) (c : Cluster)
      → deletable cascade c.status ≡ false
      → SpecR (Still w₀) (Declined w₀) E (delete_found env ctx uid id cascade (ok c))
  unfolding direct_delete
  found-SpecR cascade c h =
      rw (cascade_off cascade c.status h, direct_off cascade c.status h) (refuse-SpecR c)

  failed-SpecR :
      {E : World → Type 0} (cascade : Bool) (e : Error)
      → SpecR (Still w₀) (Declined w₀) E (delete_found env ctx uid id cascade (err e))
  failed-SpecR cascade not_found = audited _ _ _ _ refl
  failed-SpecR cascade duplicate_name = decline _ refl
  failed-SpecR cascade invalid_transition = decline _ refl
  failed-SpecR cascade locked = decline _ refl
  failed-SpecR cascade in_progress = decline _ refl
  failed-SpecR cascade not_cancellable = decline _ refl
  failed-SpecR cascade (of_apps e) = decline _ refl
  failed-SpecR cascade ctx_cancelled = decline _ refl
  failed-SpecR cascade (failure s) = decline _ refl
  failed-SpecR cascade (refused t) = decline _ refl

  handler-SpecR :
      {E : World → Type 0} (cascade : Bool)
      → ((c : Cluster) → get_cluster id w₀.db ≡ ok c → deletable cascade c.status ≡ false)
      → SpecR (Still w₀) (Declined w₀) E (delete_cluster_handler env ctx uid id cascade)
  unfolding delete_cluster_handler
  handler-SpecR cascade h = elim (Bool-cases (is_valid_cluster_id id)) [
    | inl e ↦ rw e (
        SpecR-attempt-query w₀.db env ctx (get_cluster id) (delete_found env ctx uid id cascade)
          (λ w k. k.db) (λ w k. record { kept = later-Kept w₀ w k.kept; db = k.db })
          (λ c found. found-SpecR cascade c (h c found)) (failed-SpecR cascade))
    | inr e ↦ rw e (decline _ refl)
  ]

-- A cluster whose status does not allow the delete (a live one without the cascade, or one that is
-- being configured, deployed, upgraded or destroyed) and one that is not there: the request is
-- refused, and the clusters, their deployments and secrets, the locks and the goroutines stay.
pub delete-Declined :
    (env : Env) (ctx : Ctx) (uid : ℕ) (id : String) (cascade : Bool) (w : World)
    → ((c : Cluster) → get_cluster id w.db ≡ ok c → deletable cascade c.status ≡ false)
    → Returns
        (Declined w)
        Never
        (delete_cluster_handler env ctx uid id cascade w).0
        (delete_cluster_handler env ctx uid id cascade w).1
delete-Declined env ctx uid id cascade w h =
    (handler-SpecR env ctx uid id w cascade h).at w (record {
      kept = record {
        clusters = refl;
        deployments = refl;
        vault = refl;
        control = (refl, refl, refl, refl);
      };
      db = refl;
    })
