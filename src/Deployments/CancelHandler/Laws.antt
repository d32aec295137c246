-- ===== src/Deployments/CancelHandler/Laws.antt =====
-- Which requests to cancel are granted, and what they do.
use bandolier.Prelude.{
  ℕ, String, true, ◌≡◌, refl, Option, none, some, lookup, lookup-insert, eq_refl, insert,
  Bool-cases, Option-cases, inl, inr, subst, arith,
}
use bandolier.Store.Tables.{Deployment}
use bandolier.Store.Deployments.{get_deployment, is_running}
use bandolier.Result.{
  of_apps, Error, ok, err, not_found, duplicate_name, invalid_transition, locked, in_progress,
  not_cancellable, ctx_cancelled, failure, refused,
}
use bandolier.Response.{Response, accepted}
use bandolier.World.{Ctx, Env, World}
use bandolier.World.Exec.{pure}
use bandolier.World.Triples.{Spec}
use bandolier.World.Returns.{Never, SpecR, SpecR-pure, Returns}
use bandolier.World.Attempts.{SpecR-attempt, SpecR-attempt-query}
use bandolier.Deployments.Effects.{cancel, first_call}
use bandolier.Deployments.CancelHandler.{cancel_answer, signalled, cancel_found, cancel_handler}

-- The row says `running`, the operation had a cancel func, and it has been called.
pub record Signalled (id : String) (w₀ w : World) : Type 0 where
  pub deployment : Deployment
  pub found : get_deployment id w₀.db ≡ ok deployment
  pub running : is_running deployment.status ≡ true
  pub registered : Option ℕ
  pub was_registered : lookup id w₀.cancel_map ≡ some registered
  pub time : ℕ
  pub called : lookup id w.cancel_map ≡ some (some time)

-- An answer of success says that the operation is cancelled; any other one, that no cancel func
-- was called.
abbrev pub Answered : String → World → Response → World → Type 0
Answered id w₀ (accepted dep) w = Signalled id w₀ w
Answered id w₀ r w = w.cancel_map ≡ w₀.cancel_map

record Asked (w₀ w : World) : Type 0 where
  db : w.db ≡ w₀.db
  map : w.cancel_map ≡ w₀.cancel_map

record Called (id : String) (w₀ w : World) : Type 0 where
  registered : Option ℕ
  was_registered : lookup id w₀.cancel_map ≡ some registered
  time : ℕ
  called : lookup id w.cancel_map ≡ some (some time)

first_call-some : (now : ℕ) (o : Option ℕ) → (n : ℕ) × (first_call now o ≡ some n)
first_call-some now none = (now, refl)
first_call-some now (some n) = (n, refl)

cancel-none :
    (id : String) (w : World)
    → lookup id w.cancel_map ≡ none
    → cancel id w ≡ (err not_cancellable, w)
unfolding cancel
cancel-none id w e = ground arith

cancel-some :
    (id : String) (w : World) (o : Option ℕ)
    → lookup id w.cancel_map ≡ some o
    → cancel id w ≡ (ok tt, record w { cancel_map = insert id (first_call w.clock o) w.cancel_map })
unfolding cancel
cancel-some id w o e = ground arith

cancel-Called :
    (id : String) (w₀ : World)
    → Spec (Asked w₀) (Called id w₀) (λ w. w.cancel_map ≡ w₀.cancel_map) (cancel id)
cancel-Called id w₀ = record {
  at = λ w a. elim (Option-cases (lookup id w.cancel_map)) [
    | inl e ↦ rw (cancel-none id w e) a.map
    | inr (o, e) ↦
        let (n, f) = first_call-some w.clock o in
        rw (cancel-some id w o e) (record {
          registered = o;
          was_registered = subst (λ m. lookup id m ≡ some o) a.map e;
          time = n;
          called = rw (lookup-insert id id (first_call w.clock o) w.cancel_map, eq_refl, f) refl;
        })
  ];
}

module _ (env : Env) (ctx : Ctx) (id : String) (w₀ : World) where
  refused-SpecR :
      (e : Error)
      → SpecR
          (λ w. w.cancel_map ≡ w₀.cancel_map)
          (Answered id w₀)
          Never
          (pure (cancel_answer env ctx id e))
  refused-SpecR not_found = SpecR-pure _ (λ w p. p)
  refused-SpecR duplicate_name = SpecR-pure _ (λ w p. p)
  refused-SpecR invalid_transition = SpecR-pure _ (λ w p. p)
  refused-SpecR locked = SpecR-pure _ (λ w p. p)
  refused-SpecR in_progress = SpecR-pure _ (λ w p. p)
  refused-SpecR not_cancellable = SpecR-pure _ (λ w p. p)
  refused-SpecR (of_apps e) = SpecR-pure _ (λ w p. p)
  refused-SpecR ctx_cancelled = SpecR-pure _ (λ w p. p)
  refused-SpecR (failure s) = SpecR-pure _ (λ w p. p)
  refused-SpecR (refused t) = SpecR-pure _ (λ w p. p)

  found-SpecR :
      (d : Deployment)
      → get_deployment id w₀.db ≡ ok d
      → SpecR (Asked w₀) (Answered id w₀) Never (cancel_found env ctx id (ok d))
  found-SpecR d found = elim (Bool-cases (is_running d.status)) [
    | inl e ↦ rw e (
        SpecR-attempt (Called id w₀) (λ w. w.cancel_map ≡ w₀.cancel_map) (cancel id)
          (signalled env ctx id) (cancel-Called id w₀)
          (λ _. SpecR-pure _ (λ w c. record {
            deployment = d;
            found = found;
            running = e;
            registered = c.registered;
            was_registered = c.was_registered;
            time = c.time;
            called = c.called;
          }))
          refused-SpecR)
    | inr e ↦ rw e (SpecR-pure _ (λ w a. a.map))
  ]

  missing-SpecR :
      (e : Error) → SpecR (Asked w₀) (Answered id w₀) Never (cancel_found env ctx id (err e))
  missing-SpecR not_found = SpecR-pure _ (λ w a. a.map)
  missing-SpecR duplicate_name = SpecR-pure _ (λ w a. a.map)
  missing-SpecR invalid_transition = SpecR-pure _ (λ w a. a.map)
  missing-SpecR locked = SpecR-pure _ (λ w a. a.map)
  missing-SpecR in_progress = SpecR-pure _ (λ w a. a.map)
  missing-SpecR not_cancellable = SpecR-pure _ (λ w a. a.map)
  missing-SpecR (of_apps e) = SpecR-pure _ (λ w a. a.map)
  missing-SpecR ctx_cancelled = SpecR-pure _ (λ w a. a.map)
  missing-SpecR (failure s) = SpecR-pure _ (λ w a. a.map)
  missing-SpecR (refused t) = SpecR-pure _ (λ w a. a.map)

-- The handler always answers. If it answers 202, then the row said `running`, the operation was
-- registered, and its cancel func has been called; with any other answer the cancel funcs are as
-- they were.
pub cancel_handler-Answered :
    (env : Env) (ctx : Ctx) (id : String) (w : World)
    → Returns (Answered id w) Never (cancel_handler env ctx id w).0 (cancel_handler env ctx id w).1
unfolding cancel_handler
cancel_handler-Answered env ctx id w =
    (SpecR-attempt-query {P = Asked w} w.db env ctx (get_deployment id) (cancel_found env ctx id)
        (λ v a. a.db) (λ v a. record { db = a.db; map = a.map }) (found-SpecR env ctx id w)
        (missing-SpecR env ctx id w)).at
      w (record { db = refl; map = refl })
