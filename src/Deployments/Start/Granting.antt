-- ===== src/Deployments/Start/Granting.antt =====
-- What a request to deploy, destroy or upgrade a cluster ends in.
use bandolier.Prelude.{
  ℕ, String, true, false, ◌≡◌, refl, arith, none, some, Option-cases, inl, inr, Bool-cases,
}
use bandolier.Status.{Status, TransitionError, can_transition}
use bandolier.Result.{Result, ok, err, Error}
use bandolier.Mutex.{try_lock}
use bandolier.Mutex.Laws.{is_locked, try_lock_lem}
use bandolier.Store.Tables.{Cluster}
use bandolier.Store.Clusters.{get_cluster}
use bandolier.World.{Ctx, Env, World}
use bandolier.World.Exec.{Exec, pure, ◌>>=◌, ◌>>◌}
use bandolier.World.Calls.{tick}
use bandolier.World.Triples.{Spec}
use bandolier.World.Rules.{bind-err}
use bandolier.World.Returns.{
  SpecR, SpecR-bind, SpecR-query, SpecR-query-tick, SpecR-weaken, Returns,
}
use bandolier.Deployments.Effects.{lock_cluster}
use bandolier.Deployments.Outcome.{SameControl}
use bandolier.Deployments.Start.{check_move, take_lock, get_profile, start}
use bandolier.Deployments.Start.Launch.{Plan, launch}
use bandolier.Deployments.Start.Launched.{Untouched, Held, Launched, launch-SpecR}

-- Only time has passed.
pub record Idle (w₀ w : World) : Type 0 where
  pub control : SameControl w₀ w
  pub db : w.db ≡ w₀.db

-- The request was granted: the cluster's row allows the move, its profile is registered, and the
-- operation has started.
pub record Granted (env : Env) (plan : Plan) (id : String) (actor : ℕ) (w₀ : World) (dep : String)
    (w : World) : Type 0 where
  pub cluster : Cluster
  pub found : get_cluster id w₀.db ≡ ok cluster
  pub allowed : can_transition cluster.status plan.target ≡ none
  pub profile : env.is_registered cluster.profile ≡ true
  pub launched : Launched plan id cluster.profile actor w₀ dep w

Idle-Untouched : (w₀ w : World) → Idle w₀ w → Untouched w₀ w
Idle-Untouched w₀ w i =
    let (m, c, cm, j) = i.control in
    record { locks = λ id. rw m refl; crashed = c; cancel_map = cm; jobs = j }

check_move-ok :
    (wrap : TransitionError → Error) (from to : Status) (w : World)
    → can_transition from to ≡ none
    → check_move wrap from to w ≡ (ok tt, w)
unfolding check_move
check_move-ok wrap from to w e = rw e refl

check_move-err :
    (wrap : TransitionError → Error) (from to : Status) (x : TransitionError) (w : World)
    → can_transition from to ≡ some x
    → check_move wrap from to w ≡ (err (wrap x), w)
unfolding check_move
check_move-err wrap from to x w e = rw e refl

module _ {P E : World → Type 0} {R : String → World → Type 0} (k : Exec String)
    (stop : (w : World) → P w → E w) where
  check_move-SpecR :
      (wrap : TransitionError → Error) (from to : Status)
      → (can_transition from to ≡ none → SpecR P R E k)
      → SpecR P R E (check_move wrap from to >>= λ _. k)
  unfolding ◌>>=◌
  check_move-SpecR wrap from to sk = elim (Option-cases (can_transition from to)) [
    | inl e ↦ record { at = λ w p. rw (check_move-ok wrap from to w e) ((sk e).at w p) }
    | inr (x, e) ↦ record { at = λ w p. rw (check_move-err wrap from to x w e) (stop w p) }
  ]

  get_profile-SpecR :
      (env : Env) (name : String)
      → (env.is_registered name ≡ true → SpecR P R E k)
      → SpecR P R E (get_profile env name >>= λ _. k)
  unfolding get_profile ◌>>=◌
  get_profile-SpecR env name sk = elim (Bool-cases (env.is_registered name)) [
    | inl e ↦ record { at = λ w p. rw e ((sk e).at w p) }
    | inr e ↦ record { at = λ w p. rw e (stop w p) }
  ]

lock-Held :
    (id : String) (w₀ w : World)
    → Idle w₀ w
    → is_locked id w₀.mutex ≡ false
    → Held id w₀ (record w { mutex = (try_lock id w.mutex).1 })
lock-Held id w₀ w i free =
    let (m, c, cm, j) = i.control in
    record {
      free = free;
      locks = λ x. rw ((try_lock_lem id x w.mutex).1, m) refl;
      crashed = c;
      cancel_map = cm;
      jobs = j;
    }

pub take_lock-free :
    (busy : Error) (id : String) (w : World)
    → is_locked id w.mutex ≡ false
    → take_lock busy id w ≡ (ok tt, record w { mutex = (try_lock id w.mutex).1 })
unfolding take_lock is_locked pure ◌>>=◌ lock_cluster
take_lock-free busy id w h = ground arith

pub take_lock-busy :
    (busy : Error) (id : String) (w : World)
    → is_locked id w.mutex ≡ true
    → take_lock busy id w ≡ (err busy, w)
unfolding take_lock is_locked pure ◌>>=◌ lock_cluster
take_lock-busy busy id w h = ground arith

take_lock-Spec :
    (busy : Error) (id : String) (w₀ : World)
    → Spec (Idle w₀) (Held id w₀) (Untouched w₀) (take_lock busy id)
take_lock-Spec busy id w₀ = record {
  at = λ w i.
      let same = i.control.0 in
      elim (Bool-cases (is_locked id w₀.mutex)) [
        | inl h ↦ rw (take_lock-busy busy id w (rw same h)) (Idle-Untouched w₀ w i)
        | inr h ↦ rw (take_lock-free busy id w (rw same h)) (lock-Held id w₀ w i h)
      ];
}

start-SpecR :
    (env : Env) (wrap : TransitionError → Error) (busy : Error) (plan : Plan) (ctx : Ctx)
    (actor : ℕ) (id : String) (w₀ : World)
    → SpecR
        (Idle w₀)
        (Granted env plan id actor w₀)
        (Untouched w₀)
        (start env wrap busy plan ctx actor id)
unfolding start
start-SpecR env wrap busy plan ctx actor id w₀ =
    SpecR-query w₀.db env ctx (get_cluster id) _ (λ w i. i.db)
      (λ w i. record { control = i.control; db = i.db }) (Idle-Untouched w₀)
      (λ c found. check_move-SpecR _ (Idle-Untouched w₀) wrap c.status plan.target (λ allowed.
        get_profile-SpecR _ (Idle-Untouched w₀) env c.profile (λ profile.
          SpecR-bind _ _ (take_lock-Spec busy id w₀) (λ _.
            SpecR-weaken _
              (λ dep w l. record {
                cluster = c;
                found = found;
                allowed = allowed;
                profile = profile;
                launched = l;
              })
              (launch-SpecR env plan ctx actor id c.profile w₀)))))

-- A request that returns an id was granted by a row that allows the move, and its operation has
-- started under the lock, with a row that says `running` and a cluster in the target status. One
-- that returns an error leaves every lock, the cancel funcs and the goroutines as they were.
pub start-Granted :
    (env : Env) (wrap : TransitionError → Error) (busy : Error) (plan : Plan) (ctx : Ctx)
    (actor : ℕ) (id : String) (w : World)
    → Returns
        (Granted env plan id actor w)
        (Untouched w)
        (start env wrap busy plan ctx actor id w).0
        (start env wrap busy plan ctx actor id w).1
start-Granted env wrap busy plan ctx actor id w =
    (start-SpecR env wrap busy plan ctx actor id w).at w
      (record { control = (refl, refl, refl, refl); db = refl })

-- The request was refused, and all that it did was to ask for the cluster's row.
abbrev pub Refused : World → Result String → World → Type 0
Refused w₀ r w = Returns (λ dep v. ⊥) (λ v. v ≡ tick w₀) r w

module _ (env : Env) (busy : Error) (plan : Plan) (ctx : Ctx) (actor : ℕ) (id : String) (w₀ : World)
    (held : is_locked id w₀.mutex ≡ true) where
  -- The state after the row was asked for.
  abbrev Asked : World → Type 0
  Asked w = w ≡ tick w₀

  busy-SpecR :
      (profile : String)
      → SpecR Asked
          (λ dep v. ⊥)
          Asked
          (take_lock busy id >>= λ _. launch env plan ctx actor id profile)
  busy-SpecR profile = record {
    at = λ w e.
        rw
          (bind-err (take_lock busy id) (λ _. launch env plan ctx actor id profile) busy w w
            (take_lock-busy busy id w (rw e held)))
          e;
  }

  moved-SpecR :
      (wrap : TransitionError → Error) (c : Cluster)
      → SpecR Asked
          (λ dep v. ⊥)
          Asked
          (do
            check_move wrap c.status plan.target
            get_profile env c.profile
            take_lock busy id
            launch env plan ctx actor id c.profile)
  moved-SpecR wrap c =
      check_move-SpecR _ (λ v i. i) wrap c.status plan.target
        (λ allowed. get_profile-SpecR _ (λ v i. i) env c.profile (λ profile. busy-SpecR c.profile))

-- While an operation of the cluster holds its lock, every request to start another one is refused,
-- and leaves the whole state as it was, but for the time that its one query took.
pub start-Refused :
    (env : Env) (wrap : TransitionError → Error) (busy : Error) (plan : Plan) (ctx : Ctx)
    (actor : ℕ) (id : String) (w : World)
    → is_locked id w.mutex ≡ true
    → Refused w
        (start env wrap busy plan ctx actor id w).0
        (start env wrap busy plan ctx actor id w).1
unfolding start
start-Refused env wrap busy plan ctx actor id w held =
    (SpecR-query-tick {P = λ v. v ≡ w} {Q = λ v. v ≡ tick w} w.db env ctx (get_cluster id) _
        (λ v e. rw e refl) (λ v e. rw e refl) (λ v e. e)
        (λ c found. moved-SpecR env busy plan ctx actor id w held wrap c)).at
      w refl
