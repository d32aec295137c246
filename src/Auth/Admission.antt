-- ===== src/Auth/Admission.antt =====
-- Who is logged in, and what a session is good for.
use bandolier.Prelude.{
  ℕ, suc, ◌+◌, ◌*◌, ◌≤◌, String, Bool, true, false, ◌≡◌, refl, ap, ◌∙◌, Option, none, some, ◌==◌,
  arith, find_row,
}
use bandolier.Result.{ok}
use bandolier.Response.{Response, okay}
use bandolier.Store.Tables.{Db, User, Session, Action, Outcome, Details}
use bandolier.Store.Users.{get_user_by_id, nanosecond_rate}
use bandolier.World.{Ctx, Env, World, Comparison, matched, mismatched, broken}
use bandolier.World.Exec.{Exec, pure}
use bandolier.World.Triples.{Spec, Spec-ignore, Ends-by}
use bandolier.World.Rules.{Ends-always}
use bandolier.World.Returns.{
  Never, Returns, SpecR, SpecR-bind, SpecR-pure, if-SpecR, statement_ok-Spec,
}
use bandolier.World.Attempts.{SpecR-attempt, SpecR-attempt-query}
use bandolier.Deployments.Effects.{audit}
use bandolier.Auth.Writes.{
  SpecR-at_time, audit-sessions, audit-Sessions, create_session-ok, create_session-err,
}
use bandolier.Auth.{
  Answer, plain, session_ttl_seconds, denied, session_stored, with_session_id, compared, login_user,
  login,
}

abbrev pub is_okay : Response → Bool
is_okay (okay s) = true
is_okay _ = false

abbrev pub session_row : Env → String → User → ℕ → Session
session_row env id u at = record {
  id = id;
  user_id = u.id;
  expires_at = env.nanos at + session_ttl_seconds * nanosecond_rate;
}

-- The password is that of the first user, and the session `id` was stored at the time `at`, during
-- the request.
pub record LoggedIn (env : Env) (password : String) (w₀ : World) (id : String) (w : World)
    : Type 0 where
  pub user : User
  pub found : get_user_by_id 1 w₀.db ≡ ok user
  pub matches : env.crypto.compare_hash user.password_hash password ≡ matched
  pub at : ℕ
  pub since : w₀.clock ≤ at
  pub past : at ≤ w.clock
  pub stored : find_row (λ s. s.id) id w.db.sessions ≡ some (session_row env id user at)

-- A request that was refused sets no cookie and stores no session.
pub record Rejected (w₀ : World) (r : Response) (w : World) : Type 0 where
  pub response : is_okay r ≡ false
  pub sessions : w.db.sessions ≡ w₀.db.sessions

-- A body with no password admits nobody.
abbrev pub AdmittedIf : Env → Option String → World → Response → Option String → World → Type 0
AdmittedIf env body w₀ r none w = Rejected w₀ r w
AdmittedIf env none w₀ r (some id) w = ⊥
AdmittedIf env (some password) w₀ r (some id) w = LoggedIn env password w₀ id w

abbrev pub Admitted : Env → Option String → World → Answer → World → Type 0
Admitted env body w₀ a w = AdmittedIf env body w₀ a.response a.cookie w

module _ (env : Env) (ctx : Ctx) (password : String) (w₀ : World) where
  abbrev R : Answer → World → Type 0
  R = Admitted env (some password) w₀

  -- No session was stored yet.
  record Waiting (w : World) : Type 0 where
    sessions : w.db.sessions ≡ w₀.db.sessions
    clock : w₀.clock ≤ w.clock

  record Start (w : World) : Type 0 where
    db : w.db ≡ w₀.db
    clock : w₀.clock ≤ w.clock

  abbrev Same : World → Type 0
  Same w = w.db.sessions ≡ w₀.db.sessions

  reject-SpecR : (r : Response) → is_okay r ≡ false → SpecR Same R Never (pure (plain r))
  reject-SpecR r h = SpecR-pure (plain r) (λ w e. record { response = h; sessions = e })

  denied-SpecR :
      (actor : ℕ) (action : Action) (reason : String) (r : Response)
      → is_okay r ≡ false
      → SpecR Same R Never (denied env ctx actor action reason r)
  denied-SpecR actor action reason r h =
      SpecR-bind {Q = Same} _ _
        (audit-Sessions (λ ss. ss ≡ w₀.db.sessions) env ctx actor action "" _ _)
        (λ u. reject-SpecR r h)

  module _ (u : User) (found : get_user_by_id 1 w₀.db ≡ ok u)
      (matches : env.crypto.compare_hash u.password_hash password ≡ matched) where
    record Stored (id : String) (w : World) : Type 0 where
      at : ℕ
      since : w₀.clock ≤ at
      past : at ≤ w.clock
      row : find_row (λ s. s.id) id w.db.sessions ≡ some (session_row env id u at)

    Stored-later :
        (id : String) (db : Db) (w : World)
        → db.sessions ≡ w.db.sessions
        → Stored id w
        → Stored id (record w { clock = suc w.clock; db = db })
    Stored-later id db w same s = record {
      at = s.at;
      since = s.since;
      past = omega (arith, s.past);
      row = ap (find_row (λ s. s.id) id) same ∙ s.row;
    }

    audit-Stored :
        {E : World → Type 0} (id : String) (actor : ℕ) (action : Action) (o : Outcome) (d : Details)
        → Spec (Stored id) (Stored id) E (audit env ctx actor action "" o d)
    unfolding audit
    audit-Stored id actor action o d = Spec-ignore _ (
        statement_ok-Spec env ctx _ (λ w s. Stored-later id w.db w refl s)
          (λ w s.
            Ends-always (Stored id) _ _ (Stored-later id _ w (audit-sessions w.clock _ w.db) s)))

    Stored-SpecR : (id : String) → SpecR (Stored id) R Never (session_stored env ctx u id (ok tt))
    Stored-SpecR id = SpecR-bind {Q = Stored id} _ _ (audit-Stored id u.id _ _ _) (λ t.
        SpecR-pure _ (λ v s. record {
          user = u;
          found = found;
          matches = matches;
          at = s.at;
          since = s.since;
          past = s.past;
          stored = s.row;
        }))

    with_id-SpecR : (id : Option String) → SpecR Waiting R Never (with_session_id env ctx u id)
    with_id-SpecR none = SpecR-pure _ (λ w p. record { response = refl; sessions = p.sessions })
    with_id-SpecR (some id) =
        SpecR-attempt (Stored id) Same _ _
          (statement_ok-Spec env ctx _ (λ w p. p.sessions)
            (λ w p.
              Ends-by (Stored id) Same _ _
                (λ h. record {
                  at = w.clock;
                  since = p.clock;
                  past = omega arith;
                  row = create_session-ok (env.nanos w.clock) id u.id session_ttl_seconds w.db h;
                })
                (λ h.
                  create_session-err (env.nanos w.clock) id u.id session_ttl_seconds w.db h
                  ∙ p.sessions)))
          (λ t. Stored-SpecR id) (λ e. reject-SpecR _ refl)

  -- From a state that only time has changed.
  later :
      {A : Type 0} {Q : A → World → Type 0} (m : Exec A)
      → SpecR Same Q Never m
      → SpecR Waiting Q Never m
  later m sm = record { at = λ w p. sm.at w p.sessions }

  compared-SpecR :
      (u : User)
      → get_user_by_id 1 w₀.db ≡ ok u
      → (k : Comparison) → env.crypto.compare_hash u.password_hash password ≡ k
      → SpecR Waiting R Never (compared env ctx u k)
  compared-SpecR u found matched e = SpecR-at_time _ _ (λ id. with_id-SpecR u found e id)
  compared-SpecR u found mismatched e = later _ (denied-SpecR _ _ _ _ refl)
  compared-SpecR u found broken e = later _ (reject-SpecR _ refl)

  waiting :
      {Q : Answer → World → Type 0} (m : Exec Answer)
      → SpecR Waiting Q Never m
      → SpecR Start Q Never m
  waiting m sm = record {
    at = λ w p. sm.at w (record { sessions = rw p.db refl; clock = p.clock });
  }

  login-SpecR : SpecR Start R Never (login env ctx (some password))
  unfolding login
  login-SpecR =
      if-SpecR (password == "") _ _ (λ e. waiting _ (later _ (reject-SpecR _ refl)))
        (λ e.
          SpecR-attempt-query w₀.db env ctx (get_user_by_id 1) (login_user env ctx password)
            (λ w p. p.db) (λ w p. record { db = p.db; clock = omega (arith, p.clock) })
            (λ u found. waiting _ (compared-SpecR u found _ refl))
            (λ e. waiting _ (later _ (denied-SpecR _ _ _ _ refl))))

-- A login sets a cookie only if its body was read and the password in it is that of the first user
-- by the comparison of bcrypt, and the cookie is then the id of a session of that user, which ends
-- eight hours after it was stored. Any other login has an answer other than 200, sets no cookie and
-- leaves the sessions as they were.
pub login-Admitted :
    (env : Env) (ctx : Ctx) (body : Option String) (w : World)
    → Returns (Admitted env body w) Never (login env ctx body w).0 (login env ctx body w).1
unfolding login pure
login-Admitted env ctx none w = record { response = refl; sessions = refl }
login-Admitted env ctx (some password) w =
    (login-SpecR env ctx password w).at w (record { db = refl; clock = omega arith })
