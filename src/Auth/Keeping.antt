-- ===== src/Auth/Keeping.antt =====
-- The steps that leave the users as they are: the login, the logout and the audit log.
use bandolier.Prelude.{
  ℕ, String, Bool, true, false, ◌≡◌, refl, ◌∙◌, List, Option, none, some, ◌==◌, if◌then◌else◌,
  arith,
}
use bandolier.Result.{Result}
use bandolier.Store.Tables.{Db, User, Action, Outcome, Details}
use bandolier.Store.Users.{get_user_by_id, create_session, delete_session}
use bandolier.World.{Ctx, Env, World, Comparison, matched, mismatched, broken}
use bandolier.World.Exec.{Exec, pure}
use bandolier.World.Calls.{query, tick, ctx_done, background}
use bandolier.World.Triples.{Spec, Spec-pure, Spec-ignore}
use bandolier.World.Rules.{Ends-always, guarded-Ends}
use bandolier.World.Returns.{Never, SpecR, SpecR-bind, SpecR-pure, if-SpecR, statement_ok-Spec}
use bandolier.World.Attempts.{SpecR-attempt}
use bandolier.Auth.Writes.{SpecR-at_time}
use bandolier.Auth.{Answer, drop_session, audited, login, compared, with_session_id, logout}
use bandolier.Auth.Passwords.{Users, audit-Users}

create_session-users :
    (now : ℕ) (id : String) (uid ttl : ℕ) (db : Db)
    → (create_session now id uid ttl db).1.users ≡ db.users
unfolding create_session
create_session-users now id uid ttl db = ground arith

delete_session-users : (id : String) (db : Db) → (delete_session id db).1.users ≡ db.users
unfolding delete_session
delete_session-users id db = refl

Spec-if :
    {P Q E : World → Type 0} {A : Type 0} (b : Bool) (m n : Exec A)
    → Spec P Q E m
    → Spec P Q E n
    → Spec P Q E (if b then m else n)
Spec-if true m n sm sn = sm
Spec-if false m n sm sn = sn

module _ (env : Env) (ctx : Ctx) (us : List User) where
  abbrev pub R : Answer → World → Type 0
  R a = Users us

  pub query-Users :
      {A : Type 0} (body : Db → Result A)
      → Spec (Users us) (Users us) (Users us) (query env ctx body)
  unfolding query
  query-Users body = record {
    at = λ w h. guarded-Ends (Users us) (ctx_done ctx w.clock) _ _ (tick w) h (
        guarded-Ends (Users us) (env.sql_fails w.clock) _ _ (tick w) h
          (Ends-always (Users us) _ (tick w) h));
  }

  pub answer-SpecR : (a : Answer) → SpecR (Users us) R Never (pure a)
  answer-SpecR a = SpecR-pure a (λ w h. h)

  pub audited-SpecR :
      (actor : ℕ) (action : Action) (o : Outcome) (d : Details) (a : Answer)
      → SpecR (Users us) R Never (audited env ctx actor action o d a)
  audited-SpecR actor action o d a =
      SpecR-bind {Q = Users us} _ _ (audit-Users us env ctx actor action "" o d)
        (λ u. answer-SpecR a)

  with_id-SpecR :
      (u : User) (id : Option String) → SpecR (Users us) R Never (with_session_id env ctx u id)
  with_id-SpecR u none = answer-SpecR _
  with_id-SpecR u (some id) =
      SpecR-attempt (Users us) (Users us) _ _
        (statement_ok-Spec env ctx _ (λ w h. h)
          (λ w h.
            Ends-always (Users us) _ _
              (create_session-users (env.nanos w.clock) id u.id _ w.db ∙ h)))
        (λ t. audited-SpecR u.id _ _ _ _) (λ e. answer-SpecR _)

  compared-SpecR : (u : User) (k : Comparison) → SpecR (Users us) R Never (compared env ctx u k)
  compared-SpecR u matched = SpecR-at_time _ _ (λ id. with_id-SpecR u id)
  compared-SpecR u mismatched = audited-SpecR _ _ _ _ _
  compared-SpecR u broken = answer-SpecR _

  pub login-SpecR : (body : Option String) → SpecR (Users us) R Never (login env ctx body)
  unfolding login
  login-SpecR none = answer-SpecR _
  login-SpecR (some password) =
      if-SpecR (password == "") _ _ (λ e. answer-SpecR _)
        (λ e.
          SpecR-attempt (Users us) (Users us) _ _ (query-Users (get_user_by_id 1))
            (λ u. compared-SpecR u _) (λ e. audited-SpecR _ _ _ _ _))

  drop-Users :
      {E : World → Type 0} (cookie : Option String)
      → Spec (Users us) (Users us) E (drop_session env ctx cookie)
  drop-Users none = Spec-pure (λ w h. h) tt
  drop-Users (some id) = Spec-if (id == "") _ _ (Spec-pure (λ w h. h) tt) (
      Spec-ignore _ (
        statement_ok-Spec env background _ (λ w h. h)
          (λ w h. Ends-always (Users us) _ _ (delete_session-users id w.db ∙ h))))

  pub logout-SpecR :
      (cookie : Option String) (uid : Option ℕ)
      → SpecR (Users us) R Never (logout env ctx cookie uid)
  unfolding logout
  logout-SpecR cookie uid =
      SpecR-bind {Q = Users us} _ _ (drop-Users cookie) (λ u. audited-SpecR _ _ _ _ _)
