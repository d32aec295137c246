-- ===== src/Auth/Writes.antt =====
-- What reading the clock, the audit log and a new session do to the sessions.
use bandolier.Prelude.{
  ℕ, ◌+◌, ◌*◌, String, true, false, ◌≡◌, refl, List, [], ◌∷◌, ◌++◌, some, arith, find_row, eq_refl,
}
use bandolier.Result.{is_ok}
use bandolier.Store.Tables.{Db, Session, Action, Outcome, Details}
use bandolier.Store.Audits.{Entry, insert_audit_entry}
use bandolier.Store.Clusters.{has_row}
use bandolier.Store.Users.{create_session, nanosecond_rate}
use bandolier.World.{Ctx, Env, World}
use bandolier.World.Exec.{Exec, ◌>>=◌}
use bandolier.World.Triples.{Spec, Spec-ignore}
use bandolier.World.Rules.{Ends-always}
use bandolier.World.Returns.{SpecR, statement_ok-Spec}
use bandolier.Deployments.Effects.{audit}
use bandolier.Auth.{at_time}

pub SpecR-at_time :
    {P E : World → Type 0} {A B : Type 0} {R : B → World → Type 0} (f : ℕ → A) (k : A → Exec B)
    → ((a : A) → SpecR P R E (k a))
    → SpecR P R E (at_time f >>= k)
unfolding at_time ◌>>=◌
SpecR-at_time f k sk = record { at = λ w p. (sk (f w.clock)).at w p }

pub audit-sessions :
    (now : ℕ) (e : Entry) (db : Db) → (insert_audit_entry now e db).1.sessions ≡ db.sessions
unfolding insert_audit_entry
audit-sessions now e db = ground arith

pub audit-Sessions :
    {E : World → Type 0} (P : List Session → Type 0) (env : Env) (ctx : Ctx) (actor : ℕ)
    (action : Action) (target : String) (o : Outcome) (d : Details)
    → Spec (λ w. P w.db.sessions) (λ w. P w.db.sessions) E (audit env ctx actor action target o d)
unfolding audit
audit-Sessions P env ctx actor action target o d = Spec-ignore _ (
    statement_ok-Spec env ctx _ (λ w h. h)
      (λ w h. Ends-always (λ w. P w.db.sessions) _ _ (rw (audit-sessions w.clock _ w.db) h)))

find_row-last :
    (id : String) (s : Session) (rs : List Session)
    → s.id ≡ id
    → has_row (λ s. s.id) id rs ≡ false
    → find_row (λ s. s.id) id (rs ++ s ∷ []) ≡ some s
unfolding find_row
find_row-last id s [] e h = ground (arith, eq_refl id)
find_row-last id s (r ∷ rs) e h = ground (arith, find_row-last id s rs e)

pub create_session-ok :
    (now : ℕ) (id : String) (uid ttl : ℕ) (db : Db)
    → is_ok (create_session now id uid ttl db).0 ≡ true
    → find_row (λ s. s.id) id (create_session now id uid ttl db).1.sessions
      ≡ some (record { id = id; user_id = uid; expires_at = now + ttl * nanosecond_rate })
unfolding create_session
create_session-ok now id uid ttl db h =
    let s : Session = record { id = id; user_id = uid; expires_at = now + ttl * nanosecond_rate } in
    ground (arith, find_row-last id s db.sessions refl)

pub create_session-err :
    (now : ℕ) (id : String) (uid ttl : ℕ) (db : Db)
    → is_ok (create_session now id uid ttl db).0 ≡ false
    → (create_session now id uid ttl db).1.sessions ≡ db.sessions
unfolding create_session
create_session-err now id uid ttl db h = ground arith
