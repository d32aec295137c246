-- ===== src/Auth/Sessions.antt =====
-- A session from its login to its end.
use bandolier.Prelude.{
  ℕ, ◌+◌, ◌*◌, ◌/◌, ◌≤◌, String, true, false, ◌≡◌, refl, ap, subst, ◌∙◌, le→leb, leb→le, List, [],
  ◌∷◌, some, ◌==◌, if◌then◌else◌, arith, leb, find_row, Bool-cases, inl, inr,
}
use bandolier.Result.{Result, ok, err, not_found}
use bandolier.Response.{Response, unauthorized}
use bandolier.Store.Tables.{Db, User, Session}
use bandolier.Store.Users.{find_user, get_user_by_id, get_session, nanosecond_rate, is_current}
use bandolier.World.{Ctx, Env, World}
use bandolier.World.Exec.{Exec, pure, attempt, ◌>>=◌}
use bandolier.World.Calls.{tick}
use bandolier.World.Rules.{IsQuiet, IsLive, query_quiet}
use bandolier.World.Returns.{Never, Returns}
use bandolier.Auth.{Answer, session_ttl_seconds, login, require_session, session_found}
use bandolier.Auth.Admission.{LoggedIn, AdmittedIf, Admitted, session_row, login-Admitted}

find_user-id : (id : ℕ) (u : User) (us : List User) → find_user id us ≡ some u → u.id ≡ id
find_user-id id u [] h = cc
find_user-id id u (v ∷ us) h = ground (arith, find_user-id id u us)

pub get_user-id : (id : ℕ) (u : User) (db : Db) → get_user_by_id id db ≡ ok u → u.id ≡ id
unfolding get_user_by_id
get_user-id id u db h = ground (arith, find_user-id id u db.users)

get_session-found :
    (now : ℕ) (id : String) (db : Db) (s : Session)
    → find_row (λ s. s.id) id db.sessions ≡ some s
    → get_session now id db ≡ (if is_current now s then ok s else err not_found)
unfolding get_session
get_session-found now id db s h = ground (arith, h)

-- The clock does not go backwards.
abbrev pub IsSteady : Env → Type 0
IsSteady env = (m n : ℕ) → m ≤ n → env.nanos m ≤ env.nanos n

abbrev pub lifetime : ℕ
lifetime = session_ttl_seconds * nanosecond_rate

module _ (env : Env) (ctx : Ctx) (quiet : IsQuiet env) (live : IsLive ctx) where
  session_query :
      (id : String) (r : Result Session) (v : World) {A : Type 0} (refuse : Response → A)
      (next : ℕ → Exec A)
      → (id == "") ≡ false
      → get_session (env.nanos v.clock) id v.db ≡ r
      → require_session env ctx refuse (some id) next v
        ≡ session_found env ctx refuse next r (tick v)
  unfolding require_session attempt ◌>>=◌
  session_query id r v refuse next given h =
      rw
        (
          given,
          query_quiet env ctx (get_session (env.nanos v.clock) id) v quiet.sql (live.never v.clock),
          h,
        )
        refl

logged_in :
    (env : Env) (ctx : Ctx) (password : String) (w w' : World) (a : Answer) (id : String)
    → login env ctx (some password) w ≡ (ok a, w')
    → a.cookie ≡ some id
    → LoggedIn env password w id w'
logged_in env ctx password w w' a id run cookie =
    subst (λ c. AdmittedIf env (some password) w a.response c w') cookie
      (subst (λ p. Returns (Admitted env (some password) w) Never p.0 p.1) run
        (login-Admitted env ctx (some password) w))

-- Before its time is over.
in_time :
    (now at start ttl : ℕ)
    → start ≤ at
    → now ≤ start + ttl
    → leb (now / nanosecond_rate) ((at + ttl) / nanosecond_rate) ≡ true
in_time now at start ttl s n = le→leb _ _ (omega (arith, s, n))

-- One second after it was over.
too_late :
    (now at end : ℕ)
    → at ≤ end
    → end + lifetime + nanosecond_rate ≤ now
    → leb (now / nanosecond_rate) ((at + lifetime) / nanosecond_rate) ≡ false
too_late now at end s n =
    elim (Bool-cases (leb (now / nanosecond_rate) ((at + lifetime) / nanosecond_rate))) [
      | inr e ↦ e
      | inl e ↦ absurd (omega (arith, s, n, leb→le _ _ e))
    ]

module _ (env : Env) (ctx : Ctx) (password : String) (w w' v : World) (a : Answer) (id : String)
    (steady : IsSteady env) (run : login env ctx (some password) w ≡ (ok a, w'))
    (cookie : a.cookie ≡ some id) (same : v.db.sessions ≡ w'.db.sessions) where
  abbrev proof : LoggedIn env password w id w'
  proof = logged_in env ctx password w w' a id run cookie

  found_row : find_row (λ s. s.id) id v.db.sessions ≡ some (session_row env id proof.user proof.at)
  found_row = ap (find_row (λ s. s.id) id) same ∙ proof.stored

  current_session :
      env.nanos v.clock ≤ env.nanos w.clock + lifetime
      → get_session (env.nanos v.clock) id v.db ≡ ok (session_row env id proof.user proof.at)
  current_session h =
      get_session-found (env.nanos v.clock) id v.db _ found_row
      ∙ rw
          (in_time (env.nanos v.clock) (env.nanos proof.at) (env.nanos w.clock) lifetime
            (steady w.clock proof.at proof.since) h)
          refl

  ended_session :
      env.nanos w'.clock + lifetime + nanosecond_rate ≤ env.nanos v.clock
      → get_session (env.nanos v.clock) id v.db ≡ err not_found
  ended_session h =
      get_session-found (env.nanos v.clock) id v.db _ found_row
      ∙ rw
          (too_late (env.nanos v.clock) (env.nanos proof.at) (env.nanos w'.clock)
            (steady proof.at w'.clock proof.past) h)
          refl

-- Take a login that set the cookie `id`, and a later state with the same sessions, on a database that
-- does not fail and a clock that does not go backwards. A request with the cookie goes on as that of
-- the user 1 until eight hours after the login began, and is refused with 401, and changes nothing,
-- from one second after eight hours after the login ended.
pub login-require_session :
    (env : Env) (ctx late : Ctx) (password : String) (w w' v : World) (a : Answer) (id : String)
    {A : Type 0} (refuse : Response → A) (next : ℕ → Exec A)
    → IsQuiet env
    → IsLive late
    → IsSteady env
    → login env ctx (some password) w ≡ (ok a, w')
    → a.cookie ≡ some id
    → (id == "") ≡ false
    → v.db.sessions ≡ w'.db.sessions
    → (env.nanos v.clock ≤ env.nanos w.clock + lifetime
        → require_session env late refuse (some id) next v ≡ next 1 (tick v))
      × (env.nanos w'.clock + lifetime + nanosecond_rate ≤ env.nanos v.clock
          → require_session env late refuse (some id) next v
            ≡ (ok (refuse (unauthorized "session expired")), tick v))
unfolding pure
login-require_session env ctx late password w w' v a id refuse next quiet live steady run cookie
      given same =
    (
      λ h.
          session_query env late quiet live id _ v refuse next given
            (current_session env ctx password w w' v a id steady run cookie same h)
          ∙ ap (λ u. next u (tick v))
              (get_user-id 1 _ w.db (logged_in env ctx password w w' a id run cookie).found),
      λ h.
          session_query env late quiet live id _ v refuse next given
            (ended_session env ctx password w w' v a id steady run cookie same h),
    )
