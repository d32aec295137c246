-- ===== src/Auth.antt =====
-- api/internal/auth/handlers.go, middleware.go, password.go and session.go. A body comes decoded,
-- `none` for a text that is no JSON; the session cookie and the user of the context are arguments.
pub mod Writes
pub mod Admission
pub mod Sessions
pub mod Passwords
pub mod Keeping
pub mod Accounts
pub mod Token
use Prim.Native.String
use Prim.Native.Char.{code}
use bandolier.Prelude.{
  ℕ, ◌+◌, ◌*◌, String, Bool, List, [], ◌∷◌, Option, none, some, ◌==◌, ltb, if◌then◌else◌,
}
use bandolier.Result.{Error, Result, ok, err}
use bandolier.Response.{
  Response, Reply, sent, refused, okay, created_ok, no_content, bad_request, unauthorized, conflict,
  server_error,
}
use bandolier.Store.Tables.{
  User, Session, Action, Outcome, Details, Detail, auth_setup, auth_login, auth_logout,
  change_password,
}
use bandolier.Store.Users.{
  create_user, get_user_by_id, count_users, update_user_password, create_session, get_session,
  delete_session,
}
use bandolier.World.{Ctx, Env, World, Comparison, matched, mismatched, broken}
use bandolier.World.Exec.{Exec, pure, ignore, attempt, ◌>>=◌, ◌>>◌}
use bandolier.World.Calls.{statement, query, background}
use bandolier.Deployments.Effects.{audit}

-- The answer, and the value that it sets the session cookie to; the empty text deletes it.
pub record Answer : Type 0 where
  pub response : Response
  pub cookie : Option String

abbrev pub plain : Response → Answer
plain r = record { response = r; cookie = none }

abbrev pub session_ttl_seconds : ℕ
session_ttl_seconds = 8 * 60 * 60

abbrev utf8_width : ℕ → ℕ
utf8_width c =
    if ltb c 0x80 then 1 else (if ltb c 0x800 then 2 else (if ltb c 0x1_0000 then 3 else 4))

-- Go's `len` of a text.
unfoldable pub byte_length : String → ℕ
byte_length String.[] = 0
byte_length (String.◌∷◌ c s) = utf8_width (code c) + byte_length s

abbrev pub min_password_length : ℕ
min_password_length = 12

abbrev pub too_short : String → Bool
too_short p = ltb (byte_length p) min_password_length

-- A call that depends on the time, and takes none.
unfoldable pub at_time {ℓ} : {A : Type ℓ} → (ℕ → A) → Exec A
at_time f w = (ok (f w.clock), w)

module _ (env : Env) (ctx : Ctx) where
  abbrev pub audited : ℕ → Action → Outcome → Details → Answer → Exec Answer
  audited actor action outcome details a = do audit env ctx actor action "" outcome details; pure a

  abbrev pub denied : ℕ → Action → String → Response → Exec Answer
  denied actor action reason r =
      audited actor action Outcome.failure (("reason", Detail.text reason) ∷ []) (plain r)

  abbrev pub user_created : Result User → Exec Answer
  user_created (err e) = denied 0 auth_setup "create_user" (server_error "create user")
  user_created (ok u) = audited 1 auth_setup Outcome.success [] (plain created_ok)

  abbrev pub setup_hashed : Option String → Exec Answer
  setup_hashed none = denied 0 auth_setup "hash_error" (server_error "hash")
  setup_hashed (some hash) = do
    u ← attempt (statement env ctx λ now. create_user hash)
    user_created u

  abbrev pub setup_first : Option String → Exec Answer
  setup_first none = denied 0 auth_setup "invalid_json" (bad_request "password required")
  setup_first (some password) =
      if password == ""
      then denied 0 auth_setup "invalid_json" (bad_request "password required")
      else (do hash ← at_time (env.crypto.hash_password password); setup_hashed hash)

  abbrev pub setup_counted : Option String → Result ℕ → Exec Answer
  setup_counted body (err e) = pure (plain (server_error "db"))
  setup_counted body (ok n) =
      if ltb 0 n
      then denied 0 auth_setup "already_configured" (conflict "already initialized")
      else setup_first body

  unfoldable pub setup : Option String → Exec Answer
  unfolding create_user count_users at_time
  setup body = do n ← attempt (query env ctx λ db. ok (count_users db)); setup_counted body n

  abbrev pub session_stored : User → String → Result (Unit {0}) → Exec Answer
  session_stored u id (err e) = pure (plain (server_error "session"))
  session_stored u id (ok t) =
      audited u.id auth_login Outcome.success [] (record { response = okay "ok"; cookie = some id })

  abbrev pub with_session_id : User → Option String → Exec Answer
  with_session_id u none = pure (plain (server_error "session"))
  with_session_id u (some id) = do
    r ←
        attempt
          (statement env ctx λ now. create_session (env.nanos now) id u.id session_ttl_seconds)
    session_stored u id r

  abbrev pub compared : User → Comparison → Exec Answer
  compared u matched = do id ← at_time env.crypto.session_id; with_session_id u id
  compared u mismatched = denied 0 auth_login "invalid_credentials" (unauthorized "invalid")
  compared u broken = pure (plain (server_error "compare"))

  -- The comparison with the dummy hash, which only takes time, is left out.
  abbrev pub login_user : String → Result User → Exec Answer
  login_user password (err e) = denied 0 auth_login "invalid_credentials" (unauthorized "invalid")
  login_user password (ok u) = compared u (env.crypto.compare_hash u.password_hash password)

  unfoldable pub login : Option String → Exec Answer
  unfolding get_user_by_id create_session at_time
  login none = pure (plain (bad_request "password required"))
  login (some password) =
      if password == ""
      then pure (plain (bad_request "password required"))
      else (do u ← attempt (query env ctx (get_user_by_id 1)); login_user password u)

  abbrev pub drop_session : Option String → Exec (Unit {0})
  drop_session none = pure tt
  drop_session (some id) =
      if id == "" then pure tt else ignore (statement env background λ now. delete_session id)

  abbrev pub context_user : Option ℕ → ℕ
  context_user none = 0
  context_user (some uid) = uid

  unfoldable pub logout : Option String → Option ℕ → Exec Answer
  unfolding delete_session
  logout cookie uid = do
    drop_session cookie
    audited (context_user uid) auth_logout Outcome.success []
        (record { response = okay "ok"; cookie = some "" })

  abbrev configured : Result ℕ → Reply Bool
  configured (err e) = refused (server_error "db")
  configured (ok n) = sent (ltb 0 n)

  -- `Handler.Status`
  unfoldable pub auth_status : Exec (Reply Bool)
  unfolding count_users
  auth_status = do n ← attempt (query env ctx λ db. ok (count_users db)); pure (configured n)

  abbrev pub password_updated : ℕ → Result (Unit {0}) → Exec Answer
  password_updated uid (err e) = pure (plain (server_error "update failed"))
  password_updated uid (ok t) = audited uid change_password Outcome.success [] (plain no_content)

  abbrev pub new_hash : ℕ → Option String → Exec Answer
  new_hash uid none = pure (plain (server_error "hash failed"))
  new_hash uid (some hash) = do
    r ← attempt (statement env ctx λ now. update_user_password uid hash)
    password_updated uid r

  -- Every error of the comparison counts as a wrong password here.
  abbrev pub current_compared : ℕ → String → Comparison → Exec Answer
  current_compared uid password matched = do
    hash ← at_time (env.crypto.hash_password password)
    new_hash uid hash
  current_compared uid password _ =
      denied uid change_password "wrong_current_password"
        (unauthorized "current password incorrect")

  abbrev pub change_found : ℕ → String → String → Result User → Exec Answer
  change_found uid current password (err e) = pure (plain (unauthorized "unauthorized"))
  change_found uid current password (ok u) =
      current_compared uid password (env.crypto.compare_hash u.password_hash current)

  -- The current and the new password of the body.
  abbrev pub change_as : ℕ → Option (String × String) → Exec Answer
  change_as uid none = pure (plain (bad_request "invalid json"))
  change_as uid (some body) =
      if too_short body.1
      then pure (plain (bad_request "password must be at least 12 characters"))
      else (do u ← attempt (query env ctx (get_user_by_id uid)); change_found uid body.0 body.1 u)

  unfoldable pub change_user_password : Option ℕ → Option (String × String) → Exec Answer
  unfolding get_user_by_id update_user_password byte_length at_time
  change_user_password none body = pure (plain (unauthorized "unauthorized"))
  change_user_password (some uid) body = change_as uid body

  abbrev pub session_found {ℓ} :
      {A : Type ℓ} → (Response → A) → (ℕ → Exec A) → Result Session → Exec A
  session_found refuse next (err e) = pure (refuse (unauthorized "session expired"))
  session_found refuse next (ok s) = next s.user_id

  abbrev pub session_of : String → Exec Session
  session_of id w = query env ctx (get_session (env.nanos w.clock) id) w

  -- `RequireSession`: the request goes on with the user of the session.
  unfoldable pub require_session {ℓ} :
      {A : Type ℓ} → (Response → A) → Option String → (ℕ → Exec A) → Exec A
  unfolding get_session
  require_session refuse none next = pure (refuse (unauthorized "unauthenticated"))
  require_session refuse (some id) next =
      if id == ""
      then pure (refuse (unauthorized "unauthenticated"))
      else (do s ← attempt (session_of id); session_found refuse next s)
