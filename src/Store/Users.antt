-- ===== src/Store/Users.antt =====
-- api/internal/store/users.go and sessions.go. A session's time is in nanoseconds.
use bandolier.Prelude.{
  ℕ, suc, ◌+◌, ◌*◌, ◌/◌, String, Bool, not, List, [], ◌∷◌, ◌++◌, Option, none, some, ◌==◌,
  if◌then◌else◌, keep, length, leb, eqb, find_row,
}
use bandolier.Result.{Result, ok, err, not_found, failure}
use bandolier.Store.Tables.{User, Session, Db}
use bandolier.Store.Clusters.{has_row}
use bandolier.Store.Deployments.{has_user}

abbrev pub max_id : List User → ℕ
max_id [] = 0
max_id (u ∷ us) = let m = max_id us in if leb m u.id then u.id else m

-- `INTEGER PRIMARY KEY`: one more than the greatest id.
unfoldable pub create_user : String → Db → Result User × Db
create_user hash db =
    let u : User = record { id = suc (max_id db.users); password_hash = hash } in
    (ok u, record db { users = db.users ++ u ∷ [] })

abbrev pub find_user : ℕ → List User → Option User
find_user id [] = none
find_user id (u ∷ us) = if eqb u.id id then some u else find_user id us

unfoldable pub get_user_by_id : ℕ → Db → Result User
get_user_by_id id db = elim (find_user id db.users) [ none ↦ err not_found | some u ↦ ok u ]

unfoldable pub count_users : Db → ℕ
count_users db = length db.users

abbrev pub set_hash : ℕ → String → List User → List User
set_hash id hash [] = []
set_hash id hash (u ∷ us) =
    (if eqb u.id id then record u { password_hash = hash } else u) ∷ set_hash id hash us

unfoldable pub update_user_password : ℕ → String → Db → Result (Unit {0}) × Db
update_user_password id hash db =
    if has_user id db.users
    then (ok tt, record db { users = set_hash id hash db.users })
    else (err not_found, db)

abbrev pub nanosecond_rate : ℕ
nanosecond_rate = 1_000_000_000

-- `now` in nanoseconds. The primary key, and the reference to the user.
unfoldable pub create_session : ℕ → String → ℕ → ℕ → Db → Result (Unit {0}) × Db
create_session now id user_id ttl_seconds db =
    if has_row (λ s. s.id) id db.sessions
    then (err (failure "UNIQUE constraint failed: sessions.id"), db)
    else (if has_user user_id db.users
        then (
          ok tt,
          record db {
            sessions =
                db.sessions
                ++ record {
                  id = id;
                  user_id = user_id;
                  expires_at = now + ttl_seconds * nanosecond_rate;
                }
                  ∷ [];
          },
        )
        else (err (failure "FOREIGN KEY constraint failed"), db))

-- `expires_at > CURRENT_TIMESTAMP` compares texts: the column has a fraction and an offset, and
-- CURRENT_TIMESTAMP ends with the second, so within one second the column is the greater.
abbrev pub is_current : ℕ → Session → Bool
is_current now s = leb (now / nanosecond_rate) (s.expires_at / nanosecond_rate)

abbrev pub if_current : ℕ → Session → Result Session
if_current now s = if is_current now s then ok s else err not_found

unfoldable pub get_session : ℕ → String → Db → Result Session
get_session now id db = elim (find_row (λ s. s.id) id db.sessions) [
  | none ↦ err not_found
  | some s ↦ if_current now s
]

unfoldable pub delete_session : String → Db → Result (Unit {0}) × Db
delete_session id db = (ok tt, record db { sessions = keep (λ s. not (s.id == id)) db.sessions })
