-- ===== src/Auth/Accounts.antt =====
-- There is one account, whatever requests come in.
use bandolier.Prelude.{
  ℕ, String, Bool, true, false, ◌≡◌, refl, ap, sym, subst, ◌∙◌, List, [], ◌∷◌, Option, none, some,
  ◌==◌, if◌then◌else◌, arith, ltb, eqb, length, ◌⊎◌, inl, inr, Bool-cases,
}
use bandolier.Result.{Result, ok, err}
use bandolier.Store.Tables.{Db, User}
use bandolier.Store.Users.{count_users, get_session, create_user, set_hash}
use bandolier.World.{Ctx, Env, World}
use bandolier.World.Exec.{Exec, pure, ignore, ◌>>=◌}
use bandolier.World.Returns.{Never, Returns, SpecR, SpecR-weaken, if-SpecR, statement_ok-Spec}
use bandolier.World.Attempts.{SpecR-attempt, SpecR-attempt-query}
use bandolier.Auth.Writes.{SpecR-at_time}
use bandolier.Auth.{
  Answer, setup, setup_counted, setup_first, setup_hashed, plain, login, logout,
  change_user_password, require_session,
}
use bandolier.Auth.Keeping.{query-Users, answer-SpecR, audited-SpecR, login-SpecR, logout-SpecR}
use bandolier.Auth.Passwords.{is_done, ChangedIf, Users, change_user_password-ChangedIf}

-- The requests of the package that change the database.
pub data AuthRequest : Type 0 where
  setup_request login_request : Option String → AuthRequest
  logout_request : Option String → AuthRequest
  -- the session cookie, and the body
  change_request : Option String → Option (String × String) → AuthRequest

-- The routes of httpserver/server.go: only the change of the password requires a session, so a
-- logout has no user in its context.
abbrev pub serve_auth : Env → Ctx → AuthRequest → Exec Answer
serve_auth env ctx (setup_request body) = setup env ctx body
serve_auth env ctx (login_request body) = login env ctx body
serve_auth env ctx (logout_request cookie) = logout env ctx cookie none
serve_auth env ctx (change_request cookie body) =
    require_session env ctx plain cookie (λ uid. change_user_password env ctx (some uid) body)

-- The requests in the order in which they are served, each with its context.
unfoldable pub serve_each : Env → List (Ctx × AuthRequest) → Exec (Unit {0})
serve_each env [] = pure tt
serve_each env (r ∷ rs) = ignore (serve_auth env r.0 r.1) >>= λ u. serve_each env rs

abbrev pub account : String → User
account hash = record { id = 1; password_hash = hash }

-- Nobody, or the user 1 alone.
abbrev pub IsSingle : List User → Type 0
IsSingle us = (us ≡ []) ⊎ ((hash : String) × (us ≡ account hash ∷ []))

single_row :
    (id : ℕ) (hash old : String)
    → set_hash id hash (account old ∷ []) ≡ account (if eqb 1 id then hash else old) ∷ []
single_row id hash old = elim (Bool-cases (eqb 1 id)) [ inl e ↦ rw e refl | inr e ↦ rw e refl ]

IsSingle-set_hash :
    (id : ℕ) (hash : String) (us : List User) → IsSingle us → IsSingle (set_hash id hash us)
IsSingle-set_hash id hash us (inl e) = inl (ap (set_hash id hash) e)
IsSingle-set_hash id hash us (inr (old, e)) =
    inr (if eqb 1 id then hash else old, ap (set_hash id hash) e ∙ single_row id hash old)

no_users : (us : List User) → ltb 0 (length us) ≡ false → us ≡ []
no_users [] h = refl
no_users (u ∷ us) h = ground arith

changed-IsSingle :
    (env : Env) (uid : Option ℕ) (body : Option (String × String)) (w v : World) (b : Bool)
    → IsSingle w.db.users
    → ChangedIf env uid body w v b
    → IsSingle v.db.users
changed-IsSingle env uid body w v true single c =
    subst IsSingle (sym c.users) (IsSingle-set_hash c.id c.hash w.db.users single)
changed-IsSingle env uid body w v false single c = subst IsSingle (sym c) single

changed-Returns :
    (env : Env) (uid : Option ℕ) (body : Option (String × String)) (w v : World) (r : Result Answer)
    → IsSingle w.db.users
    → Returns (λ a x. ChangedIf env uid body w x (is_done a.response)) Never r v
    → Returns (λ a x. IsSingle x.db.users) Never r v
changed-Returns env uid body w v (ok a) single c =
    changed-IsSingle env uid body w v (is_done a.response) single c
changed-Returns env uid body w v (err e) single c = c

counted :
    (db : Db) (n : ℕ)
    → ◌≡◌ {A = Result ℕ} (ok (count_users db)) (ok n)
    → ltb 0 n ≡ false
    → ltb 0 (length db.users) ≡ false
unfolding count_users
counted db n e h = ground arith

create_user-first :
    (hash : String) (db : Db) → db.users ≡ [] → (create_user hash db).1.users ≡ account hash ∷ []
unfolding create_user
create_user-first hash db e = rw e refl

module _ (env : Env) (ctx : Ctx) (w₀ : World) (single : IsSingle w₀.db.users) where
  abbrev Single : World → Type 0
  Single w = IsSingle w.db.users

  abbrev Same : World → Type 0
  Same = Users w₀.db.users

  of_Users : (m : Exec Answer) → SpecR Same (λ a. Same) Never m → SpecR Same (λ a. Single) Never m
  of_Users m sm = SpecR-weaken m (λ a w e. subst IsSingle (sym e) single) sm

  changed-SpecR :
      (uid : Option ℕ) (body : Option (String × String))
      → SpecR Same (λ a. Single) Never (change_user_password env ctx uid body)
  changed-SpecR uid body = record {
    at = λ w e.
        changed-Returns env uid body w _ _ (subst IsSingle (sym e) single)
          (change_user_password-ChangedIf env ctx uid body w);
  }

  with_session-SpecR :
      (cookie : Option String) (body : Option (String × String))
      → SpecR Same
          (λ a. Single)
          Never
          (require_session env ctx plain cookie
            (λ uid. change_user_password env ctx (some uid) body))
  unfolding require_session
  with_session-SpecR none body = of_Users _ (answer-SpecR env ctx w₀.db.users _)
  with_session-SpecR (some id) body =
      if-SpecR (id == "") _ _ (λ e. of_Users _ (answer-SpecR env ctx w₀.db.users _))
        (λ e.
          SpecR-attempt Same Same _ _
            (record {
              at = λ w h.
                  (query-Users env ctx w₀.db.users (get_session (env.nanos w.clock) id)).at w h;
            })
            (λ s. changed-SpecR (some s.user_id) body)
            (λ e. of_Users _ (answer-SpecR env ctx w₀.db.users _)))

  module _ (empty : w₀.db.users ≡ []) where
    hashed-SpecR :
        (hash : Option String) → SpecR Same (λ a. Single) Never (setup_hashed env ctx hash)
    unfolding create_user
    hashed-SpecR none = of_Users _ (audited-SpecR env ctx w₀.db.users _ _ _ _ _)
    hashed-SpecR (some hash) =
        SpecR-attempt (Users (account hash ∷ [])) Same _ _
          (statement_ok-Spec env ctx _ (λ w h. h) (λ w h. create_user-first hash w.db (h ∙ empty)))
          (λ u.
            SpecR-weaken _ (λ a w e. inr (hash, e))
              (audited-SpecR env ctx (account hash ∷ []) 1 _ _ _ _))
          (λ e. of_Users _ (audited-SpecR env ctx w₀.db.users _ _ _ _ _))

    first-SpecR : (body : Option String) → SpecR Same (λ a. Single) Never (setup_first env ctx body)
    first-SpecR none = of_Users _ (audited-SpecR env ctx w₀.db.users _ _ _ _ _)
    first-SpecR (some password) =
        if-SpecR (password == "") _ _
          (λ e. of_Users _ (audited-SpecR env ctx w₀.db.users _ _ _ _ _))
          (λ e. SpecR-at_time _ _ hashed-SpecR)

  Same-db :
      (m : Exec Answer)
      → SpecR Same (λ a. Single) Never m
      → SpecR (λ w. w.db ≡ w₀.db) (λ a. Single) Never m
  Same-db m sm = record { at = λ w e. sm.at w (ap (λ d. d.users) e) }

  setup-SpecR :
      (body : Option String) → SpecR (λ w. w.db ≡ w₀.db) (λ a. Single) Never (setup env ctx body)
  unfolding setup
  setup-SpecR body =
      SpecR-attempt-query w₀.db env ctx (λ db. ok (count_users db)) (setup_counted env ctx body)
        (λ w e. e) (λ w e. e)
        (λ n e. Same-db _ (
          if-SpecR (ltb 0 n) _ _ (λ h. of_Users _ (audited-SpecR env ctx w₀.db.users _ _ _ _ _))
            (λ h. first-SpecR (no_users w₀.db.users (counted w₀.db n e h)) body)))
        (λ e. Same-db _ (of_Users _ (answer-SpecR env ctx w₀.db.users _)))

  serve-SpecR :
      (r : AuthRequest) → SpecR (λ w. w.db ≡ w₀.db) (λ a. Single) Never (serve_auth env ctx r)
  serve-SpecR (setup_request body) = setup-SpecR body
  serve-SpecR (login_request body) = Same-db _ (of_Users _ (login-SpecR env ctx w₀.db.users body))
  serve-SpecR (logout_request cookie) =
      Same-db _ (of_Users _ (logout-SpecR env ctx w₀.db.users cookie none))
  serve-SpecR (change_request cookie body) = Same-db _ (with_session-SpecR cookie body)

settled-IsSingle :
    (r : Result Answer) (w : World)
    → Returns (λ a x. IsSingle x.db.users) Never r w
    → IsSingle w.db.users
settled-IsSingle (ok a) w h = h
settled-IsSingle (err e) w h = absurd h

-- Whatever requests to set up, log in, log out and change the password come in, one after the
-- other: if there was no user or the user 1 alone, then so it is in the end.
pub serve_each-IsSingle :
    (env : Env) (rs : List (Ctx × AuthRequest)) (w : World)
    → IsSingle w.db.users
    → IsSingle (serve_each env rs w).1.db.users
unfolding serve_each pure ignore ◌>>=◌
serve_each-IsSingle env [] w h = h
serve_each-IsSingle env (r ∷ rs) w h =
    serve_each-IsSingle env rs (serve_auth env r.0 r.1 w).1
      (settled-IsSingle (serve_auth env r.0 r.1 w).0 _ ((serve-SpecR env r.0 w h r.1).at w refl))
