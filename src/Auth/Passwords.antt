-- ===== src/Auth/Passwords.antt =====
-- When a password changes.
use bandolier.Prelude.{
  ℕ, String, Bool, true, false, ◌≡◌, refl, ap, ◌∙◌, List, Option, none, some, arith,
}
use bandolier.Result.{ok, is_ok}
use bandolier.Response.{Response, no_content}
use bandolier.Store.Tables.{Db, User, Action, Outcome, Details}
use bandolier.Store.Audits.{Entry, insert_audit_entry}
use bandolier.Store.Users.{get_user_by_id, update_user_password, set_hash}
use bandolier.World.{Ctx, Env, World, Comparison, matched, mismatched, broken}
use bandolier.World.Exec.{Exec, pure, ◌>>=◌}
use bandolier.World.Triples.{Spec, Spec-ignore, Ends-by}
use bandolier.World.Rules.{Ends-always}
use bandolier.World.Returns.{
  Never, Returns, SpecR, SpecR-bind, SpecR-pure, if-SpecR, statement_ok-Spec,
}
use bandolier.World.Attempts.{SpecR-attempt, SpecR-attempt-query}
use bandolier.Deployments.Effects.{audit}
use bandolier.Auth.{
  Answer, plain, at_time, denied, password_updated, new_hash, current_compared, change_found,
  change_as, change_user_password, too_short,
}

abbrev pub is_done : Response → Bool
is_done no_content = true
is_done _ = false

abbrev pub Users : List User → World → Type 0
Users us w = w.db.users ≡ us

audit-users : (now : ℕ) (e : Entry) (db : Db) → (insert_audit_entry now e db).1.users ≡ db.users
unfolding insert_audit_entry
audit-users now e db = ground arith

pub audit-Users :
    {E : World → Type 0} (us : List User) (env : Env) (ctx : Ctx) (actor : ℕ) (action : Action)
    (target : String) (o : Outcome) (d : Details)
    → Spec (Users us) (Users us) E (audit env ctx actor action target o d)
unfolding audit
audit-Users us env ctx actor action target o d = Spec-ignore _ (
    statement_ok-Spec env ctx _ (λ w h. h)
      (λ w h. Ends-always (Users us) _ _ (audit-users w.clock _ w.db ∙ h)))

-- The user of the context gave the current password and a new one of at least twelve bytes, and
-- the row of that user, and no other, has a hash of the new one.
pub record Changed (env : Env) (uid : Option ℕ) (body : Option (String × String)) (w₀ w : World)
    : Type 0 where
  pub id : ℕ
  pub user : User
  pub passwords : String × String
  pub context : uid ≡ some id
  pub asked : body ≡ some passwords
  pub found : get_user_by_id id w₀.db ≡ ok user
  pub matches : env.crypto.compare_hash user.password_hash passwords.0 ≡ matched
  pub long : too_short passwords.1 ≡ false
  pub hash : String
  pub at : ℕ
  pub hashed : env.crypto.hash_password passwords.1 at ≡ some hash
  pub users : w.db.users ≡ set_hash id hash w₀.db.users

abbrev pub ChangedIf : Env → Option ℕ → Option (String × String) → World → World → Bool → Type 0
ChangedIf env uid body w₀ w true = Changed env uid body w₀ w
ChangedIf env uid body w₀ w false = Users w₀.db.users w

update-ok :
    (id : ℕ) (hash : String) (db : Db)
    → is_ok (update_user_password id hash db).0 ≡ true
    → (update_user_password id hash db).1.users ≡ set_hash id hash db.users
unfolding update_user_password
update-ok id hash db h = ground arith

update-err :
    (id : ℕ) (hash : String) (db : Db)
    → is_ok (update_user_password id hash db).0 ≡ false
    → (update_user_password id hash db).1.users ≡ db.users
unfolding update_user_password
update-err id hash db h = ground arith

module _ (env : Env) (ctx : Ctx) (uid : Option ℕ) (body : Option (String × String))
    (w₀ : World) where
  abbrev R : Answer → World → Type 0
  R a w = ChangedIf env uid body w₀ w (is_done a.response)

  abbrev Same : World → Type 0
  Same = Users w₀.db.users

  kept-SpecR : (r : Response) → is_done r ≡ false → SpecR Same R Never (pure (plain r))
  kept-SpecR r h = SpecR-pure (plain r) (λ w e. rw h e)

  denied-SpecR :
      (actor : ℕ) (action : Action) (reason : String) (r : Response)
      → is_done r ≡ false
      → SpecR Same R Never (denied env ctx actor action reason r)
  denied-SpecR actor action reason r h =
      SpecR-bind {Q = Same} _ _ (audit-Users w₀.db.users env ctx actor action "" _ _)
        (λ u. kept-SpecR r h)

  module _ (id : ℕ) (context : uid ≡ some id) (ps : String × String) (asked : body ≡ some ps)
      (long : too_short ps.1 ≡ false) where
    module _ (u : User) (found : get_user_by_id id w₀.db ≡ ok u)
        (matches : env.crypto.compare_hash u.password_hash ps.0 ≡ matched) where
      done-SpecR :
          (hash : String) (at : ℕ)
          → env.crypto.hash_password ps.1 at ≡ some hash
          → SpecR
              (Users (set_hash id hash w₀.db.users))
              R
              Never
              (password_updated env ctx id (ok tt))
      done-SpecR hash at hashed =
          let us = set_hash id hash w₀.db.users in
          SpecR-bind {Q = Users us} _ _ (audit-Users us env ctx id _ "" _ _) (λ t.
            SpecR-pure _ (λ w e. record {
              id = id;
              user = u;
              passwords = ps;
              context = context;
              asked = asked;
              found = found;
              matches = matches;
              long = long;
              hash = hash;
              at = at;
              hashed = hashed;
              users = e;
            }))

      new_hash-SpecR :
          (o : Option String) (at : ℕ)
          → env.crypto.hash_password ps.1 at ≡ o
          → SpecR Same R Never (new_hash env ctx id o)
      new_hash-SpecR none at e = kept-SpecR _ refl
      new_hash-SpecR (some hash) at e =
          let us = set_hash id hash w₀.db.users in
          SpecR-attempt (Users us) Same _ _
            (statement_ok-Spec env ctx _ (λ w h. h)
              (λ w h.
                Ends-by (Users us) Same _ _
                  (λ k. update-ok id hash w.db k ∙ ap (set_hash id hash) h)
                  (λ k. update-err id hash w.db k ∙ h)))
            (λ t. done-SpecR hash at e) (λ x. kept-SpecR _ refl)

      matched-SpecR : SpecR Same R Never (current_compared env ctx id ps.1 matched)
      unfolding at_time ◌>>=◌
      matched-SpecR = record {
        at = λ w h. (new_hash-SpecR (env.crypto.hash_password ps.1 w.clock) w.clock refl).at w h;
      }

    compared-SpecR :
        (u : User)
        → get_user_by_id id w₀.db ≡ ok u
        → (k : Comparison) → env.crypto.compare_hash u.password_hash ps.0 ≡ k
        → SpecR Same R Never (current_compared env ctx id ps.1 k)
    compared-SpecR u found matched e = matched-SpecR u found e
    compared-SpecR u found mismatched e = denied-SpecR _ _ _ _ refl
    compared-SpecR u found broken e = denied-SpecR _ _ _ _ refl

  Same-db :
      {Q : Answer → World → Type 0} (m : Exec Answer)
      → SpecR Same Q Never m
      → SpecR (λ w. w.db ≡ w₀.db) Q Never m
  Same-db m sm = record { at = λ w e. sm.at w (rw e refl) }

  change_as-SpecR :
      (id : ℕ)
      → uid ≡ some id
      → (o : Option (String × String)) → body ≡ o
      → SpecR (λ w. w.db ≡ w₀.db) R Never (change_as env ctx id o)
  change_as-SpecR id context none asked = Same-db _ (kept-SpecR _ refl)
  change_as-SpecR id context (some ps) asked =
      if-SpecR (too_short ps.1) _ _ (λ e. Same-db _ (kept-SpecR _ refl))
        (λ long.
          SpecR-attempt-query w₀.db env ctx (get_user_by_id id) (change_found env ctx id ps.0 ps.1)
            (λ w e. e) (λ w e. e)
            (λ u found. Same-db _ (compared-SpecR id context ps asked long u found _ refl))
            (λ e. Same-db _ (kept-SpecR _ refl)))

  change-SpecR :
      (o : Option ℕ)
      → uid ≡ o
      → SpecR (λ w. w.db ≡ w₀.db) R Never (change_user_password env ctx o body)
  unfolding change_user_password
  change-SpecR none e = Same-db _ (kept-SpecR _ refl)
  change-SpecR (some id) e = change_as-SpecR id e body refl

-- A change of the password is answered 204 only if the user of the context gave the current
-- password, and the hash of that user, and of no other, is now one of the new password, which has
-- at least twelve bytes. After any other answer the users are as they were.
pub change_user_password-ChangedIf :
    (env : Env) (ctx : Ctx) (uid : Option ℕ) (body : Option (String × String)) (w : World)
    → Returns
        (λ a v. ChangedIf env uid body w v (is_done a.response))
        Never
        (change_user_password env ctx uid body w).0
        (change_user_password env ctx uid body w).1
change_user_password-ChangedIf env ctx uid body w =
    (change-SpecR env ctx uid body w uid refl).at w refl
