-- ===== src/World/Rules.antt =====
-- Rules for the calls that leave the process.
use bandolier.Prelude.{ℕ, suc, Bool, true, false, ◌≡◌, refl}
use bandolier.Result.{Error, Result, ok, err, ctx_cancelled, failure}
use bandolier.Store.Tables.{Db}
use bandolier.World.{Ctx, Env, World}
use bandolier.World.Exec.{Exec, ignore, ◌>>=◌}
use bandolier.World.Calls.{statement, query, guarded, tick, ctx_done, background}
use bandolier.World.Triples.{Spec, Ends, Ends-either}

module _ (I : World → Type 0) where
  pub Ends-always : {A : Type 0} (r : Result A) (w : World) → I w → Ends I I r w
  Ends-always (ok a) w i = i
  Ends-always (err e) w i = i

  pub guarded-Ends :
      {A : Type 0} (b : Bool) (e : Error) (p : Result A × World) (w : World)
      → I w
      → Ends I I p.0 p.1
      → Ends I I (guarded b e p w).0 (guarded b e p w).1
  guarded-Ends true e p w i k = i
  guarded-Ends false e p w i k = k

-- A predicate that no statement can change.
abbrev pub IsLoose : (World → Type 0) → Type 0
IsLoose J = (db : Db) (w : World) → J w → J (record w { clock = suc w.clock; db = db })

module _ {J : World → Type 0} (loose : IsLoose J) (env : Env) where
  pub statement-Spec :
      {A : Type 0} (ctx : Ctx) (body : ℕ → Db → Result A × Db) → Spec J J J (statement env ctx body)
  unfolding statement
  statement-Spec ctx body = record {
    at = λ w j. guarded-Ends J (ctx_done ctx w.clock) ctx_cancelled _ (tick w) (loose w.db w j) (
        guarded-Ends J (env.sql_fails w.clock) (failure "database error") _ (tick w)
          (loose w.db w j) (Ends-always J _ _ (loose (body w.clock w.db).1 w j)));
  }

-- A database that does not fail: what a statement does on a live context.
pub statement_quiet :
    (env : Env) {A : Type 0} (ctx : Ctx) (body : ℕ → Db → Result A × Db) (w : World)
    → ((n : ℕ) → env.sql_fails n ≡ false)
    → ctx_done ctx w.clock ≡ false
    → statement env ctx body w
      ≡ ((body w.clock w.db).0, record w { clock = suc w.clock; db = (body w.clock w.db).1 })
unfolding statement
statement_quiet env ctx body w quiet live = rw (live, quiet w.clock) refl

pub query_quiet :
    (env : Env) {A : Type 0} (ctx : Ctx) (body : Db → Result A) (w : World)
    → ((n : ℕ) → env.sql_fails n ≡ false)
    → ctx_done ctx w.clock ≡ false
    → query env ctx body w ≡ (body w.db, tick w)
unfolding query
query_quiet env ctx body w quiet live = rw (live, quiet w.clock) refl

-- On a cancelled context it is not run.
pub statement_cancelled :
    (env : Env) {A : Type 0} (ctx : Ctx) (body : ℕ → Db → Result A × Db) (w : World)
    → ctx_done ctx w.clock ≡ true
    → statement env ctx body w ≡ (err ctx_cancelled, tick w)
unfolding statement
statement_cancelled env ctx body w done = rw done refl

-- The rest of the code runs from where the action ended.
pub bind-ok :
    {A B : Type 0} (m : Exec A) (k : A → Exec B) (a : A) (w w' : World)
    → m w ≡ (ok a, w')
    → (m >>= k) w ≡ k a w'
unfolding ◌>>=◌
bind-ok m k a w w' e = rw e refl

pub bind-err :
    {A B : Type 0} (m : Exec A) (k : A → Exec B) (x : Error) (w w' : World)
    → m w ≡ (err x, w')
    → (m >>= k) w ≡ (err x, w')
unfolding ◌>>=◌
bind-err m k x w w' e = rw e refl

-- No statement fails, and the context is never cancelled.
pub record IsQuiet (env : Env) : Type 0 where
  pub sql : (n : ℕ) → env.sql_fails n ≡ false

pub record IsLive (ctx : Ctx) : Type 0 where
  pub never : (n : ℕ) → ctx_done ctx n ≡ false

abbrev pub background-IsLive : IsLive background
background-IsLive = record { never = λ n. refl }

-- A statement of a quiet database on a live context does what its body does.
pub statement_live-Spec :
    {P Q E : World → Type 0} {A : Type 0} (env : Env) (ctx : Ctx)
    → IsQuiet env
    → IsLive ctx
    → (body : ℕ → Db → Result A × Db)
    → ((w : World)
        → P w
        → Ends Q Q
            (body w.clock w.db).0
            (record w { clock = suc w.clock; db = (body w.clock w.db).1 }))
    → Spec P Q E (ignore (statement env ctx body))
unfolding ignore
statement_live-Spec {Q} env ctx quiet live body step = record {
  at = λ w p.
      rw (statement_quiet env ctx body w quiet.sql (live.never w.clock))
        (Ends-either Q (body w.clock w.db).0 _ (step w p));
}

-- The same for a statement whose error is looked at.
pub statement_sure-Spec :
    {P Q E : World → Type 0} {A : Type 0} (env : Env) (ctx : Ctx)
    → IsQuiet env
    → IsLive ctx
    → (body : ℕ → Db → Result A × Db)
    → ((w : World)
        → P w
        → Ends Q E
            (body w.clock w.db).0
            (record w { clock = suc w.clock; db = (body w.clock w.db).1 }))
    → Spec P Q E (statement env ctx body)
statement_sure-Spec env ctx quiet live body step = record {
  at = λ w p. rw (statement_quiet env ctx body w quiet.sql (live.never w.clock)) (step w p);
}

-- An action that keeps nothing may end anyhow.
pub any-Spec :
    {A : Type 0} {P : World → Type 0} (m : Exec A) → Spec P (λ v. Unit {0}) (λ v. Unit {0}) m
any-Spec m = record { at = λ w p. Ends-always (λ v. Unit {0}) (m w).0 (m w).1 tt }
