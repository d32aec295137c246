-- ===== src/World/Attempts.antt =====
-- Rules for code that goes on after an error: the value and the error as two continuations.
use bandolier.Prelude.{Bool, true, false, ◌≡◌, refl}
use bandolier.Result.{Error, Result, ok, err, ctx_cancelled, failure}
use bandolier.Store.Tables.{Db}
use bandolier.World.{Ctx, Env, World}
use bandolier.World.Exec.{Exec, attempt, ◌>>=◌}
use bandolier.World.Calls.{query, guarded, tick, ctx_done}
use bandolier.World.Triples.{Spec, Ends}
use bandolier.World.Returns.{SpecR, Returns}

both-Returns :
    {A B : Type 0} (Q E' : World → Type 0) (R : B → World → Type 0) (E : World → Type 0)
    (f : Result A → Exec B)
    → ((a : A) → SpecR Q R E (f (ok a)))
    → ((e : Error) → SpecR E' R E (f (err e)))
    → (r : Result A) (w : World) → Ends Q E' r w
    → Returns R E (f r w).0 (f r w).1
both-Returns Q E' R E f sf sh (ok a) w q = (sf a).at w q
both-Returns Q E' R E f sf sh (err e) w q = (sh e).at w q

pub SpecR-attempt :
    {P E : World → Type 0} {A B : Type 0} {R : B → World → Type 0} (Q E' : World → Type 0)
    (m : Exec A) (f : Result A → Exec B)
    → Spec P Q E' m
    → ((a : A) → SpecR Q R E (f (ok a)))
    → ((e : Error) → SpecR E' R E (f (err e)))
    → SpecR P R E (attempt m >>= f)
unfolding attempt ◌>>=◌
SpecR-attempt {E} {R} Q E' m f sm sf sh = record {
  at = λ w p. both-Returns Q E' R E f sf sh (m w).0 (m w).1 (sm.at w p);
}

answer-Returns :
    {A B : Type 0} (P E : World → Type 0) (R : B → World → Type 0) (f : Result A → Exec B)
    (r : Result A)
    → ((a : A) → r ≡ ok a → SpecR P R E (f (ok a)))
    → ((e : Error) → SpecR P R E (f (err e)))
    → (w : World) → P w
    → Returns R E (f r w).0 (f r w).1
answer-Returns P E R f (ok a) sf sh w p = (sf a refl).at w p
answer-Returns P E R f (err x) sf sh w p = (sh x).at w p

guarded-Returns :
    {A B : Type 0} (E : World → Type 0) (R : B → World → Type 0) (f : Result A → Exec B) (b : Bool)
    (x : Error) (p : Result A × World) (w : World)
    → Returns R E (f (err x) w).0 (f (err x) w).1
    → Returns R E (f p.0 p.1).0 (f p.0 p.1).1
    → Returns R E
        (f (guarded b x p w).0 (guarded b x p w).1).0
        (f (guarded b x p w).0 (guarded b x p w).1).1
guarded-Returns E R f true x p w e k = e
guarded-Returns E R f false x p w e k = k

-- A query whose answer, if there is one, is that of the database `db`.
pub SpecR-attempt-query :
    {P E : World → Type 0} {A B : Type 0} {R : B → World → Type 0} (db : Db) (env : Env) (ctx : Ctx)
    (body : Db → Result A) (f : Result A → Exec B)
    → ((w : World) → P w → w.db ≡ db)
    → ((w : World) → P w → P (tick w))
    → ((a : A) → body db ≡ ok a → SpecR P R E (f (ok a)))
    → ((e : Error) → SpecR P R E (f (err e)))
    → SpecR P R E (attempt (query env ctx body) >>= f)
unfolding attempt query ◌>>=◌
SpecR-attempt-query {P} {E} {R} db env ctx body f same later sf sh = record {
  at = λ w p.
      guarded-Returns E R f (ctx_done ctx w.clock) ctx_cancelled _ (tick w)
        ((sh ctx_cancelled).at (tick w) (later w p))
        (guarded-Returns E R f (env.sql_fails w.clock) (failure "database error") _ (tick w)
          ((sh (failure "database error")).at (tick w) (later w p))
          (answer-Returns P E R f (body w.db) (rw (same w p) sf) sh (tick w) (later w p)));
}
