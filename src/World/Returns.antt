-- ===== src/World/Returns.antt =====
-- Specifications whose end depends on the value that is returned.
use bandolier.Prelude.{ℕ, suc, Bool, true, false, ◌≡◌, refl, if◌then◌else◌}
use bandolier.Result.{Error, Result, ok, err, ctx_cancelled, failure}
use bandolier.Store.Tables.{Db}
use bandolier.World.{Ctx, Env, World}
use bandolier.World.Exec.{Exec, pure, on_error, ◌>>=◌, continue, rethrow, modify}
use bandolier.World.Calls.{statement, query, guarded, tick, ctx_done}
use bandolier.World.Triples.{Spec, Ends}

-- No state at all: the action does not end this way.
abbrev pub Never : World → Type 0
Never w = ⊥

abbrev pub Returns :
    {A : Type 0} → (A → World → Type 0) → (World → Type 0) → Result A → World → Type 0
Returns Q E (ok a) w = Q a w
Returns Q E (err e) w = E w

pub record SpecR {A : Type 0} (P : World → Type 0) (Q : A → World → Type 0) (E : World → Type 0)
    (m : Exec A) : Type 0 where
  pub at : (w : World) → P w → Returns Q E (m w).0 (m w).1

continue-Returns :
    {A B : Type 0} (Q : World → Type 0) (R : B → World → Type 0) (E : World → Type 0)
    (f : A → Exec B)
    → ((a : A) → SpecR Q R E (f a))
    → (r : Result A) (w : World) → Ends Q E r w
    → Returns R E (continue f r w).0 (continue f r w).1
continue-Returns Q R E f sf (ok a) w q = (sf a).at w q
continue-Returns Q R E f sf (err e) w q = q

pub SpecR-bind :
    {P Q E : World → Type 0} {A B : Type 0} {R : B → World → Type 0} (m : Exec A) (f : A → Exec B)
    → Spec P Q E m
    → ((a : A) → SpecR Q R E (f a))
    → SpecR P R E (m >>= f)
unfolding ◌>>=◌
SpecR-bind {Q} {E} {R} m f sm sf = record {
  at = λ w p. continue-Returns Q R E f sf (m w).0 (m w).1 (sm.at w p);
}

pub SpecR-pure :
    {P E : World → Type 0} {A : Type 0} {Q : A → World → Type 0} (a : A)
    → ((w : World) → P w → Q a w)
    → SpecR P Q E (pure a)
unfolding pure
SpecR-pure a h = record { at = h }

Returns-map :
    {A : Type 0} (Q Q' : A → World → Type 0) (E : World → Type 0)
    → ((a : A) (w : World) → Q' a w → Q a w)
    → (r : Result A) (w : World) → Returns Q' E r w
    → Returns Q E r w
Returns-map Q Q' E h (ok a) w q = h a w q
Returns-map Q Q' E h (err e) w q = q

pub SpecR-weaken :
    {P E : World → Type 0} {A : Type 0} {Q Q' : A → World → Type 0} (m : Exec A)
    → ((a : A) (w : World) → Q' a w → Q a w)
    → SpecR P Q' E m
    → SpecR P Q E m
SpecR-weaken {E} {Q} {Q'} m h sm = record {
  at = λ w p. Returns-map Q Q' E h (m w).0 (m w).1 (sm.at w p);
}

rethrow-Ends :
    {A : Type 0} (Q E E' : World → Type 0) (f : World → World)
    → ((w : World) → E' w → E (f w))
    → (r : Result A) (w : World) → Ends Q E' r w
    → Ends Q E (rethrow (modify f) r w).0 (rethrow (modify f) r w).1
unfolding modify
rethrow-Ends Q E E' f h (ok a) w q = q
rethrow-Ends Q E E' f h (err e) w q = h w q

-- The cleanup runs where the action failed.
pub Spec-on_error :
    {P Q E : World → Type 0} {A : Type 0} (E' : World → Type 0) (m : Exec A) (f : World → World)
    → Spec P Q E' m
    → ((w : World) → E' w → E (f w))
    → Spec P Q E (on_error m (modify f))
unfolding on_error
Spec-on_error {Q} {E} E' m f sm h = record {
  at = λ w p. rethrow-Ends Q E E' f h (m w).0 (m w).1 (sm.at w p);
}

pub guarded-Two :
    {A : Type 0} (Q E : World → Type 0) (b : Bool) (e : Error) (p : Result A × World) (w : World)
    → E w
    → Ends Q E p.0 p.1
    → Ends Q E (guarded b e p w).0 (guarded b e p w).1
guarded-Two Q E true e p w i k = i
guarded-Two Q E false e p w i k = k

-- A statement that fails changes nothing; one that returns did what its body does.
pub statement_ok-Spec :
    {P Q E : World → Type 0} {A : Type 0} (env : Env) (ctx : Ctx) (body : ℕ → Db → Result A × Db)
    → ((w : World) → P w → E (tick w))
    → ((w : World)
        → P w
        → Ends Q E
            (body w.clock w.db).0
            (record w { clock = suc w.clock; db = (body w.clock w.db).1 }))
    → Spec P Q E (statement env ctx body)
unfolding statement
statement_ok-Spec {Q} {E} env ctx body h k = record {
  at = λ w p. guarded-Two Q E (ctx_done ctx w.clock) ctx_cancelled _ (tick w) (h w p) (
      guarded-Two Q E (env.sql_fails w.clock) (failure "database error") _ (tick w) (h w p)
        (k w p));
}

found-Returns :
    {A B : Type 0} (P E : World → Type 0) (R : B → World → Type 0) (f : A → Exec B) (r : Result A)
    → ((a : A) → r ≡ ok a → SpecR P R E (f a))
    → (w : World) → P w
    → E w
    → Returns R E (continue f r w).0 (continue f r w).1
found-Returns P E R f (ok a) sf w p e = (sf a refl).at w p
found-Returns P E R f (err x) sf w p e = e

bind-guarded :
    {A B : Type 0} (E : World → Type 0) (R : B → World → Type 0) (f : A → Exec B) (b : Bool)
    (x : Error) (p : Result A × World) (w : World)
    → E w
    → Returns R E (continue f p.0 p.1).0 (continue f p.0 p.1).1
    → Returns R E
        (continue f (guarded b x p w).0 (guarded b x p w).1).0
        (continue f (guarded b x p w).0 (guarded b x p w).1).1
bind-guarded E R f true x p w e k = e
bind-guarded E R f false x p w e k = k

-- A query whose answer is one of the database `db`, and what is known one tick later.
pub SpecR-query-tick :
    {P Q E : World → Type 0} {A B : Type 0} {R : B → World → Type 0} (db : Db) (env : Env)
    (ctx : Ctx) (body : Db → Result A) (f : A → Exec B)
    → ((w : World) → P w → w.db ≡ db)
    → ((w : World) → P w → Q (tick w))
    → ((w : World) → Q w → E w)
    → ((a : A) → body db ≡ ok a → SpecR Q R E (f a))
    → SpecR P R E (query env ctx body >>= f)
unfolding query ◌>>=◌
SpecR-query-tick {Q} {E} {R} db env ctx body f same later stop sf = record {
  at = λ w p.
      bind-guarded E R f (ctx_done ctx w.clock) ctx_cancelled _ (tick w) (stop _ (later w p)) (
        bind-guarded E R f (env.sql_fails w.clock) (failure "database error") _ (tick w)
          (stop _ (later w p))
          (found-Returns Q E R f (body w.db) (rw (same w p) sf) (tick w) (later w p)
            (stop _ (later w p))));
}

pub SpecR-query :
    {P E : World → Type 0} {A B : Type 0} {R : B → World → Type 0} (db : Db) (env : Env) (ctx : Ctx)
    (body : Db → Result A) (f : A → Exec B)
    → ((w : World) → P w → w.db ≡ db)
    → ((w : World) → P w → P (tick w))
    → ((w : World) → P w → E w)
    → ((a : A) → body db ≡ ok a → SpecR P R E (f a))
    → SpecR P R E (query env ctx body >>= f)
SpecR-query {P} db env ctx body f same later stop sf =
    SpecR-query-tick {Q = P} db env ctx body f same later stop sf

-- An end that does not depend on the value.
pub const-Ends :
    {A : Type 0} (Q E : World → Type 0) (r : Result A) (w : World)
    → Returns (λ a. Q) E r w
    → Ends Q E r w
const-Ends Q E (ok a) w q = q
const-Ends Q E (err e) w q = q

Ends-Returns :
    {A : Type 0} (Q : World → Type 0) (R : A → World → Type 0) (E : World → Type 0)
    → ((a : A) (w : World) → Q w → R a w)
    → (r : Result A) (w : World) → Ends Q E r w
    → Returns R E r w
Ends-Returns Q R E h (ok a) w q = h a w q
Ends-Returns Q R E h (err e) w q = q

pub SpecR-of :
    {P Q E : World → Type 0} {A : Type 0} {R : A → World → Type 0} (m : Exec A)
    → Spec P Q E m
    → ((a : A) (w : World) → Q w → R a w)
    → SpecR P R E m
SpecR-of {Q} {E} {R} m sm h = record {
  at = λ w p. Ends-Returns Q R E h (m w).0 (m w).1 (sm.at w p);
}

-- The test of a conditional is known in its branches.
pub if-SpecR :
    {P E : World → Type 0} {A : Type 0} {R : A → World → Type 0} (b : Bool) (m n : Exec A)
    → (b ≡ true → SpecR P R E m)
    → (b ≡ false → SpecR P R E n)
    → SpecR P R E (if b then m else n)
if-SpecR true m n sm sn = sm refl
if-SpecR false m n sm sn = sn refl
