-- ===== src/Auth/Token/SigningKey/Laws.antt =====
-- The signing key stays the same.
use bandolier.Prelude.{
  ℕ, String, Bool, true, false, ◌≡◌, refl, ap, subst, ◌∙◌, [], ◌∷◌, Option, none, some, ◌==◌,
  lookup, lookup-insert,
}
use bandolier.Result.{Error, Result, ok, err, failure}
use bandolier.World.{Ctx, Env, World, Value, Secret}
use bandolier.World.Exec.{Exec, raise, attempt, ◌>>=◌}
use bandolier.World.Calls.{vault_get, vault_put, text_field, ctx_done, guarded, tick}
use bandolier.World.Triples.{Spec}
use bandolier.World.Returns.{Returns, SpecR, SpecR-bind, SpecR-pure, if-SpecR, guarded-Two}
use bandolier.Auth.{at_time}
use bandolier.Auth.Token.SigningKey.{
  KeySource, signing_key_path, decoded_key, persist_key, ensure_ws_signing_key,
}

-- The path holds a text that is read as the key.
record Stored (source : KeySource) (key : String) (w : World) : Type 0 where
  secret : Secret
  found : lookup signing_key_path w.vault ≡ some secret
  given : (text_field "key" secret == "") ≡ false
  reads : source.read (text_field "key" secret) ≡ some key

abbrev Always : World → Type 0
Always w = Unit

Returns-value :
    {E F : World → Type 0} {A B : Type 0} {Q : A → World → Type 0} {R : B → World → Type 0}
    (f : Result A → Exec B)
    → ((a : A) → SpecR (Q a) R E (f (ok a)))
    → ((e : Error) → SpecR F R E (f (err e)))
    → (r : Result A) (w : World) → Returns Q F r w
    → Returns R E (f r w).0 (f r w).1
Returns-value f good bad (ok a) w q = (good a).at w q
Returns-value f good bad (err e) w q = (bad e).at w q

SpecR-attempt-value :
    {P E F : World → Type 0} {A B : Type 0} {Q : A → World → Type 0} {R : B → World → Type 0}
    (m : Exec A) (f : Result A → Exec B)
    → SpecR P Q F m
    → ((a : A) → SpecR (Q a) R E (f (ok a)))
    → ((e : Error) → SpecR F R E (f (err e)))
    → SpecR P R E (attempt m >>= f)
unfolding attempt ◌>>=◌
SpecR-attempt-value m f sm good bad = record {
  at = λ w p. Returns-value f good bad (m w).0 (m w).1 (sm.at w p);
}

guarded-Returns :
    {A : Type 0} (Q : A → World → Type 0) (E : World → Type 0) (b : Bool) (e : Error)
    (p : Result A × World) (w : World)
    → E w
    → Returns Q E p.0 p.1
    → Returns Q E (guarded b e p w).0 (guarded b e p w).1
guarded-Returns Q E true e p w h k = h
guarded-Returns Q E false e p w h k = k

abbrev Found : Secret → World → Type 0
Found s w = lookup signing_key_path w.vault ≡ some s

looked_up :
    (o : Option Secret) (w : World)
    → lookup signing_key_path w.vault ≡ o
    → Returns Found Always (elim o [ none ↦ err (failure "vault get") | some s ↦ ok s ]) w
looked_up none w h = tt
looked_up (some s) w h = h

vault_get-Found :
    (env : Env) (ctx : Ctx) → SpecR Always Found Always (vault_get env ctx signing_key_path)
unfolding vault_get
vault_get-Found env ctx = record {
  at = λ w p. guarded-Returns Found Always (ctx_done ctx w.clock) _ _ (tick w) tt (
      guarded-Returns Found Always (env.vault_fails w.clock) _ _ (tick w) tt
        (looked_up (lookup signing_key_path w.vault) (tick w) refl));
}

vault_put-Found :
    (env : Env) (ctx : Ctx) (s : Secret)
    → Spec Always (Found s) Always (vault_put env ctx signing_key_path s)
unfolding vault_put
vault_put-Found env ctx s = record {
  at = λ w p. guarded-Two (Found s) Always (ctx_done ctx w.clock) _ _ (tick w) tt (
      guarded-Two (Found s) Always (env.vault_fails w.clock) _ _ (tick w) tt
        (lookup-insert signing_key_path signing_key_path s w.vault));
}

raise-SpecR :
    {P : World → Type 0} {A : Type 0} (R : A → World → Type 0) (e : Error)
    → SpecR P R Always (raise e)
unfolding raise
raise-SpecR R e = record { at = λ w p. tt }

-- What the source makes is printed as a text that is not empty, and read back.
pub record Prints (source : KeySource) : Type 0 where
  pub given : (n : ℕ) (key : String) → source.fresh n ≡ some key → (source.print key == "") ≡ false
  pub reads :
      (n : ℕ) (key : String) → source.fresh n ≡ some key → source.read (source.print key) ≡ some key

module _ (env : Env) (ctx : Ctx) (source : KeySource) where
  abbrev R : String → World → Type 0
  R = Stored source

  persist-SpecR :
      (o : Option String)
      → ((key : String) → o ≡ some key → (source.print key == "") ≡ false)
      → ((key : String) → o ≡ some key → source.read (source.print key) ≡ some key)
      → SpecR Always R Always (persist_key env ctx source o)
  unfolding text_field lookup
  persist-SpecR none given reads = raise-SpecR R _
  persist-SpecR (some key) given reads = SpecR-bind _ _ (vault_put-Found env ctx _) (λ u.
      SpecR-pure key (λ w h. record {
        secret = ("key", Value.text (source.print key)) ∷ [];
        found = h;
        given = given key refl;
        reads = reads key refl;
      }))

  module _ (prints : Prints source) where
    new-SpecR : SpecR Always R Always (at_time source.fresh >>= persist_key env ctx source)
    unfolding at_time ◌>>=◌
    new-SpecR = record {
      at = λ w p.
          (persist-SpecR (source.fresh w.clock) (prints.given w.clock) (prints.reads w.clock)).at w
            p;
    }

    decoded-SpecR :
        (s : Secret) (o : Option String)
        → (text_field "key" s == "") ≡ false
        → source.read (text_field "key" s) ≡ o
        → SpecR (Found s) R Always (decoded_key env ctx source o)
    decoded-SpecR s none given reads = raise-SpecR R _
    decoded-SpecR s (some key) given reads =
        SpecR-pure key (λ w h. record { secret = s; found = h; given = given; reads = reads })

    ensure-SpecR : SpecR Always R Always (ensure_ws_signing_key env ctx source)
    unfolding ensure_ws_signing_key
    ensure-SpecR =
        SpecR-attempt-value _ _ (vault_get-Found env ctx)
          (λ s.
            if-SpecR (text_field "key" s == "") _ _ (λ e. record { at = λ w h. new-SpecR.at w tt })
              (λ e. decoded-SpecR s (source.read (text_field "key" s)) e refl))
          (λ e. new-SpecR)

-- A path that holds the key, and a Vault that answers.
ensure-Stored :
    (env : Env) (ctx : Ctx) (source : KeySource) (key : String) (v : World)
    → Stored source key v
    → ctx_done ctx v.clock ≡ false
    → env.vault_fails v.clock ≡ false
    → ensure_ws_signing_key env ctx source v ≡ (ok key, tick v)
unfolding ensure_ws_signing_key vault_get attempt ◌>>=◌
ensure-Stored env ctx source key v h live quiet = rw (live, quiet, h.found, h.given, h.reads) refl

returned-Stored :
    (source : KeySource) (key : String) (r : Result String) (w : World)
    → r ≡ ok key
    → Returns (Stored source) Always r w
    → Stored source key w
returned-Stored source key (ok k) w e h =
    let same : k ≡ key = cc in subst (λ k. Stored source k w) same h
returned-Stored source key (err x) w e h = cc

-- Take a source whose keys are printed as texts that are not empty and read back, and a call that
-- returned a key. Each later call while Vault has the same secrets, answers, and the context is not
-- cancelled returns the same key, and changes nothing.
pub ensure_ws_signing_key_lem :
    (env : Env) (ctx late : Ctx) (source : KeySource) (key : String) (w v : World)
    → Prints source
    → (ensure_ws_signing_key env ctx source w).0 ≡ ok key
    → v.vault ≡ (ensure_ws_signing_key env ctx source w).1.vault
    → ctx_done late v.clock ≡ false
    → env.vault_fails v.clock ≡ false
    → ensure_ws_signing_key env late source v ≡ (ok key, tick v)
ensure_ws_signing_key_lem env ctx late source key w v prints run same live quiet =
    let s =
      returned-Stored source key (ensure_ws_signing_key env ctx source w).0
        (ensure_ws_signing_key env ctx source w).1 run
        ((ensure-SpecR env ctx source prints).at w tt) in
    ensure-Stored env late source key v
      (record {
        secret = s.secret;
        found = ap (lookup signing_key_path) same ∙ s.found;
        given = s.given;
        reads = s.reads;
      })
      live quiet
