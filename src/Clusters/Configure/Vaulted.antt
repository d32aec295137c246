-- ===== src/Clusters/Configure/Vaulted.antt =====
-- What a request to configure a cluster puts into Vault.
use bandolier.Prelude.{ℕ, String, Bool, true, false, ◌≡◌, List, Option, none, some, ap, insert}
use bandolier.Store.Tables.{Details, Outcome, Action}
use bandolier.Result.{Error, ok, err, failure}
use bandolier.Response.{Response, okay}
use bandolier.World.{Ctx, Env, Command, ssh_keygen, World, Secret}
use bandolier.World.Exec.{Exec, pure, continue, ◌>>=◌}
use bandolier.World.Calls.{run_command, tick, ctx_done, vault_get, vault_put}
use bandolier.World.Triples.{Spec, Ends, Spec-ignore}
use bandolier.World.Rules.{IsLoose, statement-Spec, Ends-always, guarded-Ends}
use bandolier.World.Returns.{SpecR, SpecR-bind, SpecR-pure, guarded-Two}
use bandolier.World.Attempts.{SpecR-attempt}
use bandolier.Deployments.Effects.{audit}
use bandolier.Clusters.Settings.{SshConfig}
use bandolier.Clusters.Configure.{generate_ssh_key, reject, abort, store_secret}

abbrev pub is_okay : Response → Bool
is_okay (okay s) = true
is_okay _ = false

abbrev pub Held : List (String × Secret) → World → Type 0
Held v w = w.vault ≡ v

pub Held-IsLoose : (v : List (String × Secret)) → IsLoose (Held v)
Held-IsLoose v db w h = h

pub audit-Held :
    {v : List (String × Secret)} {E : World → Type 0} (env : Env) (ctx : Ctx) (actor : ℕ)
    (action : Action) (target : String) (o : Outcome) (d : Details)
    → Spec (Held v) (Held v) E (audit env ctx actor action target o d)
unfolding audit
audit-Held {v} env ctx actor action target o d =
    Spec-ignore _ (statement-Spec (Held-IsLoose v) env ctx _)

pub vault_get-Held :
    (v : List (String × Secret)) (env : Env) (ctx : Ctx) (path : String)
    → Spec (Held v) (Held v) (Held v) (vault_get env ctx path)
unfolding vault_get
vault_get-Held v env ctx path = record {
  at = λ w h. guarded-Ends (Held v) (ctx_done ctx w.clock) _ _ (tick w) h (
      guarded-Ends (Held v) (env.vault_fails w.clock) _ _ (tick w) h
        (Ends-always (Held v) _ (tick w) h));
}

vault_put-Held :
    (v : List (String × Secret)) (env : Env) (ctx : Ctx) (path : String) (s : Secret)
    → Spec (Held v) (Held (insert path s v)) (Held v) (vault_put env ctx path s)
unfolding vault_put
vault_put-Held v env ctx path s = record {
  at = λ w h. guarded-Two (Held (insert path s v)) (Held v) (ctx_done ctx w.clock) _ _ (tick w) h (
      guarded-Two (Held (insert path s v)) (Held v) (env.vault_fails w.clock) _ _ (tick w) h
        (ap (insert path s) h));
}

pub run_command-Held :
    (v : List (String × Secret)) (env : Env) (k : Command)
    → Spec (Held v) (Held v) (Held v) (run_command env k)
unfolding run_command
run_command-Held v env k = record { at = λ w h. Ends-always (Held v) _ (tick w) h }

keygen-Ends :
    {v : List (String × Secret)} (o : Option String) (keys : SshConfig) (w : World)
    → Held v w
    → Ends
        (Held v)
        (Held v)
        (continue
          (λ (u : Unit {0}). pure keys)
          (elim o [ none ↦ ok tt | some e ↦ err (failure e) ])
          w).0
        (continue
          (λ (u : Unit {0}). pure keys)
          (elim o [ none ↦ ok tt | some e ↦ err (failure e) ])
          w).1
unfolding pure
keygen-Ends none keys w h = h
keygen-Ends (some e) keys w h = h

pub generate-Held :
    (v : List (String × Secret)) (env : Env)
    → Spec (Held v) (Held v) (Held v) (generate_ssh_key env)
unfolding generate_ssh_key run_command pure ◌>>=◌
generate-Held v env = record {
  at = λ w h. keygen-Ends (env.outcome ssh_keygen w.clock) _ (tick w) h;
}

-- An answer other than 200 may be given where Vault holds `v`.
abbrev pub Closing : (Response → World → Type 0) → List (String × Secret) → Type 0
Closing R v = (r : Response) (w : World) → is_okay r ≡ false → Held v w → R r w

module _ (env : Env) (ctx : Ctx) {E : World → Type 0} {R : Response → World → Type 0} where
  module _ (uid : ℕ) (id : String) where
    pub reject-SpecR :
        (v : List (String × Secret)) (d : Details) (r : Response)
        → is_okay r ≡ false
        → Closing R v
        → SpecR (Held v) R E (reject env ctx uid id d r)
    reject-SpecR v d r refusal close =
        SpecR-bind {Q = Held v} _ _ (audit-Held env ctx uid _ id _ d)
          (λ _. SpecR-pure r (λ w h. close r w refusal h))

    pub abort-SpecR :
        (v : List (String × Secret)) (reason : String) (r : Response)
        → is_okay r ≡ false
        → Closing R v
        → SpecR (Held v) R E (abort env ctx uid id reason r)
    abort-SpecR v reason r refusal close =
        SpecR-bind {Q = Held v} _ _ (Spec-ignore _ (statement-Spec (Held-IsLoose v) env ctx _))
          (λ _. reject-SpecR v _ r refusal close)

    pub store_secret-SpecR :
        (v : List (String × Secret)) (path : String) (s : Secret) (reason : String)
        (answer : Error → Response) (next : Exec Response)
        → ((e : Error) → is_okay (answer e) ≡ false)
        → Closing R v
        → SpecR (Held (insert path s v)) R E next
        → SpecR (Held v) R E (store_secret env ctx uid id path s reason answer next)
    store_secret-SpecR v path s reason answer next refusal close sn =
        SpecR-attempt (Held (insert path s v)) (Held v) _ _ (vault_put-Held v env ctx path s)
          (λ u. sn) (λ e. abort-SpecR v reason (answer e) (refusal e) close)
