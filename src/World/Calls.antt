-- ===== src/World/Calls.antt =====
-- Calls that leave the process: SQL statements, Vault, external commands.
use Prim.Native.String
use bandolier.Prelude.{
  ℕ, suc, String, Bool, true, false, Option, none, some, leb, lookup, insert, erase,
}
use bandolier.Store.Tables.{Db}
use bandolier.Result.{Error, Result, ok, err, failure, ctx_cancelled}
use bandolier.World.{Ctx, Command, Env, Value, Secret, World, text}
use bandolier.World.Exec.{Exec}

abbrev pub ◌++ₛ◌ : String → String → String
◌++ₛ◌ s t = String.◌++◌ s t

abbrev pub background : Ctx
background = record { cancel_at = none }

-- `ctx.Err() != nil` at that time.
abbrev cancelled_by : Option ℕ → ℕ → Bool
cancelled_by none now = false
cancelled_by (some n) now = leb n now

abbrev pub ctx_done : Ctx → ℕ → Bool
ctx_done c now = cancelled_by c.cancel_at now

abbrev pub tick : World → World
tick w = record w { clock = suc w.clock }

abbrev pub put_db {ℓ} : {A : Type ℓ} → World → Result A × Db → Result A × World
put_db w (r, db) = (r, record w { db = db })

abbrev pub guarded {ℓ} : {A : Type ℓ} → Bool → Error → Result A × World → World → Result A × World
guarded true e r w = (err e, w)
guarded false e r w = r

module _ (env : Env) where
  -- `ExecContext`: a statement on a cancelled context is not run; one that fails changes nothing.
  unfoldable pub statement {ℓ} : {A : Type ℓ} → Ctx → (ℕ → Db → Result A × Db) → Exec A
  statement ctx body w =
      guarded (ctx_done ctx w.clock) ctx_cancelled
        (guarded (env.sql_fails w.clock) (failure "database error")
          (put_db (tick w) (body w.clock w.db)) (tick w))
        (tick w)

  -- `QueryContext`.
  unfoldable pub query {ℓ} : {A : Type ℓ} → Ctx → (Db → Result A) → Exec A
  query ctx body w =
      guarded (ctx_done ctx w.clock) ctx_cancelled
        (guarded (env.sql_fails w.clock) (failure "database error") (body w.db, tick w) (tick w))
        (tick w)

  -- A command of the environment; its own failure on a cancelled context is part of `outcome`.
  unfoldable pub run_command : Command → Exec (Unit {0})
  run_command c w =
      (elim (env.outcome c w.clock) [ none ↦ ok tt | some e ↦ err (failure e) ], tick w)

  unfoldable pub read_output : Command → Exec String
  read_output c w = (
    elim (env.outcome c w.clock) [ none ↦ ok (env.output c w.clock) | some e ↦ err (failure e) ],
    tick w,
  )

  -- vault/client.go: `Get`, `Put` and `Delete` of the KV mount. A path with no secret is an error
  -- of `Get`, and none of `Delete`.
  unfoldable pub vault_get : Ctx → String → Exec Secret
  vault_get ctx path w =
      guarded (ctx_done ctx w.clock) ctx_cancelled
        (guarded (env.vault_fails w.clock) (failure "vault get")
          (elim (lookup path w.vault) [ none ↦ err (failure "vault get") | some s ↦ ok s ], tick w)
          (tick w))
        (tick w)

  unfoldable pub vault_put : Ctx → String → Secret → Exec (Unit {0})
  vault_put ctx path s w =
      guarded (ctx_done ctx w.clock) ctx_cancelled
        (guarded (env.vault_fails w.clock) (failure "vault put")
          (ok tt, record w { clock = suc w.clock; vault = insert path s w.vault }) (tick w))
        (tick w)

  unfoldable pub vault_delete : Ctx → String → Exec (Unit {0})
  vault_delete ctx path w =
      guarded (ctx_done ctx w.clock) ctx_cancelled
        (guarded (env.vault_fails w.clock) (failure "vault delete")
          (ok tt, record w { clock = suc w.clock; vault = erase path w.vault }) (tick w))
        (tick w)

  -- `WriteRaw` to pki/issue/<role>: no data is no error.
  unfoldable pub vault_issue : Ctx → String → String → Exec (Option Secret)
  vault_issue ctx common_name role w =
      guarded (ctx_done ctx w.clock) ctx_cancelled
        (guarded (env.vault_fails w.clock) (failure "vault write")
          (ok (env.issue common_name role w.clock), tick w) (tick w))
        (tick w)

-- `s, _ := data[key].(string)`: the empty text when the key is missing or holds no text.
abbrev text_or_empty : Option Value → String
text_or_empty (some (text s)) = s
text_or_empty _ = ""

unfoldable pub text_field : String → Secret → String
text_field key s = text_or_empty (lookup key s)
