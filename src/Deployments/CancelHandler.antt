-- ===== src/Deployments/CancelHandler.antt =====
-- deployments/cancel_handler.go: POST /api/deployments/{id}/cancel.
pub mod Laws
use bandolier.Prelude.{String, Bool, true, false, if◌then◌else◌}
use bandolier.Text.{error_text}
use bandolier.Store.Tables.{Deployment}
use bandolier.Store.Deployments.{get_deployment, is_running}
use bandolier.Result.{Error, Result, ok, err, not_found, not_cancellable}
use bandolier.Response.{Response, accepted, not_found_answer, conflict, server_error}
use bandolier.World.{Ctx, Env}
use bandolier.World.Exec.{Exec, pure, attempt, ◌>>=◌}
use bandolier.World.Calls.{query}
use bandolier.Deployments.Effects.{cancel}

module _ (env : Env) (ctx : Ctx) (id : String) where
  abbrev pub cancel_answer : Error → Response
  cancel_answer not_cancellable = conflict "deployment is not cancellable"
  cancel_answer e = server_error (error_text e)

  -- The answer of success carries the row.
  abbrev pub signalled : Result (Unit {0}) → Exec Response
  signalled (ok _) = pure (accepted id)
  signalled (err e) = pure (cancel_answer e)

  abbrev pub cancel_found : Result Deployment → Exec Response
  cancel_found (err not_found) = pure (not_found_answer "deployment not found")
  cancel_found (err e) = pure (server_error (error_text e))
  cancel_found (ok d) =
      if is_running d.status
      then (do r ← attempt (cancel id); signalled r)
      else pure (conflict "deployment is not running")

  unfoldable pub cancel_handler : Exec Response
  cancel_handler = do found ← attempt (query env ctx (get_deployment id)); cancel_found found
