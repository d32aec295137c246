-- ===== src/Deployments/Teardown.antt =====
-- `runDestroy` of deployments/executor.go: the goroutine of a destroy, with the cascade latch.
pub mod Specs
pub mod Forget
pub mod Run
pub mod Latch
pub mod Cascade
pub mod Forgets
use bandolier.Prelude.{ℕ, String, Bool, true, false, List, [], ◌∷◌, if◌then◌else◌}
use bandolier.Text.{◌<>◌, error_text}
use bandolier.Status.{destroyed}
use bandolier.Store.Tables.{
  Cluster, DeploymentStatus, Outcome, Detail, cluster_destroy, cluster_delete,
}
use bandolier.Store.Clusters.{get_cluster, set_pending_forget}
use bandolier.Result.{Result, ok, err, failure}
use bandolier.World.{
  Env, World, pre_destroy, post_destroy, tf_setup, copy_module, build_tfvars, write_tfvars, tf_init,
  tf_destroy, stdout,
}
use bandolier.World.Exec.{Exec, pure, raise, modify, ignore, attempt, ◌>>=◌, ◌>>◌}
use bandolier.World.Calls.{statement, query, background, ctx_done, run_command}
use bandolier.Clusters.Forget.{forget_cluster}
use bandolier.Deployments.Effects.{
  audit, emit, must, run_streamed, finish_status, complete_event, line_event,
}
use bandolier.Deployments.Finish.{
  Task, record_failure, record_success, announce_success, end_and, with_defers,
}
use bandolier.Deployments.Pipeline.{step_start, step_end}

-- `fmt.Fprintf(&logWriter, …)`
abbrev pub print : Task → String → Exec (Unit {0})
print t text = modify (emit t.dep_id (line_event (stdout text)))

-- `if c, gerr := GetCluster(…); gerr == nil { hadLatch = c.PendingForget }`
abbrev pub had_latch : Result Cluster → Bool
had_latch (ok c) = c.pending_forget
had_latch (err e) = false

module _ (env : Env) (t : Task) where
  abbrev pub audit_latch : Bool → Exec (Unit {0})
  audit_latch false = pure tt
  audit_latch true = audit env background t.actor cluster_delete t.cluster_id Outcome.failure (
      ("reason", Detail.text "destroy_failed")
      ∷ ("deployment_id", Detail.text t.dep_id)
      ∷ ("cascade", Detail.text "destroy")
      ∷ [])

  unfoldable pub clear_latch : Exec (Unit {0})
  clear_latch = ignore (statement env background λ now. set_pending_forget now t.cluster_id false)

  -- `fail` of `runDestroy`, at the outcome that it reads off the context.
  unfoldable pub fail_destroy_with {ℓ} : {A : Type ℓ} → DeploymentStatus × Outcome → String → Exec A
  unfolding record_failure clear_latch
  fail_destroy_with (status, outcome) msg = do
    record_failure env t status msg
    c ← attempt (query env background (get_cluster t.cluster_id))
    clear_latch
    audit env background t.actor cluster_destroy t.cluster_id outcome
        (("error", Detail.text msg) ∷ [])
    audit_latch (had_latch c)
    modify (emit t.dep_id (complete_event status msg))
    raise (failure msg)

  unfoldable pub fail_destroy {ℓ} : {A : Type ℓ} → String → Exec A
  unfolding fail_destroy_with finish_status
  fail_destroy msg w = fail_destroy_with (finish_status (ctx_done t.ctx w.clock) true) msg w

  unfoldable pub destroy_step : String → String → Exec (Unit {0}) → Exec (Unit {0})
  unfolding fail_destroy
  destroy_step name prefix m = do
    step_start t name
    must (end_and t name fail_destroy) prefix m
    step_end t name 0

  -- A failed post-destroy hook is a warning.
  abbrev pub report_hook : Result (Unit {0}) → Exec (Unit {0})
  report_hook (ok _) = pure tt
  report_hook (err e) = print t ("post-destroy warning: " <> error_text e <> "\n")

  unfoldable pub tear_down : Exec (Unit {0})
  unfolding destroy_step
  tear_down = do
    must fail_destroy "pre-destroy: " (run_command env pre_destroy)
    must fail_destroy "terraform setup: " (run_command env tf_setup)
    must fail_destroy "copy module: " (run_command env copy_module)
    must fail_destroy "build tfvars: " (run_command env build_tfvars)
    must fail_destroy "write tfvars: " (run_command env write_tfvars)
    destroy_step "terraform.init" "tf init: " (run_streamed env t.dep_id tf_init)
    destroy_step "terraform.destroy" "tf destroy: " (run_streamed env t.dep_id tf_destroy)
    post ← attempt (run_command env post_destroy)
    report_hook post

  abbrev pub report_forget : Result (Unit {0}) → Exec (Unit {0})
  report_forget (ok _) = pure tt
  report_forget (err e) = print t (
      "cascade-forget warning: "
      <> error_text e
      <> " (cluster left in destroyed state; click Forget to retry)\n")

  abbrev pub forget_row : Cluster → Exec (Unit {0})
  forget_row c = do
    print t "cascade-forget: destroying complete, removing local cluster row + vault paths\n"
    r ← attempt (forget_cluster env t.ctx t.cluster_id c.name destroyed t.actor)
    report_forget r

  abbrev pub forget_latched : Result Cluster → Exec (Unit {0})
  forget_latched (err e) = pure tt
  forget_latched (ok c) = if c.pending_forget then forget_row c else pure tt

  unfoldable pub cascade_forget : Exec (Unit {0})
  cascade_forget = do c ← attempt (query env t.ctx (get_cluster t.cluster_id)); forget_latched c

  unfoldable pub destroy_body : Exec (Unit {0})
  unfolding tear_down cascade_forget
  destroy_body = do
    tear_down
    record_success env t destroyed cluster_destroy []
    cascade_forget
    announce_success t

  unfoldable pub run_destroy : Exec (Unit {0})
  unfolding destroy_body
  run_destroy = with_defers t destroy_body
