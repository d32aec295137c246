-- ===== src/Deployments/Pipeline.antt =====
-- `run` of deployments/executor.go: the goroutine of a deploy.
pub mod Specs
pub mod Run
pub mod Verdicts
use bandolier.Prelude.{ℕ, String, Bool, true, false, List, [], ◌∷◌}
use bandolier.Text.{◌<>◌, error_text}
use bandolier.Status.{ready}
use bandolier.Store.Tables.{cluster_deploy}
use bandolier.Result.{Result, ok, err}
use bandolier.World.{
  Env, World, Command, tf_setup, copy_module, build_tfvars, write_tfvars, tf_init, tf_apply,
  tf_output, wait_for_ssh, make_run_dir, build_inventory, build_extra_vars, ansible_prepare,
  ansible_run,
}
use bandolier.World.Exec.{Exec, pure, modify, attempt, ◌>>=◌, ◌>>◌}
use bandolier.World.Calls.{run_command, read_output}
use bandolier.Deployments.Effects.{emit, must, run_streamed, started_event, ended_event, log_event}
use bandolier.Deployments.Finish.{
  Task, fail, record_success, announce_success, end_and, with_defers,
}
use bandolier.Deployments.Steps.{
  fetch_kubeconfig, fetch_join_token, write_wildcard_dns, issue_wildcard_tls, install_traefik,
}

abbrev pub step_start : Task → String → Exec (Unit {0})
step_start t name = modify (emit t.dep_id (started_event name))

abbrev pub step_end : Task → String → ℕ → Exec (Unit {0})
step_end t name exit = modify (emit t.dep_id (ended_event name exit))

abbrev pub report : Task → String → Exec (Unit {0})
report t text = modify (emit t.dep_id (log_event text))

module _ (env : Env) (t : Task) where
  unfoldable pub fail_deploy {ℓ} : {A : Type ℓ} → String → Exec A
  unfolding fail
  fail_deploy = fail env t cluster_deploy []

  -- A step that is announced, and whose error ends the deploy.
  unfoldable pub in_step : String → String → Exec (Unit {0}) → Exec (Unit {0})
  unfolding fail_deploy
  in_step name prefix m = do
    step_start t name
    must (end_and t name fail_deploy) prefix m
    step_end t name 0

  unfoldable pub terraform : Exec String
  unfolding fail_deploy in_step
  terraform = do
    must fail_deploy "terraform setup: " (run_command env tf_setup)
    must fail_deploy "copy module: " (run_command env copy_module)
    must fail_deploy "build tfvars: " (run_command env build_tfvars)
    must fail_deploy "write tfvars: " (run_command env write_tfvars)
    in_step "terraform.init" "tf init: " (run_streamed env t.dep_id tf_init)
    in_step "terraform.apply" "tf apply: " (run_streamed env t.dep_id tf_apply)
    must fail_deploy "tf output: " (read_output env tf_output)

  unfoldable pub playbook : Exec (Unit {0})
  unfolding fail_deploy in_step
  playbook = do
    in_step "wait_for_ssh" "wait ssh: " (run_command env wait_for_ssh)
    step_start t "ansible"
    must (end_and t "ansible" fail_deploy) "create ansible run dir: " (run_command env make_run_dir)
    must (end_and t "ansible" fail_deploy) "inventory: " (run_command env build_inventory)
    must (end_and t "ansible" fail_deploy) "extra vars: " (run_command env build_extra_vars)
    must (end_and t "ansible" fail_deploy) "ansible prepare: " (run_command env ansible_prepare)
    must (end_and t "ansible" fail_deploy) "ansible run: " (run_streamed env t.dep_id ansible_run)
    step_end t "ansible" 0

  abbrev pub report_kubeconfig : Result (Unit {0}) → Exec (Unit {0})
  report_kubeconfig (ok _) =
      report t ("kubeconfig stored at vault://clusters/" <> t.cluster_id <> "/kubeconfig\n")
  report_kubeconfig (err e) = report t ("kubeconfig retrieval failed: " <> error_text e <> "\n")

  abbrev pub report_join_token : Result (Unit {0}) → Exec (Unit {0})
  report_join_token (ok _) = do
    report t ("join token stored at vault://clusters/" <> t.cluster_id <> "/join_token\n")
    step_end t "join_token" 0
  report_join_token (err e) = do
    report t ("join token retrieval failed: " <> error_text e <> "\n")
    step_end t "join_token" 1

  -- Best effort: neither failure ends the deploy.
  unfoldable pub fetch_credentials : String → Exec (Unit {0})
  fetch_credentials master_ip = do
    kubeconfig ← attempt (fetch_kubeconfig env t.ctx t.cluster_id master_ip)
    report_kubeconfig kubeconfig
    step_start t "join_token"
    token ← attempt (fetch_join_token env t.ctx t.cluster_id)
    report_join_token token

  unfoldable pub ingress : String → Exec (Unit {0})
  unfolding in_step
  ingress master_ip = do
    in_step "dns.write_wildcard" "dns wildcard: "
        (write_wildcard_dns env t.ctx t.cluster_id master_ip)
    in_step "tls.issue_wildcard" "tls wildcard: " (issue_wildcard_tls env t.ctx t.cluster_id)
    in_step "helm.install_traefik" "traefik install: "
        (install_traefik env t.ctx t.cluster_id t.dep_id)

  -- All steps before the records of the success.
  unfoldable pub prepare : Exec (Unit {0})
  unfolding terraform playbook fetch_credentials ingress
  prepare = do master_ip ← terraform; playbook; fetch_credentials master_ip; ingress master_ip

  unfoldable pub run_body : Exec (Unit {0})
  unfolding prepare
  run_body = do prepare; record_success env t ready cluster_deploy []; announce_success t

  unfoldable pub run : Exec (Unit {0})
  unfolding run_body
  run = with_defers t run_body
