-- ===== src/Deployments/UpgradeRun.antt =====
-- `runUpgrade` of deployments/upgrade.go: the goroutine of an upgrade.
pub mod Run
pub mod Verdicts
use bandolier.Prelude.{String, List, [], ◌∷◌}
use bandolier.Status.{ready}
use bandolier.Store.Tables.{Details, Detail, cluster_upgrade}
use bandolier.World.{
  Env, make_run_dir, build_inventory, build_upgrade_vars, ansible_prepare, ansible_run,
}
use bandolier.World.Exec.{Exec, ◌>>=◌, ◌>>◌}
use bandolier.World.Calls.{run_command}
use bandolier.Deployments.Effects.{must, run_streamed}
use bandolier.Deployments.Finish.{
  Task, fail, record_success, announce_success, end_and, with_defers,
}
use bandolier.Deployments.Pipeline.{step_start, step_end}

module _ (env : Env) (t : Task) (version : String) where
  abbrev pub upgrade_details : Details
  upgrade_details = ("k3s_version", Detail.text version) ∷ []

  unfoldable pub fail_upgrade {ℓ} : {A : Type ℓ} → String → Exec A
  unfolding fail
  fail_upgrade = fail env t cluster_upgrade upgrade_details

  unfoldable pub roll_out : Exec (Unit {0})
  unfolding fail_upgrade
  roll_out = do
    must fail_upgrade "temp dir: " (run_command env make_run_dir)
    must fail_upgrade "build inventory: " (run_command env build_inventory)
    must fail_upgrade "build upgrade vars: " (run_command env build_upgrade_vars)
    step_start t "ansible.upgrade"
    must (end_and t "ansible.upgrade" fail_upgrade) "ansible prepare: "
        (run_command env ansible_prepare)
    must (end_and t "ansible.upgrade" fail_upgrade) "ansible run: "
        (run_streamed env t.dep_id ansible_run)
    step_end t "ansible.upgrade" 0

  unfoldable pub upgrade_body : Exec (Unit {0})
  unfolding roll_out
  upgrade_body = do
    roll_out
    record_success env t ready cluster_upgrade upgrade_details
    announce_success t

  unfoldable pub run_upgrade : Exec (Unit {0})
  unfolding upgrade_body
  run_upgrade = with_defers t upgrade_body
