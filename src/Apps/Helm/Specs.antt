-- ===== src/Apps/Helm/Specs.antt =====
-- The calls of helm keep what is stable for the install.
use bandolier.Prelude.{String, Bool, true, false, refl, List, [], ◌∷◌, if◌then◌else◌}
use bandolier.Result.{failure}
use bandolier.World.{Ctx, Env, World, Line, stdout, playbook_event}
use bandolier.World.Exec.{Exec, raise}
use bandolier.World.Calls.{tick, run_command}
use bandolier.World.Triples.{Spec, Spec-bind, Spec-pure, Spec-raise}
use bandolier.World.Rules.{Ends-always}
use bandolier.Deployments.Effects.{must, log_event}
use bandolier.Deployments.Stable.{Stable, run_command-Spec, read_output-Spec, vault_get-Spec}
use bandolier.Deployments.Finish.Must.{must-Spec}
use bandolier.Apps.Types.{InstallRequest}
use bandolier.Apps.Helm.{
  combined_output, repo_add, repo_update, tee_lines, run_helm_cli, helm_install_release,
  helm_upgrade_release, helm_uninstall_release, helm_factory_for,
}

pub if-Spec :
    {P Q E : World → Type 0} {A : Type 0} (b : Bool) (m n : Exec A)
    → Spec P Q E m
    → Spec P Q E n
    → Spec P Q E (if b then m else n)
if-Spec true m n sm sn = sm
if-Spec false m n sm sn = sn

module _ {id : String} {I : World → Type 0} (st : Stable id I) (env : Env) where
  -- The error of a call, with a prefix.
  pub wrap-Spec :
      {A : Type 0} (prefix : String) (m : Exec A)
      → Spec I I I m
      → Spec I I I (must (λ msg. raise (failure msg)) prefix m)
  wrap-Spec prefix m sm = must-Spec st _ (λ msg. Spec-raise (λ w i. i) (failure msg)) prefix m sm

  pub combined_output-Spec :
      (label : String) (args : List String) → Spec I I I (combined_output env label args)
  unfolding combined_output
  combined_output-Spec label args = record {
    at = λ w i. Ends-always I _ (tick w) (st.on_call w.vault w i);
  }

  pub repo_add-Spec : (name url : String) → Spec I I I (repo_add env name url)
  unfolding repo_add
  repo_add-Spec name url = combined_output-Spec _ _

  pub repo_update-Spec : Spec I I I (repo_update env)
  unfolding repo_update
  repo_update-Spec = combined_output-Spec "helm repo update" _

  tee_lines-Stable : (ls : List Line) (w : World) → I w → I (tee_lines id ls w)
  unfolding tee_lines
  tee_lines-Stable [] w i = i
  tee_lines-Stable (stdout s ∷ ls) w i = tee_lines-Stable ls _ (st.on_emit (log_event s) w refl i)
  tee_lines-Stable (playbook_event ∷ ls) w i = tee_lines-Stable ls w i

  run_helm_cli-Spec : (args : List String) → Spec I I I (run_helm_cli env id args)
  unfolding run_helm_cli run_command
  run_helm_cli-Spec args = record {
    at = λ w i.
        let w' = tee_lines id (env.printed (bandolier.World.helm args) w.clock) w in
        Ends-always I _ (tick w') (
          st.on_call w'.vault w'
            (tee_lines-Stable (env.printed (bandolier.World.helm args) w.clock) w i));
  }

  pub helm_install_release-Spec :
      (req : InstallRequest) (path : String) → Spec I I I (helm_install_release env id req path)
  unfolding helm_install_release
  helm_install_release-Spec req path = run_helm_cli-Spec _

  pub helm_upgrade_release-Spec :
      (req : InstallRequest) (path : String) → Spec I I I (helm_upgrade_release env id req path)
  unfolding helm_upgrade_release
  helm_upgrade_release-Spec req path = run_helm_cli-Spec _

  pub helm_uninstall_release-Spec :
      (release namespace : String) → Spec I I I (helm_uninstall_release env id release namespace)
  unfolding helm_uninstall_release
  helm_uninstall_release-Spec release namespace = run_helm_cli-Spec _

  pub helm_factory_for-Spec :
      (ctx : Ctx) (cluster_id : String) → Spec I I I (helm_factory_for env ctx cluster_id)
  unfolding helm_factory_for
  helm_factory_for-Spec ctx cluster_id =
      Spec-bind _ _ (wrap-Spec _ _ (vault_get-Spec st env ctx _)) (λ secret.
        Spec-bind _ _ (if-Spec _ _ _ (Spec-raise (λ w i. i) _) (Spec-pure (λ w i. i) tt)) (λ _.
          Spec-bind _ _ (wrap-Spec _ _ (read_output-Spec st env _)) (λ dir.
            Spec-bind _ _ (wrap-Spec _ _ (run_command-Spec st env _))
              (λ _. Spec-pure (λ w i. i) _))))
