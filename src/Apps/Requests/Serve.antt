-- ===== src/Apps/Requests/Serve.antt =====
-- What each request of the router starts.
use bandolier.Prelude.{
  ℕ, String, Bool, true, false, not, ◌&&◌, ◌≡◌, refl, List, [], ◌∷◌, ◌==◌, Option, none, some,
  arith, if◌then◌else◌, Option-cases, inl, inr,
}
use bandolier.Text.{trim_space}
use bandolier.Response.{Response}
use bandolier.Result.{Error, Result, ok, err}
use bandolier.Store.Tables.{Cluster, InstallOperation, Action}
use bandolier.World.{Ctx, Env, World}
use bandolier.World.Exec.{Exec, attempt, pure, raise, ◌>>=◌}
use bandolier.World.Triples.{Spec-attempt}
use bandolier.World.Returns.{Returns, SpecR, Never, SpecR-pure, SpecR-bind, if-SpecR}
use bandolier.Deployments.Stable.{Stable, query-Spec, vault_get-Spec}
use bandolier.Deployments.Effects.{emit}
use bandolier.Apps.Types.{
  InstallRequest, BundleChartChoice, BundleInstallRequest, run_helm, run_bundle,
}
use bandolier.Apps.Executor.{
  resolve_ingress, run_request, install_app, upgrade_app, uninstall_app, install_bundle, helm_plan,
  uninstall_plan, bundle_plan, is_system,
}
use bandolier.Apps.Requests.{
  bad_storage_class, bad_hostname, answer_start, start_error, uninstall_error, bundle_error,
  bundle_refusal, bad_choices, checked, install_handler, upgrade_handler, uninstall_handler,
  bundle_handler, bundle_on, Request, install_request, upgrade_request, uninstall_request,
  bundle_request, serve, trimmed, trimmed_upgrade, install_incomplete, upgrade_incomplete, fqdn_of,
}
use bandolier.Apps.Requests.Placeholders.{substitute_hostname_template_lem}
use bandolier.Apps.Requests.Clean.{
  is_clean, clean_choices, Begun, Calm, Calm-Unstarted, starting-SpecR, start_error-id,
  uninstall_error-id, bundle_error-id,
}

resolve_ingress-clean :
    (req : InstallRequest) (op : InstallOperation)
    → bad_storage_class req.storage_class ≡ false
    → bad_hostname req.hostname ≡ false
    → is_clean (run_helm (resolve_ingress req) op) ≡ true
unfolding resolve_ingress is_clean
resolve_ingress-clean req op s h = ground arith

bad_choices-clean :
    (fqdn : String) (cs : List BundleChartChoice)
    → bad_choices cs ≡ none
    → clean_choices fqdn cs ≡ true
unfolding bad_choices
bad_choices-clean fqdn [] e = refl
bad_choices-clean fqdn (c ∷ cs) e =
    ground
      (arith, substitute_hostname_template_lem c.hostname c.release fqdn, bad_choices-clean fqdn cs)

bundle-clean :
    (req : BundleInstallRequest) (fqdn : String)
    → bundle_refusal req ≡ none
    → is_clean (run_bundle req fqdn) ≡ true
unfolding is_clean bundle_refusal
bundle-clean req fqdn e = ground (arith, bad_choices-clean fqdn req.choices)

start-Calm : (w : World) → Calm w w
start-Calm w = record { mutex = refl; crashed = refl; apps = refl }

module _ (env : Env) (ctx : Ctx) (actor : ℕ) (id : String) (w₀ : World) where
  declined :
      (r : Response)
      → ((w : World) → Calm w₀ w → Begun w₀ r w)
      → SpecR (Calm w₀) (Begun w₀) Never (pure r)
  declined r h = SpecR-pure r h

  run_request-SpecR :
      (op : InstallOperation) (action : Action) (req : InstallRequest)
      → bad_storage_class req.storage_class ≡ false
      → bad_hostname req.hostname ≡ false
      → SpecR
          (Calm w₀)
          (Begun w₀)
          Never
          (attempt (run_request env op action ctx actor id req) >>= answer_start start_error id)
  unfolding run_request
  run_request-SpecR op action req s h =
      starting-SpecR start_error start_error-id id env ctx actor
        (helm_plan env id (resolve_ingress req) op action) w₀ (resolve_ingress-clean req op s h)

  checked-SpecR :
      (incomplete : Bool) (required : String) (start : InstallRequest → Exec String)
      (req : InstallRequest)
      → (bad_storage_class req.storage_class ≡ false
          → bad_hostname req.hostname ≡ false
          → SpecR (Calm w₀) (Begun w₀) Never (attempt (start req) >>= answer_start start_error id))
      → SpecR (Calm w₀) (Begun w₀) Never (checked env ctx actor id incomplete required start req)
  checked-SpecR incomplete required start req sp =
      if-SpecR incomplete _ _ (λ e. declined _ (Calm-Unstarted w₀))
        (λ e.
          if-SpecR (bad_storage_class req.storage_class) _ _ (λ e. declined _ (Calm-Unstarted w₀))
            (λ s.
              if-SpecR (bad_hostname req.hostname) _ _ (λ e. declined _ (Calm-Unstarted w₀))
                (λ h. sp s h)))

  install-SpecR :
      (body : Option InstallRequest)
      → SpecR (Calm w₀) (Begun w₀) Never (install_handler env ctx actor id body)
  unfolding install_handler install_app
  install-SpecR none = declined _ (Calm-Unstarted w₀)
  install-SpecR (some req) =
      checked-SpecR (install_incomplete (trimmed req)) _ (install_app env ctx actor id)
        (trimmed req) (run_request-SpecR _ _ (trimmed req))

  upgrade-SpecR :
      (release : String) (body : Option InstallRequest)
      → SpecR (Calm w₀) (Begun w₀) Never (upgrade_handler env ctx actor id release body)
  unfolding upgrade_handler upgrade_app
  upgrade-SpecR release none = declined _ (Calm-Unstarted w₀)
  upgrade-SpecR release (some req) =
      checked-SpecR (upgrade_incomplete (trimmed_upgrade release req)) _
        (upgrade_app env ctx actor id) (trimmed_upgrade release req)
        (run_request-SpecR _ _ (trimmed_upgrade release req))

  system-SpecR :
      (e : Error)
      → SpecR
          (Calm w₀)
          (Begun w₀)
          Never
          (attempt (raise {A = String} e) >>= answer_start uninstall_error id)
  unfolding attempt raise pure ◌>>=◌
  system-SpecR e = record { at = λ w c. rw (uninstall_error-id e) (Calm-Unstarted w₀ w c) }

  attempt_if-SpecR :
      (b : Bool) (e : Error) (m : Exec String)
      → SpecR (Calm w₀) (Begun w₀) Never (attempt m >>= answer_start uninstall_error id)
      → SpecR
          (Calm w₀)
          (Begun w₀)
          Never
          (attempt (if b then raise e else m) >>= answer_start uninstall_error id)
  attempt_if-SpecR true e m sm = system-SpecR e
  attempt_if-SpecR false e m sm = sm

  uninstall-SpecR :
      (release : String) (body : Option (String × Bool))
      → SpecR (Calm w₀) (Begun w₀) Never (uninstall_handler env ctx actor id release body)
  unfolding uninstall_handler uninstall_app is_clean
  uninstall-SpecR release none = declined _ (Calm-Unstarted w₀)
  uninstall-SpecR release (some body) =
      if-SpecR (trim_space body.0 == "") _ _ (λ e. declined _ (Calm-Unstarted w₀))
        (λ e. attempt_if-SpecR (is_system release && not body.1) _ _ (
          starting-SpecR uninstall_error uninstall_error-id id env ctx actor
            (uninstall_plan env id release (trim_space body.0)) w₀ refl))

  Calm-Stable : (dep : String) → Stable dep (Calm w₀)
  unfolding emit
  Calm-Stable dep = record {
    on_emit = λ e w early c. record { mutex = c.mutex; crashed = c.crashed; apps = c.apps };
    on_call = λ v w c. record { mutex = c.mutex; crashed = c.crashed; apps = c.apps };
  }

  bundle_on-SpecR :
      (req : BundleInstallRequest) (r : Result Cluster)
      → bundle_refusal req ≡ none
      → SpecR (Calm w₀) (Begun w₀) Never (bundle_on env ctx actor id req r)
  unfolding install_bundle
  bundle_on-SpecR req (err e) h = declined _ (Calm-Unstarted w₀)
  bundle_on-SpecR req (ok c) h =
      SpecR-bind {Q = Calm w₀} _ _ (Spec-attempt _ (vault_get-Spec (Calm-Stable "") env ctx _))
        (λ s.
          starting-SpecR bundle_error bundle_error-id id env ctx actor
            (bundle_plan env id req (fqdn_of env ctx actor id s)) w₀ (bundle-clean req _ h))

  bundle-SpecR :
      (body : Option BundleInstallRequest)
      → SpecR (Calm w₀) (Begun w₀) Never (bundle_handler env ctx actor id body)
  unfolding bundle_handler
  bundle-SpecR none = declined _ (Calm-Unstarted w₀)
  bundle-SpecR (some req) = elim (Option-cases (bundle_refusal req)) [
    | inr (e, h) ↦ rw h (declined _ (Calm-Unstarted w₀))
    | inl h ↦ rw h (
        SpecR-bind {Q = Calm w₀} _ _ (Spec-attempt _ (query-Spec (Calm-Stable "") env ctx _))
          (λ r. bundle_on-SpecR req r h))
  ]

-- An accepted request has spawned one goroutine, that of the id in the answer, and the storage
-- classes and hostnames that it is to hand to helm as arguments of `--set`, those of a bundle with
-- their placeholders filled in, are empty or have passed their checks; a bundle has at most 50
-- charts. A request that was answered otherwise has started nothing and leaves every lock as it was.
pub serve-Begun :
    (env : Env) (ctx : Ctx) (actor : ℕ) (id : String) (request : Request) (w : World)
    → Returns
        (Begun w)
        Never
        (serve env ctx actor id request w).0
        (serve env ctx actor id request w).1
unfolding serve
serve-Begun env ctx actor id (install_request body) w =
    (install-SpecR env ctx actor id w body).at w (start-Calm w)
serve-Begun env ctx actor id (upgrade_request release body) w =
    (upgrade-SpecR env ctx actor id w release body).at w (start-Calm w)
serve-Begun env ctx actor id (uninstall_request release body) w =
    (uninstall-SpecR env ctx actor id w release body).at w (start-Calm w)
serve-Begun env ctx actor id (bundle_request body) w =
    (bundle-SpecR env ctx actor id w body).at w (start-Calm w)
