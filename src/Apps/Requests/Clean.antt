-- ===== src/Apps/Requests/Clean.antt =====
-- What a request starts, and that only checked names get into the arguments of helm.
use bandolier.Prelude.{
  ℕ, String, Bool, true, not, ◌&&◌, ◌≡◌, refl, List, [], ◌∷◌, ◌++◌, Option, none, some, arith, leb,
  length,
}
use bandolier.Response.{Response, accepted}
use bandolier.Result.{Error, Result, ok, err}
use bandolier.World.{Ctx, Env, World}
use bandolier.World.Exec.{attempt, pure, modify, ◌>>=◌}
use bandolier.World.Returns.{Returns, SpecR, Never}
use bandolier.Apps.Types.{Work, run_helm, run_uninstall, run_bundle, AppJob, BundleChartChoice}
use bandolier.Apps.Bundle.{storage_of, substitute_hostname_template}
use bandolier.Apps.Executor.{InstallPlan, app_job, start_install}
use bandolier.Apps.Executor.Starting.{Started, Unstarted, start_install-Started}
use bandolier.Apps.Requests.{
  bad_storage_class, bad_hostname, answer_start, start_error, uninstall_error, bundle_error,
}

abbrev pub clean_names : String → String → Bool
clean_names storage_class hostname =
    not (bad_storage_class storage_class) && not (bad_hostname hostname)

-- With the hostname that the loop of the bundle computes from the choice.
abbrev pub clean_choices : String → List BundleChartChoice → Bool
clean_choices fqdn [] = true
clean_choices fqdn (c ∷ cs) =
    clean_names (storage_of c.storage_class)
      (substitute_hostname_template c.hostname c.release fqdn)
    && clean_choices fqdn cs

-- The names that the work puts after a `--set` of helm have passed their checks, those of a bundle
-- after the placeholders of its hostnames are filled in. A bundle has at most 50 charts.
unfoldable pub is_clean : Work → Bool
is_clean (run_helm req op) = clean_names req.storage_class req.hostname
is_clean (run_uninstall release namespace) = true
is_clean (run_bundle req fqdn) = clean_choices fqdn req.choices && leb (length req.choices) 50

abbrev pub accepted_id : Response → Option String
accepted_id (accepted id) = some id
accepted_id _ = none

-- One goroutine was spawned, with clean work; or nothing was started.
abbrev pub BegunIf : World → World → Option String → Type 0
BegunIf w₀ w none = Unstarted w₀ w
BegunIf w₀ w (some id) =
    (job : AppJob) × (w.apps.jobs ≡ w₀.apps.jobs ++ job ∷ [])
    × (job.install_id ≡ id)
    × (is_clean job.work ≡ true)

-- The first if the request was accepted, the second if it was not.
abbrev pub Begun : World → Response → World → Type 0
Begun w₀ r w = BegunIf w₀ w (accepted_id r)

pub start_error-id : (e : Error) → accepted_id (start_error e) ≡ none
start_error-id e = ground arith

pub uninstall_error-id : (e : Error) → accepted_id (uninstall_error e) ≡ none
uninstall_error-id e = ground (arith, start_error-id e)

pub bundle_error-id : (e : Error) → accepted_id (bundle_error e) ≡ none
bundle_error-id e = ground arith

-- Only the time and the database may have changed.
pub record Calm (w₀ w : World) : Type 0 where
  pub mutex : w.mutex ≡ w₀.mutex
  pub crashed : w.crashed ≡ w₀.crashed
  pub apps : w.apps ≡ w₀.apps

BegunIf-Calm : (w₀ w v : World) (o : Option String) → Calm w₀ w → BegunIf w v o → BegunIf w₀ v o
BegunIf-Calm w₀ w v none c u = record {
  locks = λ id. rw (← c.mutex) (u.locks id);
  crashed = rw (← c.crashed) u.crashed;
  cancels = rw (← c.apps) u.cancels;
  jobs = rw (← c.apps) u.jobs;
}
BegunIf-Calm w₀ w v (some id) c (job, jobs, same, clean) = (job, rw (← c.apps) jobs, same, clean)

pub Calm-Unstarted : (w₀ w : World) → Calm w₀ w → Unstarted w₀ w
Calm-Unstarted w₀ w c = record {
  locks = λ id. rw c.mutex refl;
  crashed = c.crashed;
  cancels = rw c.apps refl;
  jobs = rw c.apps refl;
}

moved_Begun :
    (w₀ w : World)
    → Calm w₀ w
    → (r : Result Response) (v : World) → Returns (Begun w) Never r v
    → Returns (Begun w₀) Never r v
moved_Begun w₀ w c (ok r) v b = BegunIf-Calm w₀ w v (accepted_id r) c b
moved_Begun w₀ w c (err e) v b = b

module _ (refusal : Error → Response) (no_id : (e : Error) → accepted_id (refusal e) ≡ none)
    (cluster_id : String) where
  answer_start-Begun :
      (plan : InstallPlan) (actor : ℕ) (w₀ w : World) (r : Result String)
      → is_clean plan.work ≡ true
      → Returns (Started plan actor w₀) (Unstarted w₀) r w
      → Returns
          (Begun w₀)
          Never
          (answer_start refusal cluster_id r w).0
          (answer_start refusal cluster_id r w).1
  unfolding pure modify ◌>>=◌
  answer_start-Begun plan actor w₀ w (ok id) c s = (app_job plan id actor, s.jobs, refl, c)
  answer_start-Begun plan actor w₀ w (err e) c u = rw (no_id e) u

  pub starting-SpecR :
      (env : Env) (ctx : Ctx) (actor : ℕ) (plan : InstallPlan) (w₀ : World)
      → is_clean plan.work ≡ true
      → SpecR
          (Calm w₀)
          (Begun w₀)
          Never
          (attempt (start_install env ctx actor plan) >>= answer_start refusal cluster_id)
  unfolding attempt ◌>>=◌
  starting-SpecR env ctx actor plan w₀ c = record {
    at = λ w p. moved_Begun w₀ w p _ _ (
        answer_start-Begun plan actor w (start_install env ctx actor plan w).1
          (start_install env ctx actor plan w).0 c (start_install-Started env ctx actor plan w));
  }
