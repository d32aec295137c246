-- ===== src/Result.antt =====
-- The errors that the program tells apart, and results that may be one.
use bandolier.Prelude.{Bool, true, false, String}
use bandolier.Status.{TransitionError}

-- The sentinel errors of the package apps.
pub data AppsError : Type 0 where
  repo_not_found cluster_busy system_release install_not_cancellable : AppsError

-- Sentinel errors by name; every other error by its text.
pub data Error : Type 0 where
  not_found duplicate_name invalid_transition locked in_progress not_cancellable : Error
  -- `context.Canceled`
  ctx_cancelled : Error
  -- an error of a third party, or one made by `fmt.Errorf`
  failure : String → Error
  refused : TransitionError → Error
  of_apps : AppsError → Error

pub data Result {ℓ} (A : Type ℓ) : Type ℓ where
  ok : A → Result A
  err : Error → Result A

abbrev pub is_ok {ℓ} : {A : Type ℓ} → Result A → Bool
is_ok (ok a) = true
is_ok (err e) = false
