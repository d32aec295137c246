-- ===== src/Apps/Outcome.antt =====
-- What a goroutine of the package apps has done when it ends, and what it leaves alone until then.
use bandolier.Prelude.{
  String, true, not, ◌≡◌, refl, ◌==◌, ◌&&◌, All, none, lookup, lookup-erase, eq_refl,
}
use bandolier.Mutex.Laws.{is_locked, unlock_lem}
use bandolier.Store.Tables.{DeploymentStatus}
use bandolier.Hub.History.{history_of}
use bandolier.World.{World}
use bandolier.World.Rules.{IsLoose}
use bandolier.Deployments.Effects.{emit, unlock_cluster}
use bandolier.Deployments.Stable.{Stable}
use bandolier.Deployments.Outcome.{SameControl, IsEarly, IsEarly-emit, Announced}
use bandolier.Deployments.Finish.Release.{unlock_cluster-hub}
use bandolier.Apps.Executor.{deregister_install}
use bandolier.Apps.Run.{AppTask}

-- Also the cancel funcs and the goroutines of the package apps are as they were.
abbrev pub SameApps : World → World → Type 0
SameApps w₀ w = SameControl w₀ w × (w.apps.cancels ≡ w₀.apps.cancels) × (w.apps.jobs ≡ w₀.apps.jobs)

-- The install is under way: no terminal event has been published for it.
pub record Installing (id : String) (w₀ w : World) : Type 0 where
  pub control : SameApps w₀ w
  pub early : All IsEarly (history_of id w.hub)

-- The terminal event has been published, once and at the end.
pub record Finished (id : String) (w₀ w : World) : Type 0 where
  pub control : SameApps w₀ w
  pub status : DeploymentStatus
  pub announced : Announced id status w

-- The lock of the cluster is free, those of the others are as they were, nothing was unlocked
-- twice, and the install can no longer be cancelled.
pub record Freed (t : AppTask) (w₀ w : World) : Type 0 where
  pub locks :
      (id : String) → is_locked id w.mutex ≡ (not (t.cluster_id == id) && is_locked id w₀.mutex)
  pub crashed : w.crashed ≡ w₀.crashed
  pub deregistered : lookup t.install_id w.apps.cancels ≡ none
  pub jobs : w.apps.jobs ≡ w₀.apps.jobs

pub Installing-Stable : (id : String) (w₀ : World) → Stable id (Installing id w₀)
unfolding emit
Installing-Stable id w₀ = record {
  on_emit = λ e w i p. record { control = p.control; early = IsEarly-emit id e w i p.early };
  on_call = λ v w p. record { control = p.control; early = p.early };
}

pub Installing-IsLoose : (id : String) (w₀ : World) → IsLoose (Installing id w₀)
Installing-IsLoose id w₀ db w p = record { control = p.control; early = p.early }

-- The world after the deferred calls.
abbrev pub after_defers : AppTask → World → World
after_defers t w = deregister_install t.install_id (unlock_cluster t.cluster_id w)

module _ (t : AppTask) (w₀ w : World) where
  pub Announced-after_defers :
      (s : DeploymentStatus)
      → Announced t.install_id s w
      → Announced t.install_id s (after_defers t w)
  unfolding deregister_install
  Announced-after_defers s a = record {
    older = a.older;
    now = a.now;
    msg = a.msg;
    history = rw (unlock_cluster-hub t.cluster_id w) a.history;
    early = a.early;
  }

  pub after_defers-Freed :
      SameApps w₀ w → is_locked t.cluster_id w₀.mutex ≡ true → Freed t w₀ (after_defers t w)
  unfolding deregister_install unlock_cluster
  after_defers-Freed ((sm, sc, scm, sj), ac, aj) held =
      let (m, e, k) = unlock_lem t.cluster_id w.mutex (rw sm held) in
      record {
        locks = λ id. rw (e, k id, sm) refl;
        crashed = rw (e, sc) refl;
        deregistered = rw (e, lookup-erase, eq_refl) refl;
        jobs = rw (e, aj) refl;
      }
