-- ===== src/Deployments/Outcome.antt =====
-- What a goroutine of the executor has done when it ends, and what it has left alone until then.
use mathlib.Core.Option
use bandolier.Prelude.{
  ℕ, String, false, ◌≡◌, ◌≢◌, List, [], ◌∷◌, ◌++◌, Option, All, eq_refl, arith, find_row,
}
use bandolier.Status.{Status}
use bandolier.Store.Tables.{Db, Deployment, DeploymentStatus, Cluster}
use bandolier.Hub.{Event, stamp}
use bandolier.Hub.History.{history_of, history_of-publish, All-append_event, append_event-last}
use bandolier.World.{World}
use bandolier.Deployments.Effects.{emit, complete_event}
use bandolier.Deployments.Stable.{Stable, is_complete}

-- `status` of the deployment's row, and of the cluster's, if they are there.
abbrev pub row_status : String → Db → Option DeploymentStatus
row_status dep db =
    Option.map (λ (d : Deployment). d.status) (find_row (λ d. d.id) dep db.deployments)

abbrev pub cluster_status : String → Db → Option Status
cluster_status id db = Option.map (λ (c : Cluster). c.status) (find_row (λ c. c.id) id db.clusters)

-- The locks, the cancel funcs and the goroutines are as they were.
abbrev pub SameControl : World → World → Type 0
SameControl w₀ w =
    (w.mutex ≡ w₀.mutex)
    × (w.crashed ≡ w₀.crashed)
    × (w.cancel_map ≡ w₀.cancel_map)
    × (w.jobs ≡ w₀.jobs)

abbrev pub IsEarly : Event → Type 0
IsEarly e = is_complete e.type ≡ false

-- The deployment is under way: no terminal event has been published for it.
pub record InProgress (dep : String) (w₀ w : World) : Type 0 where
  pub control : SameControl w₀ w
  pub early : All IsEarly (history_of dep w.hub)

-- The same, and the database has not changed.
pub record Unrecorded (dep : String) (w₀ w : World) : Type 0 where
  pub progress : InProgress dep w₀ w
  pub db : w.db ≡ w₀.db

-- The history ends in the terminal event with that status, and holds no other one.
pub record Announced (dep : String) (s : DeploymentStatus) (w : World) : Type 0 where
  pub older : List Event
  pub now : ℕ
  pub msg : String
  pub history : history_of dep w.hub ≡ older ++ stamp now (complete_event s msg) ∷ []
  pub early : All IsEarly older

stamp-type : (now : ℕ) (e : Event) → (stamp now e).type ≡ e.type
stamp-type now e = ground arith

pub IsEarly-emit :
    (dep : String) (e : Event) (w : World)
    → is_complete e.type ≡ false
    → All IsEarly (history_of dep w.hub)
    → All IsEarly (history_of dep (emit dep e w).hub)
unfolding emit
IsEarly-emit dep e w i h =
    rw (history_of-publish, eq_refl)
      (All-append_event IsEarly (stamp w.clock e) (history_of dep w.hub) h
        (rw (stamp-type w.clock e) i))

pub InProgress-Stable : (dep : String) (w₀ : World) → Stable dep (InProgress dep w₀)
unfolding emit
InProgress-Stable dep w₀ = record {
  on_emit = λ e w i p. record { control = p.control; early = IsEarly-emit dep e w i p.early };
  on_call = λ v w p. record { control = p.control; early = p.early };
}

pub Unrecorded-Stable : (dep : String) (w₀ : World) → Stable dep (Unrecorded dep w₀)
unfolding emit
Unrecorded-Stable dep w₀ = record {
  on_emit = λ e w i p. record {
    progress = record {
      control = p.progress.control;
      early = IsEarly-emit dep e w i p.progress.early;
    };
    db = p.db;
  };
  on_call = λ v w p. record {
    progress = record { control = p.progress.control; early = p.progress.early };
    db = p.db;
  };
}

-- The terminal event is announced.
pub announce :
    (dep : String) (s : DeploymentStatus) (msg : String) (w : World)
    → All IsEarly (history_of dep w.hub)
    → Announced dep s (emit dep (complete_event s msg) w)
unfolding emit
announce dep s msg w h =
    let (older, e, k) =
      append_event-last IsEarly (stamp w.clock (complete_event s msg)) (history_of dep w.hub) h in
    record {
      older = older;
      now = w.clock;
      msg = msg;
      history = rw (history_of-publish, eq_refl) e;
      early = k;
    }

-- The end of a goroutine that failed or was cancelled.
pub record Stopped (dep : String) (w₀ w : World) : Type 0 where
  pub control : SameControl w₀ w
  pub status : DeploymentStatus
  pub unsuccessful : status ≢ DeploymentStatus.succeeded
  pub announced : Announced dep status w

-- The end of a goroutine that ran through.
pub record Succeeded (dep : String) (w₀ w : World) : Type 0 where
  pub control : SameControl w₀ w
  pub announced : Announced dep DeploymentStatus.succeeded w
