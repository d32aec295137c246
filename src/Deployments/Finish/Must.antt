-- ===== src/Deployments/Finish/Must.antt =====
-- Rules for the early returns of the goroutines: a step that keeps what is stable for the
-- deployment, and a `fail` that takes over where it ends in an error.
use bandolier.Prelude.{String, false, ◌≡◌, refl}
use bandolier.Hub.{Event}
use bandolier.World.{World}
use bandolier.World.Exec.{Exec, modify}
use bandolier.World.Triples.{Spec, Spec-bind, Spec-catch, Spec-modify}
use bandolier.Deployments.Effects.{must, emit, ended_event}
use bandolier.Deployments.Finish.{Task, end_and}
use bandolier.Deployments.Stable.{Stable, is_complete}

module _ {dep : String} {I E : World → Type 0} (st : Stable dep I) where
  pub emit-Spec : (e : Event) → is_complete e.type ≡ false → Spec I I E (modify (emit dep e))
  emit-Spec e early = Spec-modify _ (λ w. st.on_emit e w early)

  module _ {A : Type 0} (fail : String → Exec A)
      (failing : (msg : String) → Spec I I E (fail msg)) where
    pub must-Spec : (prefix : String) (m : Exec A) → Spec I I I m → Spec I I E (must fail prefix m)
    must-Spec prefix m sm = Spec-catch m _ sm (λ e. failing _)

pub end_must-Spec :
    (t : Task) {I E : World → Type 0}
    → Stable t.dep_id I
    → {A : Type 0} (fail : String → Exec A) → ((msg : String) → Spec I I E (fail msg))
    → (name prefix : String) (m : Exec A) → Spec I I I m
    → Spec I I E (must (end_and t name fail) prefix m)
end_must-Spec t st fail failing name prefix m sm =
    must-Spec st (end_and t name fail)
      (λ msg. Spec-bind _ _ (emit-Spec st (ended_event name 1) refl) (λ _. failing msg)) prefix m sm
