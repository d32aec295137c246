-- ===== src/Status/Graph.antt =====
-- What the table of statemachine.go allows over several moves.
use bandolier.Prelude.{Bool, true, false, ◌≡◌, refl, ◌≢◌, ◌↔◌, none}
use bandolier.Status.{
  Status, pending, initializing, initialized, deploying, ready, upgrading, degraded, destroying,
  destroyed, error, can_transition,
}

-- Accepted transitions, none of which enters `deploying`.
pub data Avoids : Status → Status → Type 0 where
  stay : {s : Status} → Avoids s s
  move : {s t u : Status} → can_transition s t ≡ none → t ≢ deploying → Avoids t u → Avoids s u

-- The statuses of a cluster whose machines serve, or are being made to.
abbrev pub is_live : Status → Bool
is_live deploying = true
is_live ready = true
is_live upgrading = true
is_live degraded = true
is_live _ = false

-- The configuration of a cluster may be edited (a move to `initializing`) only from a status that
-- is not live and not `destroying`, and from each such status.
pub reinit_iff :
    (s : Status) → (can_transition s initializing ≡ none) ↔ ((is_live s ≡ false) × (s ≢ destroying))
unfolding can_transition
reinit_iff pending = (λ h. (refl, λ e. cc), λ h. refl)
reinit_iff initializing = (λ h. (refl, λ e. cc), λ h. refl)
reinit_iff initialized = (λ h. (refl, λ e. cc), λ h. refl)
reinit_iff deploying = (λ h. absurd (cc), λ h. absurd (cc))
reinit_iff ready = (λ h. absurd (cc), λ h. absurd (cc))
reinit_iff upgrading = (λ h. absurd (cc), λ h. absurd (cc))
reinit_iff degraded = (λ h. absurd (cc), λ h. absurd (cc))
reinit_iff destroying = (λ h. absurd (cc), λ h. absurd (h.1 refl))
reinit_iff destroyed = (λ h. (refl, λ e. cc), λ h. refl)
reinit_iff error = (λ h. (refl, λ e. cc), λ h. refl)

-- Accepted transitions, each to another status.
pub data Walk : Status → Status → Type 0 where
  arrived : {s : Status} → Walk s s
  step : {s t u : Status} → s ≢ t → can_transition s t ≡ none → Walk t u → Walk s u

-- No status is a dead end: accepted transitions lead from each one to `ready`.
pub Walk-ready : (s : Status) → Walk s ready
unfolding can_transition
Walk-ready pending =
    step {t = initializing} (λ e. cc) refl
      (step {t = initialized} (λ e. cc) refl
        (step {t = deploying} (λ e. cc) refl (step (λ e. cc) refl arrived)))
Walk-ready initializing =
    step {t = initialized} (λ e. cc) refl
      (step {t = deploying} (λ e. cc) refl (step (λ e. cc) refl arrived))
Walk-ready initialized = step {t = deploying} (λ e. cc) refl (step (λ e. cc) refl arrived)
Walk-ready deploying = step (λ e. cc) refl arrived
Walk-ready ready = arrived
Walk-ready upgrading = step (λ e. cc) refl arrived
Walk-ready degraded = step {t = deploying} (λ e. cc) refl (step (λ e. cc) refl arrived)
Walk-ready destroying =
    step {t = destroyed} (λ e. cc) refl
      (step {t = deploying} (λ e. cc) refl (step (λ e. cc) refl arrived))
Walk-ready destroyed = step {t = deploying} (λ e. cc) refl (step (λ e. cc) refl arrived)
Walk-ready error = step {t = deploying} (λ e. cc) refl (step (λ e. cc) refl arrived)
