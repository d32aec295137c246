-- ===== src/Status.antt =====
-- api/internal/clusters/statemachine.go: the statuses of a cluster and the moves between them.
-- A status is a text in the source; every writer of the column writes one of these constants.
pub mod Graph
use bandolier.Prelude.{
  Bool, true, false, ◌||◌, List, [], ◌∷◌, Option, none, some, eqb, ℕ, if◌then◌else◌,
}

pub data Status : Type 0 where
  pending initializing initialized deploying ready upgrading degraded destroying destroyed error :
      Status

abbrev pub rank : Status → ℕ
rank pending = 0
rank initializing = 1
rank initialized = 2
rank deploying = 3
rank ready = 4
rank upgrading = 5
rank degraded = 6
rank destroying = 7
rank destroyed = 8
rank error = 9

-- The `==` of two statuses.
abbrev pub same_status : Status → Status → Bool
same_status s t = eqb (rank s) (rank t)

-- The table `allowed`: the statuses that each one may move to.
abbrev pub allowed : Status → List Status
allowed pending = initializing ∷ []
allowed initializing = initialized ∷ error ∷ []
allowed initialized = initializing ∷ deploying ∷ []
allowed deploying = ready ∷ error ∷ []
allowed ready = upgrading ∷ destroying ∷ degraded ∷ []
allowed upgrading = ready ∷ error ∷ []
allowed degraded = deploying ∷ destroying ∷ []
allowed destroying = destroyed ∷ error ∷ []
allowed destroyed = initializing ∷ deploying ∷ []
allowed error = initializing ∷ deploying ∷ destroying ∷ []

-- `_, ok := next[to]`.
abbrev pub has_status : Status → List Status → Bool
has_status t [] = false
has_status t (s ∷ ss) = same_status s t || has_status t ss

pub data TransitionError : Type 0 where
  cannot_transition : Status → Status → TransitionError

unfoldable pub can_transition : Status → Status → Option TransitionError
can_transition from to =
    if same_status from to
    then none
    else (if has_status to (allowed from) then none else some (cannot_transition from to))
