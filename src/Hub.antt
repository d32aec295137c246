-- ===== src/Hub.antt =====
-- api/internal/deployments/stream.go: the events of each deployment, kept and passed on.
pub mod History
pub mod Subscribers
use bandolier.Prelude.{
  ℕ, suc, ◌+◌, ◌-◌, String, Bool, true, false, not, ◌&&◌, List, [], ◌∷◌, ◌++◌, map, Option, none,
  some, ◌==◌, leb, ltb, eqb, if◌then◌else◌, length, drop, keep, get_or, insert,
}
use bandolier.Store.Tables.{Details}

pub data EventType : Type 0 where
  step_start step_end step_progress log ansible_event deployment_complete : EventType

-- `ts` is 0 for the zero time. `data` is the payload of a progress event; that of the playbook's
-- events is left out.
pub record Event : Type 0 where
  pub type : EventType
  pub step : String
  pub stream : String
  pub text : String
  pub status : String
  pub exit : ℕ
  pub ts : ℕ
  pub payload : Details

abbrev pub history_cap : ℕ
history_cap = 5000

-- A channel of capacity `buf`, oldest event first, and the deployment that it listens to.
pub record Subscriber : Type 0 where
  pub channel : ℕ
  pub deployment : String
  pub buf : ℕ
  pub queue : List Event

pub record Hub : Type 0 where
  pub subs : List Subscriber
  pub history : List (String × List Event)
  pub next_channel : ℕ

unfoldable pub new_hub : Hub
new_hub = record { subs = []; history = []; next_channel = 0 }

abbrev pub stamp : ℕ → Event → Event
stamp now e = if eqb e.ts 0 then record e { ts = now } else e

-- FIFO eviction, and the new event at the end.
unfoldable pub append_event : Event → List Event → List Event
append_event e hist =
    (if leb history_cap (length hist) then drop (length hist - history_cap + 1) hist else hist)
    ++ e ∷ []

-- `select { case ch <- e: default: }`: a full channel misses the event.
abbrev pub offer : String → Event → Subscriber → Subscriber
offer dep e s =
    if s.deployment == dep && ltb (length s.queue) s.buf
    then record s { queue = s.queue ++ e ∷ [] }
    else s

unfoldable pub publish : ℕ → String → Event → Hub → Hub
unfolding append_event
publish now dep e h = record h {
  history = insert dep (append_event (stamp now e) (get_or dep [] h.history)) h.history;
  subs = map (offer dep (stamp now e)) h.subs;
}

-- The snapshot of the history, the new channel, and the hub that feeds it.
unfoldable pub subscribe : String → ℕ → Hub → List Event × ℕ × Hub
subscribe dep buf h = (
  get_or dep [] h.history,
  h.next_channel,
  record h {
    subs = record { channel = h.next_channel; deployment = dep; buf = buf; queue = [] } ∷ h.subs;
    next_channel = suc h.next_channel;
  },
)

unfoldable pub unsubscribe : ℕ → Hub → Hub
unsubscribe c h = record h { subs = keep (λ s. not (eqb s.channel c)) h.subs }
