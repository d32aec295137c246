-- ===== src/Deployments/Effects.antt =====
-- The small effects that the executor's operations share: its cluster lock, the cancel map
-- (deployments/cancel.go), the events of the hub, the audit row, and early returns.
use bandolier.Prelude.{
  ℕ, String, Bool, true, false, List, [], ◌∷◌, Option, none, some, lookup, insert, erase,
}
use bandolier.Text.{◌<>◌, error_text}
use bandolier.Store.Tables.{DeploymentStatus, Outcome, Action, Details}
use bandolier.Store.Audits.{insert_audit_entry}
use bandolier.Mutex.{ClusterMutex, try_lock, unlock}
use bandolier.Hub.{
  Event, EventType, publish, step_start, step_end, log, ansible_event, deployment_complete,
}
use bandolier.Result.{Result, ok, err, not_cancellable}
use bandolier.World.{Ctx, Env, Command, Line, stdout, playbook_event, World}
use bandolier.World.Exec.{Exec, ignore, catch}
use bandolier.World.Calls.{statement, run_command}

abbrev put_mutex : World → Bool × ClusterMutex → Result Bool × World
put_mutex w (b, m) = (ok b, record w { mutex = m })

-- `e.Mutex.TryLock`
unfoldable pub lock_cluster : String → Exec Bool
unfolding try_lock
lock_cluster id w = put_mutex w (try_lock id w.mutex)

abbrev after_unlock : World → Option ClusterMutex → World
after_unlock w none = record w { crashed = true }
after_unlock w (some m) = record w { mutex = m }

-- `e.Mutex.Unlock`
unfoldable pub unlock_cluster : String → World → World
unfolding unlock
unlock_cluster id w = after_unlock w (unlock id w.mutex)

unfoldable pub register : String → World → World
register dep w = record w { cancel_map = insert dep none w.cancel_map }

unfoldable pub deregister : String → World → World
deregister dep w = record w { cancel_map = erase dep w.cancel_map }

-- The first call of a cancel func fixes the time of the cancellation.
abbrev pub first_call : ℕ → Option ℕ → Option ℕ
first_call now none = some now
first_call now (some n) = some n

unfoldable pub cancel : String → Exec (Unit {0})
cancel dep w = elim (lookup dep w.cancel_map) [
  | none ↦ (err not_cancellable, w)
  | some called ↦
      (ok tt, record w { cancel_map = insert dep (first_call w.clock called) w.cancel_map })
]

-- `e.Hub.Publish`
unfoldable pub emit : String → Event → World → World
emit dep e w = record w { hub = publish w.clock dep e w.hub }

abbrev pub event : EventType → String → Event
event t name = record {
  type = t;
  step = name;
  stream = "";
  text = "";
  status = "";
  exit = 0;
  ts = 0;
  payload = [];
}

abbrev pub started_event : String → Event
started_event name = event step_start name

abbrev pub ended_event : String → ℕ → Event
ended_event name exit = record (event step_end name) { exit = exit }

abbrev pub log_event : String → Event
log_event text = record (event log "") { text = text }

abbrev pub status_text : DeploymentStatus → String
status_text DeploymentStatus.running = "running"
status_text DeploymentStatus.succeeded = "succeeded"
status_text DeploymentStatus.failed = "failed"
status_text DeploymentStatus.cancelled = "cancelled"

abbrev pub complete_event : DeploymentStatus → String → Event
complete_event s text = record (event deployment_complete "") {
  status = status_text s;
  text = text;
}

-- `finishStatus`: an operation that was cancelled is told apart from one that failed.
unfoldable pub finish_status : Bool → Bool → DeploymentStatus × Outcome
finish_status true natural_failure = (DeploymentStatus.cancelled, Outcome.cancelled)
finish_status false true = (DeploymentStatus.failed, Outcome.failed)
finish_status false false = (DeploymentStatus.succeeded, Outcome.succeeded)

abbrev pub line_event : Line → Event
line_event (stdout text) = record (event log "") { stream = "stdout"; text = text }
line_event playbook_event = event ansible_event ""

-- `teeWriter.Write` for each line, and `onEvent` of the playbook.
unfoldable pub emit_lines : String → List Line → World → World
emit_lines dep [] w = w
emit_lines dep (l ∷ ls) w = emit_lines dep ls (emit dep (line_event l) w)

module _ (env : Env) where
  -- A command whose output goes to the log and the hub.
  unfoldable pub run_streamed : String → Command → Exec (Unit {0})
  unfolding emit_lines
  run_streamed dep c w = run_command env c (emit_lines dep (env.printed c w.clock) w)

  -- `audit.Write`, with its error dropped as everywhere in the program.
  unfoldable pub audit : Ctx → ℕ → Action → String → Outcome → Details → Exec (Unit {0})
  audit ctx actor action target outcome details = ignore (
      statement env ctx λ now. insert_audit_entry now (record {
        actor_id = actor;
        action = action;
        target = target;
        outcome = outcome;
        details = details;
      }))

-- `if err := m; err != nil { fail(prefix + err.Error()); return }`
abbrev pub must {ℓ} : {A : Type ℓ} → (String → Exec A) → String → Exec A → Exec A
must fail prefix m = catch m (λ e. fail (prefix <> error_text e))
