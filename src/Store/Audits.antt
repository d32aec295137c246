-- ===== src/Store/Audits.antt =====
-- api/internal/audit/log.go and the insertion of store/audit.go. Actions and outcomes are the
-- constants of audit/actions.go, so the two checks of `Write` on them always pass, and
-- `json.Marshal` does not fail on the values that `details` holds.
use bandolier.Prelude.{ℕ, String, [], ◌∷◌, ◌++◌, Option, none, some, ◌==◌, if◌then◌else◌, eqb}
use bandolier.Result.{Result, ok, err, failure}
use bandolier.Store.Tables.{Action, Outcome, Details, AuditRow, Db}
use bandolier.Store.Deployments.{actor_known}

pub record Entry : Type 0 where
  pub actor_id : ℕ
  pub action : Action
  pub target : String
  pub outcome : Outcome
  pub details : Details

-- store/nullable.go
abbrev pub nullable_int : ℕ → Option ℕ
nullable_int v = if eqb v 0 then none else some v

abbrev pub nullable_string : String → Option String
nullable_string v = if v == "" then none else some v

abbrev pub nullable_details : Details → Option Details
nullable_details [] = none
nullable_details (d ∷ ds) = some (d ∷ ds)

abbrev pub row_of : ℕ → Entry → AuditRow
row_of now e = record {
  actor_id = nullable_int e.actor_id;
  action = e.action;
  target = nullable_string e.target;
  outcome = e.outcome;
  ts = now;
  details = nullable_details e.details;
}

unfoldable pub insert_audit_entry : ℕ → Entry → Db → Result (Unit {0}) × Db
insert_audit_entry now e db =
    if actor_known (nullable_int e.actor_id) db
    then (ok tt, record db { audit_log = db.audit_log ++ row_of now e ∷ [] })
    else (err (failure "FOREIGN KEY constraint failed"), db)
