-- ===== src/Audit/Repository.antt =====
-- packages/audit/repository.py: `AuditRepository`, each method as a function of the database that
-- its session sees.
use nervora.Base.{ℕ, String, List, ◌∷◌, Option, none, some, take}
use nervora.Base.Table.{find, update}
use nervora.Json.{Dict, end}
use nervora.Audit.Models.{
  AuditEvent, ToolCall, ToolPolicy, JobStatus, AsyncJob, Approval, reserved, completed,
  IdempotencyKey, Db,
}

-- `IdempotencyConflict`, or the row that was reserved.
pub data Reservation : Type 0 where
  reserved_row : IdempotencyKey → Reservation
  conflict : String → Reservation

-- `detail or {}`
abbrev pub or_empty : Option Dict → Dict
or_empty none = end
or_empty (some d) = d

-- A column that is assigned only `if value is not None`.
abbrev pub or_keep : {A : Type 0} → Option A → A → A
or_keep none old = old
or_keep (some new) old = new

abbrev pub or_keep_optional : {A : Type 0} → Option A → Option A → Option A
or_keep_optional none old = old
or_keep_optional (some new) old = some new

-- `record_event`; the row's time is the database's.
unfoldable pub record_event : AuditEvent → Db → Db
record_event event db = record db { events = record event { created_at = db.now } ∷ db.events }

unfoldable pub record_tool_call : ToolCall → Db → Db
record_tool_call call db = record db {
  tool_calls = record call { created_at = db.now } ∷ db.tool_calls;
}

-- `upsert_policy`: the row is created if `session.get` finds none, and its columns are assigned.
unfoldable pub upsert_policy : ToolPolicy → Db → Db
upsert_policy policy db = elim (find (λ p. p.tool_name) policy.tool_name db.policies) [
  | none ↦ record db { policies = record policy { updated_at = db.now } ∷ db.policies }
  | some row ↦ record db {
    policies =
        update (λ p. p.tool_name) policy.tool_name (λ _. record policy { updated_at = db.now })
          db.policies;
  }
]

unfoldable pub create_job : AsyncJob → Db → Db
create_job job db = record db { jobs = job ∷ db.jobs }

unfoldable pub get_job : String → Db → Option AsyncJob
get_job job_id db = find (λ j. j.job_id) job_id db.jobs

-- The keyword arguments of `set_job_status`.
pub record JobUpdate : Type 0 where
  pub status : JobStatus
  pub result : Option Dict
  pub error_code : Option String
  pub error_detail : Option String
  pub attempts : Option ℕ

unfoldable pub apply_update : JobUpdate → AsyncJob → AsyncJob
apply_update u job = record job {
  status = u.status;
  result = or_keep_optional u.result job.result;
  error_code = or_keep_optional u.error_code job.error_code;
  error_detail = or_keep_optional u.error_detail job.error_detail;
  attempts = or_keep u.attempts job.attempts;
}

-- `session.get` of a None key finds no row.
unfoldable pub set_job_status : Option String → JobUpdate → Db → Db
set_job_status none u db = db
set_job_status (some job_id) u db = record db {
  jobs = update (λ j. j.job_id) job_id (apply_update u) db.jobs;
}

unfoldable pub get_idempotency : String → Db → Option IdempotencyKey
get_idempotency key db = find (λ k. k.idempotency_key) key db.keys

unfoldable pub reserve_idempotency : IdempotencyKey → Db → Reservation × Db
unfolding get_idempotency
reserve_idempotency row db = elim (get_idempotency row.idempotency_key db) [
  | some _ ↦ (conflict row.idempotency_key, db)
  | none ↦
      let new : IdempotencyKey = record row { status = reserved } in
      (reserved_row new, record db { keys = new ∷ db.keys })
]

unfoldable pub complete_key : Dict → IdempotencyKey → IdempotencyKey
complete_key result row = record row { status = completed; result = some result }

unfoldable pub complete_idempotency : String → Dict → Db → Db
complete_idempotency key result db = record db {
  keys = update (λ k. k.idempotency_key) key (complete_key result) db.keys;
}

unfoldable pub create_approval : Approval → Db → Db
create_approval approval db = record db { approvals = approval ∷ db.approvals }

unfoldable pub get_approval : String → Db → Option Approval
get_approval approval_id db = find (λ a. a.approval_id) approval_id db.approvals

-- Assignments to the columns of the approval that `get_approval` returned.
unfoldable pub set_approval : String → (Approval → Approval) → Db → Db
set_approval approval_id f db = record db {
  approvals = update (λ a. a.approval_id) approval_id f db.approvals;
}

unfoldable pub recent_tool_calls : ℕ → Db → List ToolCall
recent_tool_calls limit db = take limit db.tool_calls

unfoldable pub recent_events : ℕ → Db → List AuditEvent
recent_events limit db = take limit db.events
