-- ===== src/Audit/Models.antt =====
-- packages/audit/models.py: the rows of the six tables. Left out are the timestamps that no code
-- reads, and the `id` of the append-only tables, which is the row's place: `Db` holds each table
-- newest first.
use nervora.Base.{ℕ, String, Bool, List, Option}
use nervora.Json.{Dict}

-- The column `decision` of `tool_calls` and `audit_events`.
pub data CallDecision : Type 0 where
  allowed denied dry_run queued executed failed approved : CallDecision

abbrev pub decision_value : CallDecision → String
decision_value allowed = "allowed"
decision_value denied = "denied"
decision_value dry_run = "dry_run"
decision_value queued = "queued"
decision_value executed = "executed"
decision_value failed = "failed"
decision_value approved = "approved"

pub record AuditEvent : Type 0 where
  pub trace_id : String
  pub request_id : String
  pub event_type : String
  pub user_id : String
  pub agent_id : String
  pub role : String
  pub tool_name : String
  pub decision : CallDecision
  pub detail : Dict
  pub created_at : ℕ

pub record ToolCall : Type 0 where
  pub trace_id : String
  pub request_id : String
  pub user_id : String
  pub agent_id : String
  pub role : String
  pub tool_name : String
  pub input_hash : String
  pub redaction_status : String
  pub decision : CallDecision
  pub error_code : Option String
  pub latency_ms : ℕ
  pub created_at : ℕ

pub record ToolPolicy : Type 0 where
  pub tool_name : String
  pub description : String
  pub required_roles : List String
  pub classification : String
  pub execution_mode : String
  pub pii_classification : String
  pub dry_run_required : Bool
  pub enabled : Bool
  pub updated_at : ℕ

pub data JobStatus : Type 0 where
  queued running succeeded failed dead_letter : JobStatus

pub record AsyncJob : Type 0 where
  pub job_id : String
  pub trace_id : String
  pub request_id : String
  pub tool_name : String
  pub idempotency_key : String
  pub user_id : String
  pub agent_id : String
  pub role : String
  pub payload : Dict
  pub status : JobStatus
  pub attempts : ℕ
  pub result : Option Dict
  pub error_code : Option String
  pub error_detail : Option String

pub data ApprovalStatus : Type 0 where
  pending approved rejected consumed : ApprovalStatus

pub record Approval : Type 0 where
  pub approval_id : String
  pub tool_name : String
  pub resource_id : String
  pub proposed_change : Dict
  pub requested_by_agent : String
  pub requested_by_role : String
  pub status : ApprovalStatus
  pub approved_by : Option String

pub data KeyStatus : Type 0 where
  reserved completed : KeyStatus

pub record IdempotencyKey : Type 0 where
  pub idempotency_key : String
  pub tool_name : String
  pub job_id : Option String
  pub input_hash : String
  pub status : KeyStatus
  pub result : Option Dict

-- The database. `now` is what `_utcnow()` returns during the transaction.
pub record Db : Type 0 where
  pub events : List AuditEvent
  pub tool_calls : List ToolCall
  pub policies : List ToolPolicy
  pub jobs : List AsyncJob
  pub approvals : List Approval
  pub keys : List IdempotencyKey
  pub now : ℕ
