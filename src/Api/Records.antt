-- ===== src/Api/Records.antt =====
-- apps/mcp-gateway/app/main.py: the routes over the rows: jobs, approvals, the audit trail and the
-- queue. A route that raises an `HTTPException` refuses with its status and detail.
use nervora.Base.{ℕ, String, List, Option, none, some, ◌==◌, if◌then◌else◌, map}
use nervora.Json.{str, Dict, end, entry}
use nervora.Rbac.{role_value, admin_agent}
use nervora.Common.Settings.{Settings}
use nervora.Auth.Identity.{Principal}
use nervora.Servicebus.Local.{LocalQueue, stats}
use nervora.Audit.Models.{
  CallDecision, approved, AuditEvent, ToolCall, JobStatus, Approval, ApprovalStatus, Db,
}
use nervora.Audit.Repository.{
  record_event, get_job, get_approval, set_approval, recent_tool_calls, recent_events,
}
use nervora.Audit.Session.{Session, session_scope}

pub data Reply (A : Type 0) : Type 0 where
  replied : A → Reply A
  http_error : ℕ → String → Reply A

pub record JobView : Type 0 where
  pub job_id : String
  pub tool_name : String
  pub status : JobStatus
  pub attempts : ℕ
  pub result : Option Dict
  pub error_code : Option String
  pub trace_id : String

-- `get_job`
unfoldable pub job_view : String → Db → Reply JobView
job_view job_id db = elim (get_job job_id db) [
  | none ↦ http_error 404 "job not found"
  | some job ↦ replied (record {
    job_id = job.job_id;
    tool_name = job.tool_name;
    status = job.status;
    attempts = job.attempts;
    result = job.result;
    error_code = job.error_code;
    trace_id = job.trace_id;
  })
]

-- The event of an approval.
abbrev pub approval_event : Principal → Approval → String → AuditEvent
approval_event principal approval approval_id = record {
  trace_id = "";
  request_id = "";
  event_type = "approval.approved";
  user_id = principal.subject;
  agent_id = principal.agent_id;
  role = principal.role;
  tool_name = approval.tool_name;
  decision = approved;
  detail = entry "approval_id" (str approval_id) end;
  created_at = 0;
}

unfoldable pub mark_approved : Principal → Approval → Approval
mark_approved principal approval = record approval {
  status = ApprovalStatus.approved;
  approved_by = some principal.subject;
}

abbrev pub approve_body : Principal → String → Dict
approve_body principal approval_id =
    entry "approval_id" (str approval_id)
      (entry "status" (str "approved") (entry "approved_by" (str principal.subject) end))

-- `approve`. What is raised inside the session rolls it back.
unfoldable pub approve : Principal → String → Db → Option (Reply Dict) × Db
unfolding mark_approved
approve principal approval_id db =
    if principal.role == role_value admin_agent
    then elim (get_approval approval_id db) [
      | none ↦ (some (http_error 404 "approval not found"), db)
      | some approval ↦
          elim (session_scope
            (λ d. (
              tt,
              record_event (approval_event principal approval approval_id)
                  (set_approval approval.approval_id (mark_approved principal) d),
            ))
            db) [
              | Session.committed _ db' ↦ (some (replied (approve_body principal approval_id)), db')
              | Session.rolled_back _ db' ↦ (none, db')
            ]
    ]
    else (some (http_error 403 "only the admin_agent role may approve"), db)

-- `GET /audit/tool-calls`: the columns of a row that it shows.
pub record ToolCallView : Type 0 where
  pub request_id : String
  pub trace_id : String
  pub tool_name : String
  pub role : String
  pub agent_id : String
  pub decision : CallDecision
  pub redaction_status : String
  pub error_code : Option String
  pub latency_ms : ℕ
  pub created_at : ℕ

unfoldable pub audit_tool_calls : ℕ → Db → List ToolCallView
audit_tool_calls limit db =
    map
      (λ (r : ToolCall). record {
        request_id = r.request_id;
        trace_id = r.trace_id;
        tool_name = r.tool_name;
        role = r.role;
        agent_id = r.agent_id;
        decision = r.decision;
        redaction_status = r.redaction_status;
        error_code = r.error_code;
        latency_ms = r.latency_ms;
        created_at = r.created_at;
      })
      (recent_tool_calls limit db)

pub record EventView : Type 0 where
  pub event_type : String
  pub trace_id : String
  pub tool_name : String
  pub role : String
  pub decision : CallDecision
  pub detail : Dict
  pub created_at : ℕ

unfoldable pub audit_events : ℕ → Db → List EventView
audit_events limit db =
    map
      (λ (r : AuditEvent). record {
        event_type = r.event_type;
        trace_id = r.trace_id;
        tool_name = r.tool_name;
        role = r.role;
        decision = r.decision;
        detail = r.detail;
        created_at = r.created_at;
      })
      (recent_events limit db)

-- `GET /queue/stats` of the local backend: the queue's name and its counts.
unfoldable pub queue_stats : Settings → LocalQueue → String × List (String × ℕ)
queue_stats settings queue = (settings.servicebus_queue_name, stats queue)
