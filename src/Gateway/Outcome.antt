-- ===== src/Gateway/Outcome.antt =====
-- apps/mcp-gateway/app/executor.py: `InvocationOutcome`.
use nervora.Base.{ℕ, String, List, Option, none}
use nervora.Json.{Dict}
use nervora.Audit.Models.{CallDecision, denied, dry_run, queued, executed, failed}

pub record InvocationOutcome : Type 0 where
  pub request_id : String
  pub trace_id : String
  pub tool : String
  pub decision : CallDecision
  pub result : Option Dict
  pub job_id : Option String
  pub approval_id : Option String
  pub error_code : Option String
  pub message : Option String
  pub redaction_status : String
  pub redacted_fields : Option (List String)
  pub matched_patterns : Option (List String)
  pub latency_ms : ℕ

-- The required fields, with the defaults of the rest.
abbrev pub outcome : String → String → String → CallDecision → InvocationOutcome
outcome request_id trace_id tool decision = record {
  request_id = request_id;
  trace_id = trace_id;
  tool = tool;
  decision = decision;
  result = none;
  job_id = none;
  approval_id = none;
  error_code = none;
  message = none;
  redaction_status = "none";
  redacted_fields = none;
  matched_patterns = none;
  latency_ms = 0;
}

-- `InvocationOutcome.http_status`
unfoldable pub http_status : InvocationOutcome → ℕ
http_status o = elim o.decision [
  | denied ↦ 403
  | queued ↦ 202
  | dry_run ↦ 200
  | executed ↦ 200
  | failed ↦ 400
  | _ ↦ 200
]
