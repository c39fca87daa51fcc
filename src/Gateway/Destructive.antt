-- ===== src/Gateway/Destructive.antt =====
-- apps/mcp-gateway/app/executor.py: the gate of a destructive tool, `_handle_destructive`.
use nervora.Base.{String, Bool, true, not, ◌||◌, Option, none, some, ◌==◌, if◌then◌else◌, truthy}
use nervora.Json.{Dict, get, as_text, as_dict}
use nervora.Pii.{status}
use nervora.Common.Ids.{Ambient}
use nervora.Audit.Models.{denied, executed, Approval, consumed, Db}
use nervora.Audit.Repository.{get_approval, set_approval}
use nervora.ToolRegistry.Spec.{Result, ok, raise, ToolSpec}
use nervora.Gateway.Outcome.{InvocationOutcome}
use nervora.Gateway.Request.{Executor, Request, is_approved, outcome_of}
use nervora.Gateway.Execution.{redact_output}

-- `not configured or not approval_token or approval_token != configured`
unfoldable pub token_refused : String → Option String → Bool
token_refused configured none = true
token_refused configured (some token) =
    not (truthy configured) || (not (truthy token) || not (token == configured))

-- `repo.get_approval(approval_id) if approval_id else None`
unfoldable pub approval_for : Option String → Db → Option Approval
approval_for none db = none
approval_for (some approval_id) db =
    if truthy approval_id then get_approval approval_id db else none

module _ {Q : Type 0} (x : Executor Q) (r : Request) (a : Ambient) where
  abbrev pub denied_by : String → String → String → InvocationOutcome
  denied_by tool error_code message = record (outcome_of x r a tool denied) {
    error_code = some error_code;
    message = some message;
  }

  unfoldable pub consume : Approval → Approval
  consume approval = record approval { status = consumed; approved_by = some r.principal.subject }

  abbrev pub not_approved : String → InvocationOutcome
  not_approved tool =
      denied_by tool "APPROVAL_NOT_APPROVED"
        "referenced approval does not exist or is not in 'approved' state"

  -- The part of `_handle_destructive` behind the gate.
  unfoldable pub execute_approved :
      ToolSpec → Dict → Option String → Approval → Db → Result InvocationOutcome × Db
  unfolding redact_output set_approval consume
  execute_approved spec args approval_id approval db = elim (spec.run x.tool_ctx args) [
    | raise e ↦ (raise e, db)
    | ok result ↦
        let red = redact_output x r a spec result.output in
        (
          ok (record (outcome_of x r a spec.name executed) {
            result = some (as_dict red.output);
            approval_id = approval_id;
            redaction_status = status red;
          }),
          set_approval approval.approval_id consume db,
        )
  ]

  -- `_handle_destructive`
  unfoldable pub handle_destructive : ToolSpec → Dict → Db → Result InvocationOutcome × Db
  unfolding token_refused approval_for execute_approved
  handle_destructive spec args db =
      if not spec.enabled
      then (
        ok (
            denied_by spec.name "tool_disabled"
              "destructive tool is disabled in this environment (demo mode)"),
        db,
      )
      else if token_refused x.settings.admin_approval_token r.approval_token
      then (
        ok (
            denied_by spec.name "APPROVAL_REQUIRED"
              "a valid X-Approval-Token is required for destructive execution"),
        db,
      )
      else let approval_id = as_text (get args "approved_change_id") in
        elim (approval_for approval_id db) [
          | none ↦ (ok (not_approved spec.name), db)
          | some approval ↦
              if is_approved approval.status
              then execute_approved spec args approval_id approval db
              else (ok (not_approved spec.name), db)
        ]
