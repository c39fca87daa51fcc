-- ===== src/Gateway/Execution.antt =====
-- apps/mcp-gateway/app/executor.py: the handlers that run a tool at once, `_handle_sync` and
-- `_handle_dry_run`.
use nervora.Base.{none, some, contains}
use nervora.Json.{str, dict, Dict, get, set, as_text, as_dict, dict_or_empty, text_or_empty}
use nervora.Pii.{RedactionResult, redact, status}
use nervora.Common.Ids.{Ambient, gen_approval_id}
use nervora.Audit.Models.{dry_run, executed, Approval, pending, Db}
use nervora.Audit.Repository.{create_approval}
use nervora.ToolRegistry.Spec.{Result, ok, raise, ToolResult, ToolSpec}
use nervora.Gateway.Outcome.{InvocationOutcome}
use nervora.Gateway.Request.{Executor, Request, outcome_of}

module _ {Q : Type 0} (x : Executor Q) (r : Request) (a : Ambient) where
  -- `_redact_output`
  unfoldable pub redact_output : ToolSpec → Dict → RedactionResult
  redact_output spec output =
      redact x.patterns spec.sensitive_fields (contains spec.raw_pii_roles r.principal.role)
        (dict output)

  -- `_handle_sync`
  unfoldable pub handle_sync : ToolSpec → Dict → Result InvocationOutcome
  unfolding redact_output
  handle_sync spec args = elim (spec.run x.tool_ctx args) [
    | raise e ↦ raise e
    | ok result ↦
        let red = redact_output spec result.output in
        ok (record (outcome_of x r a spec.name executed) {
          result = some (as_dict red.output);
          redaction_status = status red;
          redacted_fields = some red.redacted_fields;
          matched_patterns = some red.matched_patterns;
        })
  ]

  -- The approval that a dry run asks for; a `resource_id` that is no text counts as missing.
  abbrev pub new_approval : ToolSpec → ToolResult → Approval
  new_approval spec result = record {
    approval_id = gen_approval_id a;
    tool_name = spec.name;
    resource_id = text_or_empty (as_text (get result.metadata "resource_id"));
    proposed_change = dict_or_empty (get result.metadata "proposed_change");
    requested_by_agent = r.principal.agent_id;
    requested_by_role = r.principal.role;
    status = pending;
    approved_by = none;
  }

  -- `_handle_dry_run`
  unfoldable pub handle_dry_run : ToolSpec → Dict → Db → Result InvocationOutcome × Db
  unfolding redact_output create_approval
  handle_dry_run spec args db = elim (spec.run x.tool_ctx args) [
    | raise e ↦ (raise e, db)
    | ok result ↦
        let approval_id = gen_approval_id a in
        let red = redact_output spec result.output in
        (
          ok (record (outcome_of x r a spec.name dry_run) {
            result = some (set (as_dict red.output) "approval_id" (str approval_id));
            approval_id = some approval_id;
            redaction_status = status red;
            redacted_fields = some red.redacted_fields;
            matched_patterns = some red.matched_patterns;
            message = some "Dry run only — no writes performed. Human approval required.";
          }),
          create_approval (new_approval spec result) db,
        )
  ]
