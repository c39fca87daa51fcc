-- ===== src/Gateway/Executor.antt =====
-- apps/mcp-gateway/app/executor.py: `Executor.invoke`, the pipeline around the handlers.
use nervora.Base.{String, [], ◌∷◌, Option, none, some, if◌then◌else◌, fstring}
use nervora.Json.{Dict, end, entry, optional}
use nervora.Rbac.{evaluate, code}
use nervora.Common.Ids.{Ambient}
use nervora.Audit.Models.{CallDecision, denied, failed, decision_value, AuditEvent, ToolCall, Db}
use nervora.Audit.Repository.{record_event, record_tool_call}
use nervora.Audit.Session.{Session, session_scope}
use nervora.ToolRegistry.Spec.{Exn, tool_error, exception, Result, ok, raise, ToolSpec}
use nervora.ToolRegistry.Registry.{get_tool}
use nervora.Gateway.Outcome.{InvocationOutcome}
use nervora.World.{World}
use nervora.Gateway.Request.{
  Executor, Request, is_destructive, is_async, request_id, trace_id, input_hash, outcome_of,
}
use nervora.Gateway.Execution.{handle_sync, handle_dry_run}
use nervora.Gateway.Queueing.{handle_async}
use nervora.Gateway.Destructive.{handle_destructive}

module _ {Q : Type 0} (x : Executor Q) (r : Request) (a : Ambient) where
  -- `except ToolError`, and `except Exception` for the rest.
  unfoldable pub failure : Exn → InvocationOutcome
  failure (tool_error message error_code) = record (outcome_of x r a r.tool_name failed) {
    error_code = some error_code;
    message = some message;
  }
  failure (exception message) = record (outcome_of x r a r.tool_name failed) {
    error_code = some "INTERNAL_ERROR";
    message = some message;
  }

  abbrev pub caught : Result InvocationOutcome → InvocationOutcome
  caught (ok o) = o
  caught (raise e) = failure e

  -- The route by classification and mode, with what a handler raises caught around it.
  unfoldable pub route : ToolSpec → Dict → World Q → InvocationOutcome × World Q
  unfolding failure
  route spec args w =
      if is_destructive spec.classification
      then (let (result, db) = handle_destructive x r a spec args w.db in
          (caught result, record w { db = db }))
      else if spec.dry_run_required
      then (let (result, db) = handle_dry_run x r a spec args w.db in
          (caught result, record w { db = db }))
      else if is_async spec.execution_mode
      then (let (result, w') = handle_async x r a spec args w in (caught result, w'))
      else (caught (handle_sync x r a spec args), w)

  abbrev pub refused : CallDecision → String → String → InvocationOutcome
  refused decision error_code message = record (outcome_of x r a r.tool_name decision) {
    error_code = some error_code;
    message = some message;
  }

  abbrev text_of : Exn → String
  text_of (tool_error message error_code) = message
  text_of (exception message) = message

  -- The body of `invoke` up to the record of its outcome: the unknown tool, RBAC, the arguments,
  -- the route.
  unfoldable pub decide : World Q → InvocationOutcome × World Q
  decide w = elim (get_tool x.registry r.tool_name) [
    | none ↦ (
      refused denied "UNKNOWN_TOOL"
          (fstring ("tool '" ∷ r.tool_name ∷ "' is not in the published registry" ∷ [])),
      w,
    )
    | some spec ↦
        let decision = evaluate r.principal.role spec.required_roles x.known_roles spec.enabled in
        if decision.allowed
        then elim (spec.validate_args r.arguments) [
          | raise e ↦ (refused failed "INVALID_ARGUMENTS" (text_of e), w)
          | ok args ↦ route spec args w
        ]
        else (refused denied (code decision) decision.detail, w)
  ]

  abbrev pub call_row : InvocationOutcome → ToolCall
  call_row o = record {
    trace_id = trace_id x r a;
    request_id = request_id x r a;
    user_id = r.principal.subject;
    agent_id = r.principal.agent_id;
    role = r.principal.role;
    tool_name = r.tool_name;
    input_hash = input_hash x r a;
    redaction_status = o.redaction_status;
    decision = o.decision;
    error_code = o.error_code;
    latency_ms = o.latency_ms;
    created_at = 0;
  }

  abbrev pub event_row : InvocationOutcome → AuditEvent
  event_row o = record {
    trace_id = trace_id x r a;
    request_id = request_id x r a;
    event_type = fstring ("tool." ∷ decision_value o.decision ∷ []);
    user_id = r.principal.subject;
    agent_id = r.principal.agent_id;
    role = r.principal.role;
    tool_name = r.tool_name;
    decision = o.decision;
    detail = entry "error_code" (optional o.error_code) (entry "message" (optional o.message) end);
    created_at = 0;
  }

  -- `finish`
  unfoldable pub finish : InvocationOutcome → Db → InvocationOutcome × Db
  unfolding record_tool_call record_event
  finish o db =
      let timed : InvocationOutcome = record o { latency_ms = a.elapsed } in
      (timed, record_event (event_row timed) (record_tool_call (call_row timed) db))

  -- `invoke`: the session that commits what `finish` leaves, or raises and keeps only what was
  -- published.
  unfoldable pub invoke : World Q → Option InvocationOutcome × World Q
  unfolding finish session_scope
  invoke w =
      let body : Db → (InvocationOutcome × Q) × Db = (λ db.
        let (o, w') = decide (record w { db = db }) in
        let (o', db') = finish o w'.db in ((o', w'.queue), db')) in
      elim (session_scope body w.db) [
        | Session.committed (o, queue) db ↦ (some o, record { db = db; queue = queue })
        | Session.rolled_back (o, queue) db ↦ (none, record { db = db; queue = queue })
      ]
