-- ===== src/Gateway/Request.antt =====
-- apps/mcp-gateway/app/executor.py: what an `Executor` holds, the arguments of `invoke`, the state that
-- a call works on, and the values that every handler is given.
use nervora.Base.{String, Bool, true, false, List, Option, or_else}
use nervora.Json.{Json, str, dict, Dict, end, entry}
use nervora.Pii.{Pattern}
use nervora.Common.Settings.{Settings}
use nervora.Common.Ids.{Ambient, trace_id_of}
use nervora.Auth.Identity.{Principal}
use nervora.Servicebus.Interface.{ReturningQueue}
use nervora.Audit.Models.{CallDecision, ApprovalStatus}
use nervora.ToolRegistry.Spec.{Classification, destructive, ExecutionMode, async, ToolContext}
use nervora.ToolRegistry.Registry.{ToolRegistry}
use nervora.Gateway.Outcome.{InvocationOutcome, outcome}

-- The fields of an executor. `hash` is `sha256_hex`, and `patterns` the table of the redactor.
pub record Executor (Q : Type 0) : Type 0 where
  pub registry : ToolRegistry
  pub settings : Settings
  pub queue : ReturningQueue Q
  pub tool_ctx : ToolContext
  pub known_roles : List String
  pub hash : Json → String
  pub patterns : List Pattern

-- The arguments of `invoke`.
pub record Request : Type 0 where
  pub principal : Principal
  pub tool_name : String
  pub arguments : Dict
  pub idempotency_key : Option String
  pub approval_token : Option String
  pub request_id : Option String

abbrev pub is_destructive : Classification → Bool
is_destructive destructive = true
is_destructive _ = false

abbrev pub is_async : ExecutionMode → Bool
is_async async = true
is_async _ = false

abbrev pub is_approved : ApprovalStatus → Bool
is_approved ApprovalStatus.approved = true
is_approved _ = false

module _ {Q : Type 0} (x : Executor Q) (r : Request) (a : Ambient) where
  abbrev pub request_id : String
  request_id = or_else r.request_id a.request_uuid

  abbrev pub trace_id : String
  trace_id = trace_id_of a

  abbrev pub input_hash : String
  input_hash = x.hash (dict (entry "tool" (str r.tool_name) (entry "args" (dict r.arguments) end)))

  abbrev pub outcome_of : String → CallDecision → InvocationOutcome
  outcome_of tool decision = outcome request_id trace_id tool decision
