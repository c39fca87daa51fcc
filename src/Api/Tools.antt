-- ===== src/Api/Tools.antt =====
-- apps/mcp-gateway/app/main.py: the routes over the tools: the policy snapshot, `GET /tools`,
-- `GET /health/ai` and `POST /tools/{tool_name}/invoke`, with the bodies of schemas.py.
use nervora.Base.{
  ℕ, String, Bool, ◌+◌, ◌-◌, ◌||◌, List, [], ◌∷◌, Option, none, some, ◌==◌, if◌then◌else◌, map,
  length,
}
use nervora.Json.{str, bool, int, pos, list, dict, Items, nil, cons, Dict, end, entry}
use nervora.Common.Ids.{Ambient}
use nervora.Auth.Identity.{Principal}
use nervora.Audit.Models.{CallDecision, ToolPolicy, Db}
use nervora.Audit.Repository.{upsert_policy}
use nervora.Audit.Session.{Session, session_scope}
use nervora.ToolRegistry.Spec.{ToolSpec, classification_value, mode_value, pii_value}
use nervora.ToolRegistry.Registry.{ToolRegistry, list_tools}
use nervora.World.{World}
use nervora.Gateway.Outcome.{InvocationOutcome, http_status}
use nervora.Gateway.Request.{Executor, Request}
use nervora.Gateway.Executor.{invoke}

-- The snapshot of a tool's policy that `_sync_policies` writes, from `policy_dict`.
unfoldable pub policy_of : ToolSpec → ToolPolicy
policy_of spec = record {
  tool_name = spec.name;
  description = spec.description;
  required_roles = spec.required_roles;
  classification = classification_value spec.classification;
  execution_mode = mode_value spec.execution_mode;
  pii_classification = pii_value spec.pii_classification;
  dry_run_required = spec.dry_run_required;
  enabled = spec.enabled;
  updated_at = 0;
}

-- The loop of `_sync_policies`.
unfoldable pub upsert_all : List ToolSpec → Db → Db
upsert_all [] db = db
upsert_all (spec ∷ specs) db = upsert_all specs (upsert_policy (policy_of spec) db)

-- `_sync_policies`
unfoldable pub sync_policies : ToolRegistry → Db → Session Unit
unfolding upsert_all
sync_policies registry db = session_scope (λ d. (tt, upsert_all (list_tools registry) d)) db

-- `ToolPolicyView`
pub record ToolPolicyView : Type 0 where
  pub name : String
  pub description : String
  pub required_roles : List String
  pub classification : String
  pub execution_mode : String
  pub pii_classification : String
  pub dry_run_required : Bool
  pub enabled : Bool
  pub requires_approval_token : Bool

-- `ToolPolicyView(**spec.policy_dict())`
unfoldable pub policy_view : ToolSpec → ToolPolicyView
policy_view spec = record {
  name = spec.name;
  description = spec.description;
  required_roles = spec.required_roles;
  classification = classification_value spec.classification;
  execution_mode = mode_value spec.execution_mode;
  pii_classification = pii_value spec.pii_classification;
  dry_run_required = spec.dry_run_required;
  enabled = spec.enabled;
  requires_approval_token = spec.requires_approval_token;
}

-- `GET /tools`
unfoldable pub tool_views : ToolRegistry → List ToolPolicyView
tool_views registry = map policy_view (list_tools registry)

abbrev texts : List String → Items
texts [] = nil
texts (s ∷ ss) = cons (str s) (texts ss)

-- An entry of the registry in `GET /health/ai`.
unfoldable pub tool_entry : ToolSpec → Dict
tool_entry spec = entry "name" (str spec.name) (
    entry "classification" (str (classification_value spec.classification)) (
      entry "execution_mode" (str (mode_value spec.execution_mode)) (
        entry "enabled" (bool spec.enabled) (
          entry "requires_approval" (bool (spec.dry_run_required || spec.requires_approval_token))
            (entry "required_roles" (list (texts spec.required_roles)) end)))))

unfoldable pub count_enabled : List ToolSpec → ℕ
count_enabled [] = 0
count_enabled (spec ∷ specs) =
    let rest = count_enabled specs in if spec.enabled then rest + 1 else rest

abbrev entries : List ToolSpec → Items
entries [] = nil
entries (spec ∷ specs) = cons (dict (tool_entry spec)) (entries specs)

-- The part `tools` of `GET /health/ai`.
unfoldable pub health_tools : ToolRegistry → Dict
health_tools registry =
    let specs = list_tools registry in
    entry "total" (int (pos (length specs))) (
      entry "enabled" (int (pos (count_enabled specs))) (
        entry "disabled" (int (pos (length specs - count_enabled specs)))
          (entry "registry" (list (entries specs)) end)))

-- `InvokeRequest` and the headers of `POST /tools/{tool_name}/invoke`.
pub record InvokeRequest : Type 0 where
  pub arguments : Dict
  pub idempotency_key : Option String
  pub idempotency_header : Option String
  pub approval_header : Option String

pub record InvokeResponse : Type 0 where
  pub status_code : ℕ
  pub trace_header : String
  pub request_header : String
  pub request_id : String
  pub trace_id : String
  pub tool : String
  pub decision : CallDecision
  pub result : Option Dict
  pub job_id : Option String
  pub approval_id : Option String
  pub error_code : Option String
  pub message : Option String
  pub latency_ms : ℕ
  pub status : String
  pub redacted_fields : List String
  pub matched_patterns : List String

-- `xs or []`
abbrev list_or_empty : Option (List String) → List String
list_or_empty none = []
list_or_empty (some xs) = xs

unfoldable pub invoke_response : InvocationOutcome → InvokeResponse
invoke_response o = record {
  status_code = http_status o;
  trace_header = o.trace_id;
  request_header = o.request_id;
  request_id = o.request_id;
  trace_id = o.trace_id;
  tool = o.tool;
  decision = o.decision;
  result = o.result;
  job_id = o.job_id;
  approval_id = o.approval_id;
  error_code = o.error_code;
  message = o.message;
  latency_ms = o.latency_ms;
  status = o.redaction_status;
  redacted_fields = list_or_empty o.redacted_fields;
  matched_patterns = list_or_empty o.matched_patterns;
}

-- `idempotency_key or body.idempotency_key`
abbrev pub first_key : Option String → Option String → Option String
first_key none body = body
first_key (some header) body = if header == "" then body else some header

abbrev pub request_of : Principal → String → InvokeRequest → Request
request_of principal tool_name body = record {
  principal = principal;
  tool_name = tool_name;
  arguments = body.arguments;
  idempotency_key = first_key body.idempotency_header body.idempotency_key;
  approval_token = body.approval_header;
  request_id = none;
}

-- `invoke_tool`; without a response, `invoke` has raised.
unfoldable pub invoke_tool :
    {Q : Type 0}
    → Executor Q
    → Principal
    → String
    → InvokeRequest
    → Ambient
    → World Q
    → Option InvokeResponse × World Q
unfolding invoke_response
invoke_tool x principal tool_name body a w =
    let (result, w') = invoke x (request_of principal tool_name body) a w in
    (elim result [ none ↦ none | some o ↦ some (invoke_response o) ], w')
