-- ===== src/Gateway/Samples.antt =====
-- Tools, callers and a world for concrete calls of the gateway (apps/mcp-gateway/app/executor.py).
use nervora.Base.{String, Bool, true, false, [], ◌∷◌, none, some}
use nervora.Json.{str, Dict, end, entry}
use nervora.Common.Settings.{Settings, default_settings}
use nervora.Common.Ids.{Ambient}
use nervora.Auth.Identity.{Principal}
use nervora.Servicebus.Interface.{raised}
use nervora.Servicebus.Local.{LocalQueue, local_queue}
use nervora.Audit.Models.{Db, Approval, ApprovalStatus, denied}
use nervora.ToolRegistry.Spec.{
  ToolSpec, DatabricksConnector, ok, raise, exception, Classification, read, write, destructive,
  ExecutionMode, sync, async, sensitive,
}
use nervora.World.{World}
use nervora.Gateway.Outcome.{InvocationOutcome, outcome}
use nervora.Gateway.Request.{Executor, Request}
use nervora.Gateway.Executor.{invoke}

abbrev pub connector : DatabricksConnector
connector = record {
  execute_sql = λ statement params. raise (exception "no warehouse");
  run_job = λ name params. raise (exception "no jobs");
}

abbrev pub settings : Settings
settings = record default_settings { admin_approval_token = "secret" }

-- A tool whose result names a person.
abbrev pub tool : String → Classification → ExecutionMode → Bool → ToolSpec
tool name classification mode dry = record {
  name = name;
  description = "";
  required_roles = "admin_agent" ∷ [];
  classification = classification;
  execution_mode = mode;
  pii_classification = sensitive;
  dry_run_required = dry;
  validate_args = ok;
  run = λ ctx args. ok (record { output = entry "ssn" (str "123-45-6789") end; metadata = end });
  sensitive_fields = "ssn" ∷ [];
  raw_pii_roles = "hr_agent" ∷ [];
  enabled = true;
  requires_approval_token = false;
}

abbrev pub lookup : ToolSpec
lookup = tool "lookup" read sync false

abbrev pub report : ToolSpec
report = tool "report" read async false

abbrev pub prepare : ToolSpec
prepare = tool "prepare" write sync true

abbrev pub update : ToolSpec
update = tool "update" destructive sync false

abbrev pub executor : Executor LocalQueue
executor = record {
  registry = record { tools = lookup ∷ report ∷ prepare ∷ update ∷ [] };
  settings = settings;
  queue = local_queue;
  tool_ctx = record { settings = settings; databricks = connector };
  known_roles = "hr_agent" ∷ "admin_agent" ∷ [];
  hash = λ v. "";
  patterns = [];
}

abbrev pub no_queue : Executor LocalQueue
no_queue = record executor { queue = record local_queue { publish = λ body q. raised "down" } }

abbrev pub principal : String → Principal
principal role = record {
  subject = "ana";
  agent_id = "agent-1";
  role = role;
  scopes = [];
  tenant_id = "";
  raw_claims = end;
}

abbrev pub request : String → String → Request
request role name = record {
  principal = principal role;
  tool_name = name;
  arguments = end;
  idempotency_key = some "k1";
  approval_token = some "secret";
  request_id = none;
}

abbrev pub ambient : Ambient
ambient = record {
  request_uuid = "r";
  trace_uuid = "t";
  key_uuid = "k";
  job_uuid = "j";
  approval_uuid = "p";
  span_trace_id = none;
  elapsed = 3;
}

abbrev pub approval : Approval
approval = record {
  approval_id = "apr_1";
  tool_name = "update";
  resource_id = "c1";
  proposed_change = end;
  requested_by_agent = "agent-2";
  requested_by_role = "sales_agent";
  status = ApprovalStatus.approved;
  approved_by = some "eve";
}

abbrev pub db : Db
db = record {
  events = [];
  tool_calls = [];
  policies = [];
  jobs = [];
  approvals = approval ∷ [];
  keys = [];
  now = 7;
}

abbrev pub world : World LocalQueue
world = record {
  db = db;
  queue = record { queue = "q"; max_delivery = 2; rows = []; next_id = 1; now = 0 };
}

abbrev pub named : Dict
named = entry "approved_change_id" (str "apr_1") end

abbrev pub update_call : Request
update_call = request "admin_agent" "update"

abbrev pub lookup_call : Request
lookup_call = request "admin_agent" "lookup"

abbrev pub prepare_call : Request
prepare_call = request "admin_agent" "prepare"

abbrev pub report_call : Request
report_call = request "admin_agent" "report"

abbrev pub stranger_call : Request
stranger_call = request "hr_agent" "lookup"

-- What a call returns, or anything if it raises.
abbrev pub answer : Request → InvocationOutcome
answer r = elim (invoke executor r ambient world).0 [ some o ↦ o | none ↦ outcome "" "" "" denied ]

-- A world in which the request's id is taken.
abbrev pub taken : World LocalQueue
taken = (invoke executor prepare_call ambient world).1
