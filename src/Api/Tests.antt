-- ===== src/Api/Tests.antt =====
-- Concrete calls of the routes of apps/mcp-gateway/app/main.py.
use nervora.Base.{true, false, [], ◌∷◌, ◌≡◌, refl, arith, none, some}
use nervora.Base.Table.{find, has, unique, update}
use nervora.Json.{str, Dict, end, entry, get}
use nervora.Auth.Identity.{Principal}
use nervora.Audit.Models.{Db, Approval, ApprovalStatus}
use nervora.Audit.Repository.{get_approval}
use nervora.Audit.Session.{integrity}
use nervora.ToolRegistry.Spec.{ToolSpec, ok, read, sync, PiiClass, mode_value, pii_value}
use nervora.Gateway.Gate.{NamesApproved}
use nervora.Api.Tools.{policy_of}
use nervora.Api.Records.{approve, approval_event}
use nervora.Api.Approvals.{approve-NamesApproved}
use nervora.Api.Sync.{tool_policy}
use nervora.Api.Startup.{App, Outside, lifespan, make_executor, liveness, wire}
use nervora.Api.Started.{decide-lifespan_denied, tool_policy-lifespan}
use nervora.Worker.Startup.{make_worker}
use nervora.Worker.Started.{make_worker-lifespan}
use nervora.Servicebus.Factory.{local_database}
use nervora.Common.Settings.{default_settings, is_demo}
use nervora.Servicebus.Local.{LocalQueue, local_queue}
use nervora.Servicebus.Local.Calls.{empty}
use nervora.Auth.Tokens.{dev_verifier, build_verifier}
use nervora.Databricks.Mock.{mock_connector}
use nervora.Databricks.Factory.{build_connector}
use nervora.Servicebus.Factory.{build_queue}
use nervora.Audit.Models.{denied}
use nervora.Audit.Session.{session_scope}
use nervora.Audit.Repository.{upsert_policy}
use nervora.Api.Tools.{sync_policies}
use nervora.ToolRegistry.Registry.{ToolRegistry, register, get_tool, list_tools}
use nervora.Gateway.Request.{Request}
use nervora.Gateway.Executor.{decide}
use nervora.Gateway.Samples.{ambient}
use nervora.World.{World}
use nervora.ReferenceTools.Assembly.{
  reference_specs, build_registry, crm_execute_spec, employee_profile_spec, leave_balance_spec,
  invoice_status_spec, budget_report_spec, workflow_spec, crm_dry_run_spec, customer_lookup_spec,
  invoice_draft_spec,
}

abbrev admin : Principal
admin = record {
  subject = "eve";
  agent_id = "agent-9";
  role = "admin_agent";
  scopes = [];
  tenant_id = "";
  raw_claims = end;
}

-- An approval that an execution has consumed.
abbrev used : Approval
used = record {
  approval_id = "apr_1";
  tool_name = "update";
  resource_id = "c1";
  proposed_change = end;
  requested_by_agent = "agent-2";
  requested_by_role = "sales_agent";
  status = ApprovalStatus.consumed;
  approved_by = some "eve";
}

abbrev db : Db
db = record {
  events = [];
  tool_calls = [];
  policies = [];
  jobs = [];
  approvals = used ∷ [];
  keys = [];
  now = 7;
}

abbrev lookup : ToolSpec
lookup = record {
  name = "lookup";
  description = "";
  required_roles = "admin_agent" ∷ [];
  classification = read;
  execution_mode = sync;
  pii_classification = PiiClass.low;
  dry_run_required = false;
  validate_args = ok;
  run = λ ctx args. ok (record { output = end; metadata = end });
  sensitive_fields = [];
  raw_pii_roles = [];
  enabled = true;
  requires_approval_token = false;
}

abbrev report : ToolSpec
report = record lookup { name = "report" }

abbrev named : Dict
named = entry "approved_change_id" (str "apr_1") end

approve-NamesApproved_example :
    NamesApproved named (approve admin "apr_1" db).1
    × ((approve admin "apr_1" db).1.events
        ≡ record (approval_event admin used "apr_1") { created_at = 7 } ∷ [])
unfolding integrity unique has get_approval find get
approve-NamesApproved_example =
    approve-NamesApproved admin "apr_1" db used named refl refl (λ h. cc h) refl refl

abbrev outside : Outside LocalQueue
outside = record {
  model_validate = λ model args. ok args;
  sha256 = λ text. "00";
  repr = λ v. "";
  hash = λ v. "";
  patterns = [];
  open_queue = λ backend. local_queue;
  integrity_error = "UNIQUE constraint failed";
}

abbrev published : ToolRegistry
published = record { tools = reference_specs outside.model_validate true }

-- The gateway of the default settings.
abbrev app : App LocalQueue
app = record {
  settings = default_settings;
  registry = published;
  verifier = dev_verifier default_settings.dev_token_signing_secret default_settings.entra_audience;
  queue = local_queue;
  executor =
      make_executor outside default_settings published local_queue
        (mock_connector outside.sha256 outside.repr);
}

abbrev db_after : Db
db_after = (lifespan outside default_settings db).1

started : lifespan outside default_settings db ≡ (ok app, db_after)
unfolding lifespan build_registry is_demo wire register has employee_profile_spec leave_balance_spec
    invoice_status_spec budget_report_spec workflow_spec crm_dry_run_spec crm_execute_spec
    customer_lookup_spec invoice_draft_spec sync_policies session_scope integrity unique
    upsert_policy list_tools policy_of build_queue build_connector build_verifier find update
started = refl

abbrev update_call : Request
update_call = record {
  principal = admin;
  tool_name = "execute_crm_update";
  arguments = end;
  idempotency_key = none;
  approval_token = some "secret";
  request_id = none;
}

abbrev world : World LocalQueue
world = record { db = db_after; queue = empty "tool-jobs" 5 0 }

found :
    get_tool app.executor.registry "execute_crm_update"
    ≡ some (crm_execute_spec outside.model_validate true)
unfolding get_tool find make_executor crm_execute_spec employee_profile_spec leave_balance_spec
    invoice_status_spec budget_report_spec workflow_spec crm_dry_run_spec
found = refl

decide-lifespan_denied_example :
    ((decide app.executor update_call ambient world).0.decision ≡ denied)
    × ((decide app.executor update_call ambient world).1 ≡ world)
unfolding is_demo crm_execute_spec
decide-lifespan_denied_example =
    decide-lifespan_denied outside default_settings db db_after app update_call ambient world
      (crm_execute_spec outside.model_validate true) started found refl (λ p. ground arith)

tool_policy-lifespan_example :
    tool_policy "execute_crm_update" db_after
    ≡ some (record {
      tool_name = "execute_crm_update";
      description = (crm_execute_spec outside.model_validate true).description;
      required_roles = (crm_execute_spec outside.model_validate true).required_roles;
      classification = "destructive";
      execution_mode = mode_value (crm_execute_spec outside.model_validate true).execution_mode;
      pii_classification =
          pii_value (crm_execute_spec outside.model_validate true).pii_classification;
      dry_run_required = (crm_execute_spec outside.model_validate true).dry_run_required;
      enabled = false;
      updated_at = 7;
    })
unfolding crm_execute_spec
tool_policy-lifespan_example =
    tool_policy-lifespan outside default_settings db db_after app "execute_crm_update"
      (crm_execute_spec outside.model_validate true) started found

default_liveness : get (liveness default_settings) "env" ≡ some (str "demo")
unfolding liveness get
default_liveness = refl

make_worker-lifespan_example :
    (make_worker outside default_settings
      ≡ ok (record {
        registry = published;
        queue = local_queue;
        tool_ctx = app.executor.tool_ctx;
        max_delivery = 5;
      }))
    × (app.queue ≡ outside.open_queue (local_database default_settings.database_url "tool-jobs" 5))
make_worker-lifespan_example =
    make_worker-lifespan outside default_settings db db_after app refl started
