-- ===== src/ReferenceTools/Tests.antt =====
-- The reference tools of packages/tool_registry/tools.py at concrete arguments.
use native.Mathlib.Decide.{dec_lt}
use nervora.Base.{String, true, false, [], ◌∷◌, ◌≡◌, ◌↔◌, refl, All, some, contains, none}
use nervora.Base.Table.{unique, find}
use nervora.Json.{Json, str, int, float, pos, Dict, end, entry, get, nil, cons, dict}
use nervora.Common.Settings.{default_settings}
use nervora.ToolRegistry.Spec.{Result, ok, ToolContext, ToolResult}
use nervora.ToolRegistry.Registry.{ToolRegistry, get_tool, names}
use nervora.Databricks.Mock.{mock_connector, budget_facts}
use nervora.Gateway.Samples.{executor, request, ambient, world}
use nervora.Gateway.Request.{Executor, Request}
use nervora.Gateway.Outcome.{InvocationOutcome, outcome}
use nervora.Gateway.Executor.{invoke, decide, route, finish}
use nervora.Gateway.Execution.{handle_sync, redact_output}
use nervora.Audit.Models.{denied}
use nervora.Audit.Repository.{record_event, record_tool_call}
use nervora.Audit.Session.{session_scope, integrity}
use nervora.Common.Ids.{trace_id_of}
use nervora.Servicebus.Local.{LocalQueue}
use nervora.Rbac.{evaluate}
use nervora.Pii.{
  redact, walk, walk_text, walk_scalar, masks, masked, note_field, note, note_all, status,
  redact_text, sweep,
}
use nervora.Pii.Masking.{IsMaskedDict}
use nervora.ReferenceTools.Demo.{reference-ShowsMasked}
use nervora.ReferenceTools.Lookups.{get_employee_profile}
use nervora.ReferenceTools.InputModels.{InputModel}
use nervora.ReferenceTools.Fixtures.{row_of}
use nervora.ReferenceTools.Equality.{values_eq}
use nervora.ReferenceTools.Crm.{value_at, change, diff}
use nervora.ReferenceTools.Diff.{diff_iff, ListHas, DictHas}
use nervora.ReferenceTools.Billing.{billing_create_invoice_draft}
use nervora.ReferenceTools.Assembly.{
  reference_specs, build_registry, employee_profile_spec, employee_sensitive,
}
use nervora.ReferenceTools.Catalog.{IsGoverned, build_registry-IsGoverned, build_registry-eq}
use nervora.ReferenceTools.Budget.{total_budget, total_actual}

-- A model that keeps the arguments.
abbrev accept : InputModel → Dict → Result Dict
accept model args = ok args

abbrev hex : String → String
hex s = "0123456789abcdef0123"

abbrev shown : Json → String
shown v = "v"

abbrev ctx : ToolContext
ctx = record { settings = default_settings; databricks = mock_connector hex shown }

abbrev account : Dict
account = entry "tier" (str "silver") (entry "annual_value" (int (pos 1)) end)

-- The value 1 equals the number 1.0, and a new key differs from None.
abbrev proposed : Dict
proposed = entry "annual_value" (float (pos 1) 0) (entry "tier" (str "gold") end)

changed_tier : diff account proposed ≡ cons (change "tier" (str "silver") (str "gold")) nil
unfolding diff values_eq get
changed_tier = refl

diff_iff_example :
    ListHas
      (dict
        (entry "field" (str "tier") (entry "from" (str "silver") (entry "to" (str "gold") end))))
      (diff account proposed)
    ↔ (DictHas "tier" (str "gold") proposed
        × (str "silver" ≡ value_at account "tier")
        × (values_eq (value_at account "tier") (str "gold") ≡ false))
diff_iff_example = diff_iff account "tier" (str "silver") (str "gold") proposed

build_registry-IsGoverned_example :
    (reg : ToolRegistry) × (build_registry accept true ≡ ok reg)
    × (names reg
        ≡ "get_employee_profile" ∷ "check_leave_balance" ∷ "get_invoice_status"
          ∷ "run_budget_variance_report" ∷ "trigger_databricks_workflow"
          ∷ "create_crm_update_dry_run" ∷ "execute_crm_update" ∷ "crm.lookup_customer"
          ∷ "billing.create_invoice_draft" ∷ [])
    × (unique (λ t. t.name) reg.tools ≡ true)
    × All (IsGoverned true) reg.tools
build_registry-IsGoverned_example = build_registry-IsGoverned accept true

abbrev finance : Dict
finance = entry "department_id" (str "FIN-100") (entry "period" (str "2024-Q2") end)

finance_totals :
    (total_budget (budget_facts "FIN-100" "2024-Q2") ≡ 735000)
    × (total_actual (budget_facts "FIN-100" "2024-Q2") ≡ 739700)
unfolding budget_facts
finance_totals = (refl, refl)

-- 99.5 as an amount: the draft's id has the whole part.
abbrev draft : Dict
draft = entry "customer_id" (str "CUST-700") (
    entry "amount" (float (pos 199) 1)
      (entry "currency" (str "EUR") (entry "description" (str "") end)))

abbrev metadata_of : Result ToolResult → Dict
metadata_of (ok r) = r.metadata
metadata_of _ = end

draft_id :
    get (metadata_of (billing_create_invoice_draft ctx draft)) "resource_id"
    ≡ some (str "DRAFT-CUST-700-99-EUR")
unfolding billing_create_invoice_draft get row_of dec_lt
draft_id = refl

abbrev demo : Executor LocalQueue
demo = record executor { registry = record { tools = reference_specs accept true } }

abbrev profile_call : Request
profile_call = record (request "hr_agent" "get_employee_profile") {
  arguments = entry "employee_id" (str "E-1001") end;
}

abbrev profile_answer : InvocationOutcome
profile_answer = elim (invoke demo profile_call ambient world).0 [
  | some o ↦ o
  | none ↦ outcome "" "" "" denied
]

reference-ShowsMasked_example :
    (d : Dict) × (profile_answer.result ≡ some d) × IsMaskedDict employee_sensitive d
unfolding get_tool find employee_profile_spec invoke decide evaluate contains route handle_sync
    redact_output redact walk finish session_scope integrity unique record_event record_tool_call
    trace_id_of walk_text walk_scalar masks masked note_field note note_all status redact_text sweep
    get_employee_profile row_of get
reference-ShowsMasked_example =
    reference-ShowsMasked accept demo profile_call ambient true world (employee_profile_spec accept)
      profile_answer (build_registry-eq accept true) refl refl refl
