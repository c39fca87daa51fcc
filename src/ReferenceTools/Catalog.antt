-- ===== src/ReferenceTools/Catalog.antt =====
-- What `build_registry` (packages/tool_registry/tools.py) publishes.
use nervora.Base.{Bool, true, not, ◌||◌, [], ◌∷◌, ◌≡◌, refl, arith, All, contains, ◌⊎◌}
use nervora.Base.Table.{has, unique}
use nervora.Json.{Dict}
use nervora.Rbac.{all_roles}
use nervora.ToolRegistry.Spec.{Result, ok, ToolSpec, write, destructive}
use nervora.ToolRegistry.Registry.{ToolRegistry, register, names}
use nervora.Gateway.Request.{is_destructive, is_async}
use nervora.ReferenceTools.InputModels.{InputModel}
use nervora.ReferenceTools.Assembly.{
  admin_only, reference_specs, register_all, build_registry, employee_profile_spec,
  leave_balance_spec, invoice_status_spec, budget_report_spec, workflow_spec, crm_dry_run_spec,
  crm_execute_spec, customer_lookup_spec, invoice_draft_spec,
}

-- The policy of a published tool: roles that exist, among them the admin, and no role with raw data;
-- a destructive tool is for admins only and off in demo mode, any other tool is on; and a write
-- either is destructive, or goes through a dry run or the job queue.
abbrev pub IsGoverned : Bool → ToolSpec → Type 0
IsGoverned demo_mode t =
    All (λ role. contains all_roles role ≡ true) t.required_roles
    × (contains t.required_roles "admin_agent" ≡ true)
    × (t.raw_pii_roles ≡ [])
    × (t.enabled ≡ not (is_destructive t.classification) || not demo_mode)
    × (t.classification ≡ destructive → t.required_roles ≡ admin_only)
    × (t.classification ≡ write → (t.dry_run_required ≡ true) ⊎ (is_async t.execution_mode ≡ true))

pub build_registry-eq :
    (model_validate : InputModel → Dict → Result Dict) (demo_mode : Bool)
    → build_registry model_validate demo_mode
      ≡ ok (record { tools = reference_specs model_validate demo_mode })
unfolding build_registry register_all register has employee_profile_spec leave_balance_spec
    invoice_status_spec budget_report_spec workflow_spec crm_dry_run_spec crm_execute_spec
    customer_lookup_spec invoice_draft_spec
build_registry-eq model_validate demo_mode = refl

-- Both modes build a registry without an error: nine tools under different names, in the order of
-- their registration, each of them governed.
pub build_registry-IsGoverned :
    (model_validate : InputModel → Dict → Result Dict) (demo_mode : Bool)
    → (reg : ToolRegistry) × (build_registry model_validate demo_mode ≡ ok reg)
      × (names reg
          ≡ "get_employee_profile" ∷ "check_leave_balance" ∷ "get_invoice_status"
            ∷ "run_budget_variance_report" ∷ "trigger_databricks_workflow"
            ∷ "create_crm_update_dry_run" ∷ "execute_crm_update" ∷ "crm.lookup_customer"
            ∷ "billing.create_invoice_draft" ∷ [])
      × (unique (λ t. t.name) reg.tools ≡ true)
      × All (IsGoverned demo_mode) reg.tools
unfolding names has unique contains all_roles employee_profile_spec leave_balance_spec
    invoice_status_spec budget_report_spec workflow_spec crm_dry_run_spec crm_execute_spec
    customer_lookup_spec invoice_draft_spec
build_registry-IsGoverned model_validate demo_mode = (
  record { tools = reference_specs model_validate demo_mode },
  build_registry-eq model_validate demo_mode,
  refl,
  refl,
  ground arith,
)
