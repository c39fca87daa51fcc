-- ===== src/ReferenceTools/Assembly.antt =====
-- packages/tool_registry/tools.py: `build_registry`, the nine tools with their policies.
--
-- `model_validate` is pydantic: the arguments that a model makes of a dict, or its error.
use nervora.Base.{String, Bool, true, false, not, List, [], ◌∷◌}
use nervora.Json.{Dict}
use nervora.ToolRegistry.Spec.{
  Result, ok, ToolContext, ToolResult, ToolSpec, Classification, read, write, destructive, sync,
  async, PiiClass,
}
use nervora.ToolRegistry.Registry.{ToolRegistry, no_tools, register}
use nervora.ReferenceTools.InputModels.{
  InputModel, employee_args, invoice_args, budget_args, workflow_args, crm_dry_run_args,
  crm_execute_args, customer_lookup_args, invoice_draft_args,
}
use nervora.ReferenceTools.Reading.{◌>>=◌}
use nervora.ReferenceTools.Lookups.{
  get_employee_profile, check_leave_balance, get_invoice_status, crm_lookup_customer,
}
use nervora.ReferenceTools.Reports.{run_budget_variance_report, trigger_databricks_workflow}
use nervora.ReferenceTools.Crm.{create_crm_update_dry_run, execute_crm_update}
use nervora.ReferenceTools.Billing.{billing_create_invoice_draft}

abbrev pub hr_roles : List String
hr_roles = "hr_agent" ∷ "admin_agent" ∷ []

abbrev pub finance_roles : List String
finance_roles = "finance_agent" ∷ "admin_agent" ∷ []

abbrev pub sales_roles : List String
sales_roles = "sales_agent" ∷ "admin_agent" ∷ []

abbrev pub admin_only : List String
admin_only = "admin_agent" ∷ []

abbrev pub employee_sensitive : List String
employee_sensitive = "email" ∷ "phone" ∷ "national_id" ∷ "salary" ∷ "address" ∷ []

abbrev pub customer_sensitive : List String
customer_sensitive = "email" ∷ "phone" ∷ []

module _ (model_validate : InputModel → Dict → Result Dict) where
  -- A tool with the defaults of the optional fields.
  abbrev spec_of :
      String
      → String
      → List String
      → Classification
      → InputModel
      → (ToolContext → Dict → Result ToolResult)
      → ToolSpec
  spec_of name description roles classification model run = record {
    name = name;
    description = description;
    required_roles = roles;
    classification = classification;
    execution_mode = sync;
    pii_classification = PiiClass.none;
    dry_run_required = false;
    validate_args = model_validate model;
    run = run;
    sensitive_fields = [];
    raw_pii_roles = [];
    enabled = true;
    requires_approval_token = false;
  }

  unfoldable pub employee_profile_spec : ToolSpec
  employee_profile_spec =
      record (spec_of "get_employee_profile"
        "Return an employee's HR profile. Sensitive PII fields are redacted by default." hr_roles
        read employee_args get_employee_profile) {
          pii_classification = PiiClass.sensitive;
          sensitive_fields = employee_sensitive;
        }

  unfoldable pub leave_balance_spec : ToolSpec
  leave_balance_spec =
      record (spec_of "check_leave_balance" "Return an employee's leave balance (no direct PII)."
        hr_roles read employee_args check_leave_balance) { pii_classification = PiiClass.low }

  unfoldable pub invoice_status_spec : ToolSpec
  invoice_status_spec =
      spec_of "get_invoice_status" "Return the status of a finance invoice." finance_roles read
        invoice_args get_invoice_status

  unfoldable pub budget_report_spec : ToolSpec
  budget_report_spec =
      spec_of "run_budget_variance_report"
        "Compute budget vs actual variance for a department/period via Databricks SQL."
        finance_roles read budget_args run_budget_variance_report

  unfoldable pub workflow_spec : ToolSpec
  workflow_spec =
      record (spec_of "trigger_databricks_workflow"
        "Trigger a Databricks workflow/job asynchronously via the job queue." finance_roles write
        workflow_args trigger_databricks_workflow) { execution_mode = async }

  unfoldable pub crm_dry_run_spec : ToolSpec
  crm_dry_run_spec =
      record (spec_of "create_crm_update_dry_run"
        "Compute a proposed CRM update diff. Never writes; returns 'human approval required'."
        sales_roles write crm_dry_run_args create_crm_update_dry_run) { dry_run_required = true }

  unfoldable pub crm_execute_spec : Bool → ToolSpec
  crm_execute_spec demo_mode =
      record (spec_of "execute_crm_update"
        "Apply an approved CRM update. DESTRUCTIVE — disabled in demo mode; requires Admin Agent and a valid approval token."
        admin_only destructive crm_execute_args execute_crm_update) {
          requires_approval_token = true;
          enabled = not demo_mode;
        }

  unfoldable pub customer_lookup_spec : ToolSpec
  customer_lookup_spec =
      record (spec_of "crm.lookup_customer"
        "Look up a CRM customer record. Contact PII (email, phone) is redacted by default."
        sales_roles read customer_lookup_args crm_lookup_customer) {
          pii_classification = PiiClass.sensitive;
          sensitive_fields = customer_sensitive;
        }

  unfoldable pub invoice_draft_spec : ToolSpec
  invoice_draft_spec =
      record (spec_of "billing.create_invoice_draft"
        "Draft an invoice for a customer. Writes nothing; requires human approval to finalize (returns a pending approval id)."
        finance_roles write invoice_draft_args billing_create_invoice_draft) {
          dry_run_required = true;
        }

  -- The calls of `reg.register` in `build_registry`, in their order.
  abbrev pub reference_specs : Bool → List ToolSpec
  reference_specs demo_mode =
      employee_profile_spec
      ∷ leave_balance_spec
      ∷ invoice_status_spec
      ∷ budget_report_spec
      ∷ workflow_spec
      ∷ crm_dry_run_spec
      ∷ crm_execute_spec demo_mode
      ∷ customer_lookup_spec
      ∷ invoice_draft_spec
      ∷ []

  unfoldable pub register_all : List ToolSpec → ToolRegistry → Result ToolRegistry
  register_all [] reg = ok reg
  register_all (spec ∷ specs) reg = register spec reg >>= λ reg'. register_all specs reg'

  -- `build_registry`, which `build_default_registry` calls.
  unfoldable pub build_registry : Bool → Result ToolRegistry
  unfolding register_all
  build_registry demo_mode = register_all (reference_specs demo_mode) no_tools
