-- ===== src/ToolRegistry/Tests.antt =====
-- A concrete registration.
use nervora.Base.{true, [], ◌∷◌, ◌≡◌, refl}
use nervora.Base.Table.{has}
use nervora.ToolRegistry.Spec.{ToolSpec, ok, read, sync, PiiClass}
use nervora.ToolRegistry.Registry.{ToolRegistry, register}
use nervora.Base.{Bool}
use nervora.Json.{end}

abbrev lookup : ToolSpec
lookup = record {
  name = "lookup";
  description = "";
  required_roles = [];
  classification = read;
  execution_mode = sync;
  pii_classification = PiiClass.low;
  dry_run_required = Bool.false;
  validate_args = ok;
  run = λ ctx args. ok (record { output = end; metadata = end });
  sensitive_fields = [];
  raw_pii_roles = [];
  enabled = true;
  requires_approval_token = Bool.false;
}

abbrev report : ToolSpec
report = record lookup { name = "report" }

abbrev both : ToolRegistry
both = record { tools = lookup ∷ report ∷ [] }

registered : register report (record { tools = lookup ∷ [] }) ≡ ok both
unfolding register has
registered = refl
