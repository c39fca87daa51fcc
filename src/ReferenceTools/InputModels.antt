-- ===== src/ReferenceTools/InputModels.antt =====
-- The input models of packages/tool_registry/tools.py, as the fields that they declare. What
-- validates arguments against them is pydantic, an argument of the tools.
use nervora.Base.{ℕ, String, List, [], ◌∷◌, Option, none, some}
use nervora.Json.{Json, str, dict, end}

-- The annotation of a field, with the constraints of its `Field`.
pub data FieldType : Type 0 where
  text : Option ℕ → Option ℕ → FieldType
  positive_float : FieldType
  any_dict : FieldType

-- `min_length` and `max_length` stand with `text`, `gt=0` is `positive_float`; a field without a
-- default is required.
pub record InputField : Type 0 where
  pub name : String
  pub type : FieldType
  pub default : Option Json

abbrev pub InputModel : Type 0
InputModel = List InputField

abbrev required : String → FieldType → InputField
required name type = record { name = name; type = type; default = none }

-- `str = Field(min_length=1)`
abbrev named : String → InputField
named name = required name (text (some 1) none)

abbrev pub employee_args : InputModel
employee_args = named "employee_id" ∷ []

abbrev pub invoice_args : InputModel
invoice_args = named "invoice_id" ∷ []

abbrev pub budget_args : InputModel
budget_args = named "department_id" ∷ named "period" ∷ []

abbrev pub workflow_args : InputModel
workflow_args =
    named "workflow_name"
    ∷ record { name = "parameters"; type = any_dict; default = some (dict end) }
    ∷ []

abbrev pub crm_dry_run_args : InputModel
crm_dry_run_args = named "account_id" ∷ required "proposed_changes" any_dict ∷ []

abbrev pub crm_execute_args : InputModel
crm_execute_args = named "account_id" ∷ named "approved_change_id" ∷ []

abbrev pub customer_lookup_args : InputModel
customer_lookup_args = named "customer_id" ∷ []

abbrev pub invoice_draft_args : InputModel
invoice_draft_args =
    named "customer_id"
    ∷ required "amount" positive_float
    ∷ record { name = "currency"; type = text (some 3) (some 3); default = some (str "EUR") }
    ∷ record { name = "description"; type = text none (some 200); default = some (str "") }
    ∷ []
