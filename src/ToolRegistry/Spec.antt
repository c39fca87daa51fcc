-- ===== src/ToolRegistry/Spec.antt =====
-- packages/tool_registry/spec.py, with the connector interface that a tool's context holds
-- (packages/databricks_connector/interface.py).
use nervora.Base.{ℕ, String, Bool, List, Option, ◌≡◌, ◌⊎◌, inl, inr, refl}
use nervora.Json.{Json, Dict}
use nervora.Common.Settings.{Settings}

pub data Classification : Type 0 where
  read write destructive : Classification

abbrev pub classification_value : Classification → String
classification_value read = "read"
classification_value write = "write"
classification_value destructive = "destructive"

pub data ExecutionMode : Type 0 where
  sync async : ExecutionMode

abbrev pub mode_value : ExecutionMode → String
mode_value sync = "sync"
mode_value async = "async"

pub data PiiClass : Type 0 where
  none low sensitive : PiiClass

abbrev pub pii_value : PiiClass → String
pii_value none = "none"
pii_value low = "low"
pii_value sensitive = "sensitive"

-- An exception that a tool's code raises: a `ToolError` with its message and code, or any other,
-- by its text.
pub data Exn : Type 0 where
  tool_error : String → String → Exn
  exception : String → Exn

pub data Result {ℓ} (A : Type ℓ) : Type ℓ where
  ok : A → Result A
  raise : Exn → Result A

pub Result-cases :
    {A : Type 0} (m : Result A) → ((v : A) × (m ≡ ok v)) ⊎ ((e : Exn) × (m ≡ raise e))
Result-cases (ok v) = inl (v, refl)
Result-cases (raise e) = inr (e, refl)

pub record SqlStatementResult : Type 0 where
  pub statement_id : String
  pub columns : List String
  pub rows : List (List Json)
  pub row_count : ℕ

pub record JobRunResult : Type 0 where
  pub run_id : String
  pub job_name : String
  pub state : String
  pub output : Dict

pub record DatabricksConnector : Type 0 where
  pub execute_sql : String → Option Dict → Result SqlStatementResult
  pub run_job : String → Option Dict → Result JobRunResult

pub record ToolContext : Type 0 where
  pub settings : Settings
  pub databricks : DatabricksConnector

pub record ToolResult : Type 0 where
  pub output : Dict
  pub metadata : Dict

-- `validate_args` is the method over the tool's `input_model`.
pub record ToolSpec : Type 0 where
  pub name : String
  pub description : String
  pub required_roles : List String
  pub classification : Classification
  pub execution_mode : ExecutionMode
  pub pii_classification : PiiClass
  pub dry_run_required : Bool
  pub validate_args : Dict → Result Dict
  pub run : ToolContext → Dict → Result ToolResult
  pub sensitive_fields : List String
  pub raw_pii_roles : List String
  pub enabled : Bool
  pub requires_approval_token : Bool
