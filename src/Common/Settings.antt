-- ===== src/Common/Settings.antt =====
-- packages/common/settings.py: `Settings`, with the defaults of its fields.
use nervora.Base.{ℕ, String, Bool, true, false}

pub data AppEnv : Type 0 where
  demo prod : AppEnv

pub data AuthMode : Type 0 where
  dev entra : AuthMode

pub data QueueBackend : Type 0 where
  local azure : QueueBackend

pub data DatabricksMode : Type 0 where
  mock real : DatabricksMode

pub record Settings : Type 0 where
  pub app_env : AppEnv
  pub database_url : String
  pub auth_mode : AuthMode
  pub dev_token_signing_secret : String
  pub entra_tenant_id : String
  pub entra_audience : String
  pub entra_issuer : String
  pub entra_jwks_url : String
  pub queue_backend : QueueBackend
  pub servicebus_connection_string : String
  pub servicebus_queue_name : String
  pub queue_max_delivery_count : ℕ
  pub databricks_mode : DatabricksMode
  pub databricks_host : String
  pub databricks_token : String
  pub databricks_warehouse_id : String
  pub otel_enabled : Bool
  pub otel_service_name : String
  pub otel_exporter_otlp_endpoint : String
  pub otel_console_fallback : Bool
  pub admin_approval_token : String

abbrev pub default_settings : Settings
default_settings = record {
  app_env = demo;
  database_url = "sqlite+pysqlite:///./smg.sqlite3";
  auth_mode = dev;
  dev_token_signing_secret = "dev-only-not-for-production-change-me";
  entra_tenant_id = "";
  entra_audience = "api://secure-mcp-gateway";
  entra_issuer = "";
  entra_jwks_url = "";
  queue_backend = local;
  servicebus_connection_string = "";
  servicebus_queue_name = "tool-jobs";
  queue_max_delivery_count = 5;
  databricks_mode = mock;
  databricks_host = "";
  databricks_token = "";
  databricks_warehouse_id = "";
  otel_enabled = true;
  otel_service_name = "mcp-gateway";
  otel_exporter_otlp_endpoint = "";
  otel_console_fallback = true;
  admin_approval_token = "";
}

-- `Settings.is_demo`
unfoldable pub is_demo : Settings → Bool
is_demo s = elim s.app_env [ demo ↦ true | prod ↦ false ]
