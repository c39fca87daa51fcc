-- ===== src/Api/Startup.antt =====
-- apps/mcp-gateway/app/main.py: `lifespan`, which wires the gateway from its settings, and the
-- liveness probe. The registry, the connector, the queue and the verifier are built by the
-- repository's own factories; the tables are there already.
use nervora.Base.{String, List, [], ◌∷◌, Bool, if◌then◌else◌}
use nervora.Json.{Json, str, Dict, end, entry}
use nervora.Telemetry.{Otel, setup_telemetry}
use nervora.Rbac.{all_roles}
use nervora.Pii.{Pattern}
use nervora.Common.Settings.{
  Settings, is_demo, AppEnv, demo, prod, AuthMode, dev, entra, QueueBackend, local, azure,
  DatabricksMode, mock, real,
}
use nervora.Servicebus.Interface.{ReturningQueue, Attempt, done, raised}
use nervora.Servicebus.Factory.{Backend, build_queue}
use nervora.Audit.Models.{Db}
use nervora.Audit.Session.{committed, rolled_back}
use nervora.Auth.Tokens.{TokenVerifier, Verified, verified, auth_error, build_verifier}
use nervora.ToolRegistry.Spec.{Result, ok, raise, exception, DatabricksConnector}
use nervora.ToolRegistry.Registry.{ToolRegistry}
use nervora.Databricks.Factory.{build_connector}
use nervora.ReferenceTools.InputModels.{InputModel}
use nervora.ReferenceTools.Reading.{◌>>=◌}
use nervora.ReferenceTools.Assembly.{build_registry}
use nervora.Gateway.Request.{Executor}
use nervora.Api.Tools.{sync_policies}

-- `app.state`
pub record App (Q : Type 0) : Type 0 where
  pub settings : Settings
  pub registry : ToolRegistry
  pub verifier : TokenVerifier
  pub queue : ReturningQueue Q
  pub executor : Executor Q

-- What start-up takes from outside: pydantic, hashlib and Python's repr, the hash and the patterns of
-- the executor, the operations of a backend, and the text of the database's integrity error.
pub record Outside (Q : Type 0) : Type 0 where
  pub model_validate : InputModel → Dict → Result Dict
  pub sha256 : String → String
  pub repr : Json → String
  pub hash : Json → String
  pub patterns : List Pattern
  pub open_queue : Backend → ReturningQueue Q
  pub integrity_error : String

abbrev pub attempted {ℓ} : {A : Type ℓ} → Attempt A → Result A
attempted (done a) = ok a
attempted (raised text) = raise (exception text)

abbrev pub accepted : Verified TokenVerifier → Result TokenVerifier
accepted (verified v) = ok v
accepted (auth_error message code) = raise (exception message)

module _ {Q : Type 0} (o : Outside Q) where
  -- `Executor(…)`
  unfoldable pub make_executor :
      Settings → ToolRegistry → ReturningQueue Q → DatabricksConnector → Executor Q
  make_executor settings registry queue databricks = record {
    registry = registry;
    settings = settings;
    queue = queue;
    tool_ctx = record { settings = settings; databricks = databricks };
    known_roles = all_roles;
    hash = o.hash;
    patterns = o.patterns;
  }

  -- The part of `lifespan` behind the policy snapshot.
  unfoldable pub wire : Settings → ToolRegistry → Result (App Q)
  unfolding make_executor
  wire settings registry = do
    backend ← attempted (build_queue settings)
    databricks ← build_connector o.sha256 o.repr settings
    verifier ← accepted (build_verifier settings)
    ok (record {
      settings = settings;
      registry = registry;
      verifier = verifier;
      queue = o.open_queue backend;
      executor = make_executor settings registry (o.open_queue backend) databricks;
    })

  -- `lifespan` up to its `yield`, with what it leaves in the database.
  unfoldable pub lifespan : Settings → Db → Result (App Q) × Db
  unfolding wire
  lifespan settings db = elim (build_registry o.model_validate (is_demo settings)) [
    | raise e ↦ (raise e, db)
    | ok registry ↦ elim (sync_policies registry db) [
      | committed _ db' ↦ (wire settings registry, db')
      | rolled_back _ db' ↦ (raise (exception o.integrity_error), db')
    ]
  ]

-- The telemetry of `lifespan`.
unfoldable pub gateway_telemetry : Bool → (String → Bool) → Settings → Otel → Otel
unfolding setup_telemetry
gateway_telemetry available exports settings =
    setup_telemetry available exports settings.otel_service_name
      settings.otel_exporter_otlp_endpoint settings.otel_enabled settings.otel_console_fallback

-- A middleware of the application: the access log, or CORS with the origins, methods and headers that
-- it allows and the headers that it shows.
pub data Middleware : Type 0 where
  access_log : Middleware
  cors : (allow_origins allow_methods allow_headers expose_headers : List String) → Middleware

-- The middlewares in the order in which they are added.
unfoldable pub middlewares : Settings → List Middleware
unfolding is_demo
middlewares settings =
    access_log
    ∷ (if is_demo settings
        then cors ("*" ∷ []) ("*" ∷ []) ("*" ∷ []) ("X-Trace-Id" ∷ "X-Request-Id" ∷ []) ∷ []
        else [])

abbrev env_value : AppEnv → String
env_value demo = "demo"
env_value prod = "prod"

abbrev auth_value : AuthMode → String
auth_value dev = "dev"
auth_value entra = "entra"

abbrev backend_value : QueueBackend → String
backend_value local = "local"
backend_value azure = "azure"

abbrev databricks_value : DatabricksMode → String
databricks_value mock = "mock"
databricks_value real = "real"

-- `_liveness`, which `GET /health` and `GET /healthz` return.
unfoldable pub liveness : Settings → Dict
liveness s = entry "status" (str "ok") (
    entry "env" (str (env_value s.app_env)) (
      entry "auth_mode" (str (auth_value s.auth_mode)) (
        entry "queue_backend" (str (backend_value s.queue_backend))
          (entry "databricks_mode" (str (databricks_value s.databricks_mode)) end))))
