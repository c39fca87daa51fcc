-- ===== src/Worker/Startup.antt =====
-- apps/worker/worker.py: `Worker.__init__`, over the factories that the gateway's start-up calls too.
use nervora.Common.Settings.{Settings, is_demo}
use nervora.Servicebus.Factory.{build_queue}
use nervora.ToolRegistry.Spec.{Result, ok}
use nervora.Databricks.Factory.{build_connector}
use nervora.ReferenceTools.Reading.{◌>>=◌}
use nervora.ReferenceTools.Assembly.{build_registry}
use nervora.Api.Startup.{Outside, attempted}
use nervora.Worker.{Worker}

unfoldable pub make_worker : {Q : Type 0} → Outside Q → Settings → Result (Worker Q)
make_worker o settings = do
  registry ← build_registry o.model_validate (is_demo settings)
  backend ← attempted (build_queue settings)
  databricks ← build_connector o.sha256 o.repr settings
  ok (record {
    registry = registry;
    queue = o.open_queue backend;
    tool_ctx = record { settings = settings; databricks = databricks };
    max_delivery = settings.queue_max_delivery_count;
  })
