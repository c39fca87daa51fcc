-- ===== src/Databricks/Factory.antt =====
-- packages/databricks_connector/factory.py, and the connector of real.py, whose methods are not
-- implemented yet.
use nervora.Base.{String, ◌&&◌, if◌then◌else◌, truthy}
use nervora.Json.{Json}
use nervora.Common.Settings.{Settings, mock, real}
use nervora.ToolRegistry.Spec.{DatabricksConnector, Result, ok, raise, exception}
use nervora.Databricks.Mock.{mock_connector}

-- `RealDatabricksConnector`: `__init__` wants the three settings, and both methods raise.
unfoldable pub real_connector : String → String → String → Result DatabricksConnector
real_connector host token warehouse_id =
    if truthy host && truthy token && truthy warehouse_id
    then ok (record {
      execute_sql = λ statement parameters. raise (
          exception
            "RealDatabricksConnector is a prepared interface. Implement the SQL Statement Execution call and result polling, or run with DATABRICKS_MODE=mock for the reference demo.");
      run_job = λ workflow_name parameters. raise (
          exception
            "RealDatabricksConnector.run_job is a prepared interface. Wire the Jobs 2.1 run-now endpoint, or run with DATABRICKS_MODE=mock.");
    })
    else raise (
        exception
          "RealDatabricksConnector requires host, token and warehouse_id (set DATABRICKS_HOST / DATABRICKS_TOKEN / DATABRICKS_WAREHOUSE_ID).")

-- `build_connector`
unfoldable pub build_connector :
    (String → String) → (Json → String) → Settings → Result DatabricksConnector
unfolding mock_connector real_connector
build_connector sha256 repr s = elim s.databricks_mode [
  | real ↦ real_connector s.databricks_host s.databricks_token s.databricks_warehouse_id
  | mock ↦ ok (mock_connector sha256 repr)
]
