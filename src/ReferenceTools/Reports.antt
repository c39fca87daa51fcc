-- ===== src/ReferenceTools/Reports.antt =====
-- The handlers of packages/tool_registry/tools.py that call the Databricks connector.
use nervora.Base.{String, List, [], ◌∷◌, some, if◌then◌else◌, fstring}
use nervora.Json.{
  ℤ, pos, Json, bool, int, str, list, dict, Items, nil, cons, Dict, end, entry, get, dict_or_empty,
}
use nervora.Numbers.Integers.{◌+ℤ◌, ◌-ℤ◌}
use nervora.ToolRegistry.Spec.{
  exception, Result, ok, raise, ToolContext, ToolResult, SqlStatementResult,
}
use nervora.Databricks.Mock.{as_records}
use nervora.ReferenceTools.Reading.{◌>>=◌, item, text_item, no_metadata, type_name}

-- `total + v` of an int. A float is refused as a text is: neither connector gives one.
abbrev pub add_value : ℤ → Json → Result ℤ
add_value total (int n) = ok (total +ℤ n)
add_value total (bool b) = ok (total +ℤ (if b then pos 1 else pos 0))
add_value total v = raise (
    exception (fstring ("unsupported operand type(s) for +: 'int' and '" ∷ type_name v ∷ "'" ∷ [])))

-- `sum(r[key] for r in records)`, from a total so far.
unfoldable pub sum_of : String → List Dict → ℤ → Result ℤ
sum_of key [] total = ok total
sum_of key (r ∷ records) total =
    item r key >>= λ v. add_value total v >>= λ total'. sum_of key records total'

abbrev pub items_of : List Dict → Items
items_of [] = nil
items_of (d ∷ ds) = cons (dict d) (items_of ds)

abbrev pub statement : String
statement =
    "SELECT line_item, budget, actual FROM finance.budget_facts WHERE department_id = :department_id AND period = :period"

unfoldable pub variance_report : Json → Json → SqlStatementResult → Result ToolResult
unfolding sum_of as_records
variance_report department period res = do
  total_budget ← sum_of "budget" (as_records res) (pos 0)
  total_actual ← sum_of "actual" (as_records res) (pos 0)
  ok (
      no_metadata (
        entry "department_id" department (
          entry "period" period (
            entry "statement_id" (str res.statement_id) (
              entry "line_items" (list (items_of (as_records res))) (
                entry "total_budget" (int total_budget) (
                  entry "total_actual" (int total_actual)
                    (entry "total_variance" (int (total_actual -ℤ total_budget)) end))))))))

-- `_run_budget_variance_report`
unfoldable pub run_budget_variance_report : ToolContext → Dict → Result ToolResult
unfolding variance_report
run_budget_variance_report ctx args = do
  department ← item args "department_id"
  period ← item args "period"
  res ←
      ctx.databricks.execute_sql statement
        (some (entry "department_id" department (entry "period" period end)))
  variance_report department period res

-- `_trigger_databricks_workflow`
unfoldable pub trigger_databricks_workflow : ToolContext → Dict → Result ToolResult
trigger_databricks_workflow ctx args = do
  name ← text_item args "workflow_name"
  run ← ctx.databricks.run_job name (some (dict_or_empty (get args "parameters")))
  ok (
      no_metadata (
        entry "workflow_name" (str run.job_name) (
          entry "run_id" (str run.run_id)
            (entry "state" (str run.state) (entry "output" (dict run.output) end)))))
