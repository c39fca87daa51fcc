-- ===== src/Databricks/Mock.antt =====
-- packages/databricks_connector/mock.py: `MockDatabricksConnector` over its synthetic facts, and
-- `SqlStatementResult.as_records` (packages/databricks_connector/interface.py).
--
-- `sha256` is the hex digest of a text, and `repr` Python's repr of a value.
use nervora.Base.{
  ℕ, zero, suc, String, List, [], ◌∷◌, map, Option, none, some, ◌==◌, ◌&&◌, length, ltb, ◌-◌,
  if◌then◌else◌, fstring, slice_to,
}
use nervora.Json.Sorting.{sorted_items}
use nervora.Json.{Json, int, str, float, dict, pos, Dict, end, entry, get, set}
use nervora.Numbers.Integers.{difference}
use nervora.Numbers.Doubles.{percentage, positive_double, negative_double}
use nervora.ToolRegistry.Spec.{SqlStatementResult, JobRunResult, DatabricksConnector, Result, ok}

-- A row of `_BUDGET_FACTS`.
pub record Fact : Type 0 where
  pub line_item : String
  pub budget : ℕ
  pub actual : ℕ

abbrev fact : String → ℕ → ℕ → Fact
fact line_item budget actual = record { line_item = line_item; budget = budget; actual = actual }

-- `_BUDGET_FACTS.get((dept, period), [])`
unfoldable pub budget_facts : String → String → List Fact
budget_facts dept period =
    if dept == "FIN-100" && period == "2024-Q2"
    then fact "Salaries" 480000 502300
      ∷ fact "Software" 95000 87200
      ∷ fact "Travel" 40000 51800
      ∷ fact "Contractors" 120000 98400
      ∷ []
    else if dept == "SALES-200" && period == "2024-Q2"
    then fact "Salaries" 610000 598000
      ∷ fact "Marketing" 250000 301500
      ∷ fact "Travel" 80000 76200
      ∷ []
    else []

-- `as_records`: a column without a value and a value without a column are dropped, and of equal
-- columns the last one counts.
unfoldable pub zip_into : List String → List Json → Dict → Dict
zip_into [] row d = d
zip_into (c ∷ columns) [] d = d
zip_into (c ∷ columns) (v ∷ row) d = zip_into columns row (set d c v)

unfoldable pub as_records : SqlStatementResult → List Dict
unfolding zip_into
as_records res = map (λ row. zip_into res.columns row end) res.rows

-- `round(variance / f["budget"] * 100, 2) if f["budget"] else 0.0`
unfoldable pub variance_pct : Fact → Json
unfolding percentage
variance_pct f = elim f.budget [
  | zero ↦ float (pos 0) 0
  | suc b ↦
      if ltb f.actual f.budget
      then negative_double (percentage (f.budget - f.actual) f.budget)
      else positive_double (percentage (f.actual - f.budget) f.budget)
]

unfoldable pub fact_row : Fact → List Json
unfolding variance_pct
fact_row f =
    str f.line_item
    ∷ int (pos f.budget)
    ∷ int (pos f.actual)
    ∷ int (difference f.actual f.budget)
    ∷ variance_pct f
    ∷ []

abbrev pub columns : List String
columns = "line_item" ∷ "budget" ∷ "actual" ∷ "variance" ∷ "variance_pct" ∷ []

-- `parameters or {}`
abbrev pub or_empty : Option Dict → Dict
or_empty none = end
or_empty (some d) = d

module _ (sha256 : String → String) (repr : Json → String) where
  -- The repr of a list of pairs, from its second pair on.
  unfoldable pub repr_pairs : Dict → String
  repr_pairs end = "]"
  repr_pairs (entry k v d) =
      fstring (", (" ∷ repr (str k) ∷ ", " ∷ repr v ∷ ")" ∷ repr_pairs d ∷ [])

  unfoldable pub repr_items : Dict → String
  unfolding repr_pairs
  repr_items end = "[]"
  repr_items (entry k v d) = fstring ("[(" ∷ repr (str k) ∷ ", " ∷ repr v ∷ ")" ∷ repr_pairs d ∷ [])

  -- The text that an id is a digest of.
  unfoldable pub seed : String → Option Dict → String
  unfolding repr_items sorted_items
  seed name parameters = fstring (name ∷ "|" ∷ repr_items (sorted_items (or_empty parameters)) ∷ [])

  -- `_stmt_id`
  unfoldable pub stmt_id : String → Option Dict → String
  unfolding seed
  stmt_id statement parameters =
      fstring ("stmt_" ∷ slice_to 16 (sha256 (seed statement parameters)) ∷ [])

  unfoldable pub run_id_of : String → Option Dict → String
  unfolding seed
  run_id_of name parameters = fstring ("run_" ∷ slice_to 12 (sha256 (seed name parameters)) ∷ [])

  -- `str(params.get(key, default))`
  unfoldable pub param_text : Dict → String → String → String
  param_text params key default = elim (get params key) [
    | none ↦ default
    | some (str s) ↦ s
    | some v ↦ repr v
  ]

  unfoldable pub execute_sql : String → Option Dict → Result SqlStatementResult
  unfolding budget_facts fact_row stmt_id param_text
  execute_sql statement parameters =
      let params = or_empty parameters in
      let rows = map fact_row (
        budget_facts (param_text params "department_id" "FIN-100")
          (param_text params "period" "2024-Q2")) in
      ok (record {
        statement_id = stmt_id statement parameters;
        columns = columns;
        rows = rows;
        row_count = length rows;
      })

  unfoldable pub run_job : String → Option Dict → Result JobRunResult
  unfolding run_id_of
  run_job workflow_name parameters = ok (record {
    run_id = run_id_of workflow_name parameters;
    job_name = workflow_name;
    state = "SUCCESS";
    output = entry "workflow" (str workflow_name) (
        entry "parameters" (dict (or_empty parameters)) (
          entry "note" (str "mock Databricks job completed")
            (entry "rows_processed" (int (pos 1280)) end)));
  })

  unfoldable pub mock_connector : DatabricksConnector
  unfolding execute_sql run_job
  mock_connector = record { execute_sql = execute_sql; run_job = run_job }
