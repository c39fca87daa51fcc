-- ===== src/ReferenceTools/Budget.antt =====
-- The budget report of packages/tool_registry/tools.py over the mock connector.
use nervora.Base.{ℕ, ◌+◌, String, List, [], ◌∷◌, map, ◌≡◌, refl, arith, some, length, ◌∙◌, ap, ap₂}
use nervora.Json.{pos, Json, str, int, list, Dict, end, entry, get, set}
use nervora.Numbers.Integers.{difference, difference-add, pos-sub}
use nervora.ToolRegistry.Spec.{ok, SqlStatementResult, ToolResult, ToolContext}
use nervora.Databricks.Mock.{
  Fact, budget_facts, fact_row, columns, zip_into, as_records, execute_sql, mock_connector,
  param_text, stmt_id,
}
use nervora.ReferenceTools.Reading.{no_metadata, item, ◌>>=◌}
use nervora.ReferenceTools.Reports.{
  statement, items_of, sum_of, variance_report, run_budget_variance_report,
}

-- The records of the statement's result.
abbrev pub records_of : List Fact → List Dict
records_of facts = map (λ row. zip_into columns row end) (map fact_row facts)

abbrev pub total_budget : List Fact → ℕ
total_budget [] = 0
total_budget (f ∷ fs) = f.budget + total_budget fs

abbrev pub total_actual : List Fact → ℕ
total_actual [] = 0
total_actual (f ∷ fs) = f.actual + total_actual fs

sum_of-budget :
    (fs : List Fact) (n : ℕ)
    → sum_of "budget" (records_of fs) (pos n) ≡ ok (pos (n + total_budget fs))
unfolding sum_of zip_into fact_row get set
sum_of-budget [] n = ap (λ k. ok (pos k)) (omega arith)
sum_of-budget (f ∷ fs) n = sum_of-budget fs (n + f.budget) ∙ ap (λ k. ok (pos k)) (omega arith)

sum_of-actual :
    (fs : List Fact) (n : ℕ)
    → sum_of "actual" (records_of fs) (pos n) ≡ ok (pos (n + total_actual fs))
unfolding sum_of zip_into fact_row get set
sum_of-actual [] n = ap (λ k. ok (pos k)) (omega arith)
sum_of-actual (f ∷ fs) n = sum_of-actual fs (n + f.actual) ∙ ap (λ k. ok (pos k)) (omega arith)

sum_of-variance :
    (fs : List Fact) (a b : ℕ)
    → sum_of "variance" (records_of fs) (difference a b)
      ≡ ok (difference (a + total_actual fs) (b + total_budget fs))
unfolding sum_of zip_into fact_row get set
sum_of-variance [] a b = ap₂ (λ m n. ok (difference m n)) (omega arith) (omega arith)
sum_of-variance (f ∷ fs) a b =
    ap (λ z. sum_of "variance" (records_of fs) z) (difference-add a b f.actual f.budget)
    ∙ sum_of-variance fs (a + f.actual) (b + f.budget)
    ∙ ap₂ (λ m n. ok (difference m n)) (omega arith) (omega arith)

-- The sums of the columns of whole results.
sums :
    (fs : List Fact)
    → (sum_of "budget" (records_of fs) (pos 0) ≡ ok (pos (total_budget fs)))
      × (sum_of "actual" (records_of fs) (pos 0) ≡ ok (pos (total_actual fs)))
      × (sum_of "variance" (records_of fs) (pos 0)
          ≡ ok (difference (total_actual fs) (total_budget fs)))
sums fs = (
  sum_of-budget fs 0 ∙ ap (λ k. ok (pos k)) (omega arith),
  sum_of-actual fs 0 ∙ ap (λ k. ok (pos k)) (omega arith),
  sum_of-variance fs 0 0 ∙ ap₂ (λ m n. ok (difference m n)) (omega arith) (omega arith),
)

-- The output over a statement's result.
abbrev report_of : Json → Json → String → List Fact → ToolResult
report_of department period id fs = no_metadata (
    entry "department_id" department (
      entry "period" period (
        entry "statement_id" (str id) (
          entry "line_items" (list (items_of (records_of fs))) (
            entry "total_budget" (int (pos (total_budget fs))) (
              entry "total_actual" (int (pos (total_actual fs))) (
                entry "total_variance" (int (difference (total_actual fs) (total_budget fs)))
                  end)))))))

variance_report-eq :
    (department period : Json) (res : SqlStatementResult) (fs : List Fact)
    → as_records res ≡ records_of fs
    → variance_report department period res ≡ ok (report_of department period res.statement_id fs)
unfolding variance_report
variance_report-eq department period res fs e =
    let (b, a, _) = sums fs in rw (e, b, a, pos-sub (total_actual fs) (total_budget fs)) refl

run_budget_variance_report-eq :
    (sha256 : String → String) (repr : Json → String) (ctx : ToolContext) (args : Dict)
    (department period : String)
    → ctx.databricks ≡ mock_connector sha256 repr
    → get args "department_id" ≡ some (str department)
    → get args "period" ≡ some (str period)
    → (id : String) × (run_budget_variance_report ctx args
        ≡ ok (report_of (str department) (str period) id (budget_facts department period)))
unfolding run_budget_variance_report as_records mock_connector execute_sql param_text get
run_budget_variance_report-eq sha256 repr ctx args department period db dept per =
    let id =
      stmt_id sha256 repr statement
        (some (entry "department_id" (str department) (entry "period" (str period) end))) in
    (
      id,
      rw (dept, per, db, run_budget_variance_report, item, ◌>>=◌)
          (variance_report-eq (str department) (str period)
            (record {
              statement_id = id;
              columns = columns;
              rows = map fact_row (budget_facts department period);
              row_count = length (map fact_row (budget_facts department period));
            })
            (budget_facts department period) refl),
    )

-- With the mock connector the report of a department and a period succeeds, its totals are the sums
-- of the budgets and of the actuals of their facts, its lines are the statement's records, and its
-- total variance is both the difference of the totals and the sum of the records' own variances.
pub run_budget_variance_report-totals :
    (sha256 : String → String) (repr : Json → String) (ctx : ToolContext) (args : Dict)
    (department period : String)
    → ctx.databricks ≡ mock_connector sha256 repr
    → get args "department_id" ≡ some (str department)
    → get args "period" ≡ some (str period)
    → (result : ToolResult) × (run_budget_variance_report ctx args ≡ ok result)
      × (get result.output "total_budget"
          ≡ some (int (pos (total_budget (budget_facts department period)))))
      × (get result.output "total_actual"
          ≡ some (int (pos (total_actual (budget_facts department period)))))
      × (get result.output "line_items"
          ≡ some (list (items_of (records_of (budget_facts department period)))))
      × (get result.output "total_variance"
          ≡ some (
              int (
                difference
                  (total_actual (budget_facts department period))
                  (total_budget (budget_facts department period)))))
      × (sum_of "variance" (records_of (budget_facts department period)) (pos 0)
          ≡ ok (
              difference
                (total_actual (budget_facts department period))
                (total_budget (budget_facts department period))))
unfolding get
run_budget_variance_report-totals sha256 repr ctx args department period db dept per =
    let (id, e) =
      run_budget_variance_report-eq sha256 repr ctx args department period db dept per in
    (_, e, refl, refl, refl, refl, (sums (budget_facts department period)).2)
