-- ===== src/ReferenceTools/Lookups.antt =====
-- The handlers of packages/tool_registry/tools.py that return a row of a table.
use nervora.Base.{none, some}
use nervora.Json.{str, Dict, end, entry, set}
use nervora.ToolRegistry.Spec.{Result, ok, raise, ToolContext, ToolResult}
use nervora.ReferenceTools.Fixtures.{row_of, employees, leave, invoices, customers}
use nervora.ReferenceTools.Reading.{◌>>=◌, text_item, no_metadata, not_found, fetch}

-- `_get_employee_profile`
unfoldable pub get_employee_profile : ToolContext → Dict → Result ToolResult
unfolding fetch
get_employee_profile ctx args = do
  emp ← fetch employees "employee " "employee_id" args
  ok (no_metadata emp)

-- `{**d, **e}`
unfoldable pub merge : Dict → Dict → Dict
merge d end = d
merge d (entry k v e) = merge (set d k v) e

-- `_check_leave_balance`
unfoldable pub check_leave_balance : ToolContext → Dict → Result ToolResult
unfolding merge
check_leave_balance ctx args = do
  id ← text_item args "employee_id"
  elim (row_of leave id) [
    | none ↦ raise (not_found "no leave record for " id "")
    | some bal ↦ ok (no_metadata (merge (entry "employee_id" (str id) end) bal))
  ]

-- `_get_invoice_status`
unfoldable pub get_invoice_status : ToolContext → Dict → Result ToolResult
unfolding fetch
get_invoice_status ctx args = do
  inv ← fetch invoices "invoice " "invoice_id" args
  ok (no_metadata inv)

-- `_crm_lookup_customer`
unfoldable pub crm_lookup_customer : ToolContext → Dict → Result ToolResult
unfolding fetch
crm_lookup_customer ctx args = do
  cust ← fetch customers "customer " "customer_id" args
  ok (no_metadata cust)
