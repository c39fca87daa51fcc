-- ===== src/ReferenceTools/Billing.antt =====
-- The invoice draft of packages/tool_registry/tools.py.
use Prim.Native.Nat.{◌/◌, ◌^◌}
use nervora.Base.{suc, String, true, false, [], ◌∷◌, if◌then◌else◌, fstring}
use nervora.Json.{ℤ, pos, negsuc, Json, bool, int, float, str, dict, Dict, end, entry}
use nervora.Numbers.Integers.{◌-ℤ◌}
use nervora.Numbers.Decimal.{int_text}
use nervora.ToolRegistry.Spec.{exception, Result, ok, raise, ToolContext, ToolResult}
use nervora.ReferenceTools.Fixtures.{customers}
use nervora.ReferenceTools.Reading.{◌>>=◌, item, text_item, fetch, type_name}

-- `int(v)` of a number, towards zero; the model of the arguments lets nothing else through.
abbrev pub truncated : Json → Result ℤ
truncated (int n) = ok n
truncated (float (pos m) k) = ok (pos (m / 2 ^ k))
truncated (float (negsuc m) k) = ok (pos 0 -ℤ pos (suc m / 2 ^ k))
truncated (bool b) = ok (if b then pos 1 else pos 0)
truncated v =
    raise (exception (fstring ("int() argument must be a number, not '" ∷ type_name v ∷ "'" ∷ [])))

abbrev pub invoice_of : String → Json → Json → String → Json → Dict
invoice_of id name amount currency description = entry "customer_id" (str id) (
    entry "customer_name" name (
      entry "amount" amount
        (entry "currency" (str currency) (entry "description" description end))))

abbrev pub draft_output : String → Dict → Dict
draft_output draft_id invoice = entry "draft_id" (str draft_id) (
    entry "status" (str "draft") (
      entry "writes_applied" (bool false) (
        entry "human_approval_required" (bool true) (
          entry "invoice" (dict invoice) (
            entry "message"
              (str
                "Invoice draft created. No invoice was issued. Human approval is required to finalize this draft via the approvals endpoint.")
              end)))))

-- `_billing_create_invoice_draft`
unfoldable pub billing_create_invoice_draft : ToolContext → Dict → Result ToolResult
unfolding fetch int_text
billing_create_invoice_draft ctx args = do
  id ← text_item args "customer_id"
  cust ← fetch customers "customer " "customer_id" args
  name ← item cust "name"
  amount ← item args "amount"
  currency ← text_item args "currency"
  description ← item args "description"
  whole ← truncated amount
  let invoice = invoice_of id name amount currency description
  let draft_id = fstring ("DRAFT-" ∷ id ∷ "-" ∷ int_text whole ∷ "-" ∷ currency ∷ [])
  ok (record {
    output = draft_output draft_id invoice;
    metadata = entry "proposed_change" (dict invoice) (entry "resource_id" (str draft_id) end);
  })
