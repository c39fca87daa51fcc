-- ===== src/ReferenceTools/Crm.antt =====
-- The CRM update of packages/tool_registry/tools.py: its dry run and its execution.
use nervora.Base.{String, true, false, none, some, if◌then◌else◌}
use nervora.Json.{Json, null, bool, str, list, dict, Items, nil, cons, Dict, end, entry, get}
use nervora.ToolRegistry.Spec.{Result, ok, ToolContext, ToolResult}
use nervora.ReferenceTools.Fixtures.{crm_accounts}
use nervora.ReferenceTools.Equality.{values_eq}
use nervora.ReferenceTools.Reading.{◌>>=◌, item, text_item, dict_item, no_metadata, fetch}

-- `account.get(key)`
abbrev pub value_at : Dict → String → Json
value_at account key = elim (get account key) [ none ↦ null | some v ↦ v ]

abbrev pub change : String → Json → Json → Json
change key old new = dict (entry "field" (str key) (entry "from" old (entry "to" new end)))

-- The loop over the proposed changes.
unfoldable pub diff : Dict → Dict → Items
diff account end = nil
diff account (entry key new proposed) =
    let rest = diff account proposed in
    if values_eq (value_at account key) new
    then rest
    else cons (change key (value_at account key) new) rest

-- `_create_crm_update_dry_run`
unfoldable pub create_crm_update_dry_run : ToolContext → Dict → Result ToolResult
unfolding fetch diff
create_crm_update_dry_run ctx args = do
  account_id ← text_item args "account_id"
  account ← fetch crm_accounts "account " "account_id" args
  proposed ← dict_item args "proposed_changes"
  ok (record {
    output = entry "account_id" (str account_id) (
        entry "diff" (list (diff account proposed)) (
          entry "human_approval_required" (bool true) (
            entry "writes_applied" (bool false) (
              entry "message"
                (str
                  "Dry run only. No changes were written. Human approval is required to execute via execute_crm_update with an approval token.")
                end))));
    metadata = entry "proposed_change" (dict proposed) (entry "resource_id" (str account_id) end);
  })

-- `_execute_crm_update`
unfoldable pub execute_crm_update : ToolContext → Dict → Result ToolResult
unfolding fetch
execute_crm_update ctx args = do
  account_id ← text_item args "account_id"
  account ← fetch crm_accounts "account " "account_id" args
  change_id ← item args "approved_change_id"
  ok (
      no_metadata (
        entry "account_id" (str account_id) (
          entry "approved_change_id" change_id (
            entry "writes_applied" (bool true)
              (entry "message" (str "CRM update applied (mock).") end)))))
