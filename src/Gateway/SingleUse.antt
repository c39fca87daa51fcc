-- ===== src/Gateway/SingleUse.antt =====
-- That an approval is good for one execution (`_handle_destructive` of
-- apps/mcp-gateway/app/executor.py).
use nervora.Base.{String, ◌≡◌, refl, arith, Option, some, ◌∙◌, eq_iff, ap}
use nervora.Base.Table.{find-update, find-key}
use nervora.Json.{Dict, get, as_text}
use nervora.Common.Ids.{Ambient}
use nervora.Audit.Models.{Db, Approval, consumed}
use nervora.Audit.Repository.{get_approval, set_approval}
use nervora.ToolRegistry.Spec.{ToolSpec, Result}
use nervora.Gateway.Request.{Executor, Request}
use nervora.Gateway.Outcome.{InvocationOutcome}
use nervora.Gateway.Destructive.{consume, execute_approved, handle_destructive}
use nervora.Gateway.Gate.{
  Runs, Executes, handle_destructive-IsOpen, handle_destructive-open,
  handle_destructive-Executes_iff,
}

consume_key :
    {Q : Type 0} (x : Executor Q) (r : Request) (a : Ambient) (p : Approval)
    → (consume x r a p).approval_id ≡ p.approval_id
unfolding consume
consume_key x r a p = refl

status-consume :
    {Q : Type 0} (x : Executor Q) (r : Request) (a : Ambient) (p : Approval)
    → (consume x r a p).status ≡ consumed
unfolding consume
status-consume x r a p = refl

-- The approval row after the execution.
get_approval-consumed :
    {Q : Type 0} (x : Executor Q) (r : Request) (a : Ambient) (id : String) (p : Approval) (db : Db)
    → get_approval id db ≡ some p
    → get_approval id (set_approval p.approval_id (consume x r a) db) ≡ some (consume x r a p)
unfolding get_approval set_approval
get_approval-consumed x r a id p db e = ground (
  arith,
  find-key (λ (q : Approval). q.approval_id) id db.approvals p e,
  find-update (λ (q : Approval). q.approval_id) (consume x r a) (consume_key x r a) id p.approval_id
      db.approvals,
  eq_iff p.approval_id id,
)

module _ {Q : Type 0} (x : Executor Q) (r r' : Request) (a a' : Ambient) where
  execute_approved-db :
      (spec : ToolSpec) (args : Dict) (id : Option String) (p : Approval) (db : Db)
      → Runs spec x.tool_ctx args
      → (execute_approved x r a spec args id p db).1 ≡ set_approval p.approval_id (consume x r a) db
  unfolding execute_approved
  execute_approved-db spec args id p db (v, e) = rw (e, execute_approved) refl

  -- An approval is good for one execution: on the database that an execution leaves, no call of
  -- any caller, tool or arguments that names the same approval is executed.
  pub approval_single_use :
      (spec spec' : ToolSpec) (args args' : Dict) (db : Db)
      → Executes x r a (handle_destructive x r a spec args db).0
      → as_text (get args' "approved_change_id") ≡ as_text (get args "approved_change_id")
      → ¬ Executes x r' a'
          (handle_destructive x r' a' spec' args' (handle_destructive x r a spec args db).1).0
  approval_single_use spec spec' args args' db first same second =
      let o = handle_destructive-IsOpen x r a spec args db first in
      let runs = ((handle_destructive-Executes_iff x r a spec args db).0 first).4 in
      let (id, p, named, ne, got, right) = o.3 in
      let after =
        ap (λ (m : Result InvocationOutcome × Db). m.1)
          (handle_destructive-open x r a spec args db o)
        ∙ execute_approved-db spec args (as_text (get args "approved_change_id")) p db runs in
      let o' = handle_destructive-IsOpen x r' a' spec' args' _ second in
      let (id', p', named', ne', got', right') = o'.3 in
      cc (
        named,
        named',
        same,
        after,
        got',
        right',
        get_approval-consumed x r a id p db got,
        status-consume x r a p,
      )
