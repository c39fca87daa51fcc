-- ===== src/Gateway/Effects.antt =====
-- What a call of `Executor.invoke` (apps/mcp-gateway/app/executor.py) may change, by its decision.
use nervora.Base.{true, ◌≡◌, arith, some, Member}
use nervora.Json.{Dict}
use nervora.Rbac.Decisions.{evaluate-allowed_iff}
use nervora.Common.Ids.{Ambient}
use nervora.Audit.Models.{Db, CallDecision, denied, failed}
use nervora.ToolRegistry.Spec.{ToolSpec, Result, ok, raise}
use nervora.ToolRegistry.Registry.{get_tool}
use nervora.World.{World}
use nervora.Gateway.Request.{Executor, Request}
use nervora.Gateway.Outcome.{InvocationOutcome}
use nervora.Gateway.Execution.{handle_sync, handle_dry_run}
use nervora.Gateway.Queueing.{handle_async}
use nervora.Gateway.Destructive.{handle_destructive}
use nervora.Gateway.Executor.{route, decide, invoke}

-- The decision that a handler's result leads to.
abbrev DecidesTo : CallDecision → Result InvocationOutcome → Type 0
DecidesTo d (ok o) = o.decision ≡ d
DecidesTo d (raise e) = d ≡ failed

module _ {Q : Type 0} (x : Executor Q) (r : Request) (a : Ambient) where
  handle_destructive-denied :
      (spec : ToolSpec) (args : Dict) (db : Db)
      → DecidesTo denied (handle_destructive x r a spec args db).0
      → (handle_destructive x r a spec args db).1 ≡ db
  unfolding handle_destructive
  handle_destructive-denied spec args db h = ground arith

  handle_dry_run-not_denied :
      (spec : ToolSpec) (args : Dict) (db : Db)
      → ¬ DecidesTo denied (handle_dry_run x r a spec args db).0
  unfolding handle_dry_run
  handle_dry_run-not_denied spec args db h = ground arith

  handle_async-not_denied :
      (spec : ToolSpec) (args : Dict) (w : World Q)
      → ¬ DecidesTo denied (handle_async x r a spec args w).0
  unfolding handle_async
  handle_async-not_denied spec args w h = ground arith

  handle_sync-not_denied :
      (spec : ToolSpec) (args : Dict) → ¬ DecidesTo denied (handle_sync x r a spec args)
  unfolding handle_sync
  handle_sync-not_denied spec args h = ground arith

  route-denied :
      (spec : ToolSpec) (args : Dict) (w : World Q)
      → (route x r a spec args w).0.decision ≡ denied
      → (route x r a spec args w).1 ≡ w
  unfolding route
  route-denied spec args w h = ground (
    arith,
    handle_destructive-denied spec args w.db,
    handle_dry_run-not_denied spec args w.db,
    handle_async-not_denied spec args w,
    handle_sync-not_denied spec args,
  )

  decide-denied : (w : World Q) → (decide x r a w).0.decision ≡ denied → (decide x r a w).1 ≡ w
  unfolding decide
  decide-denied w h = grind (arith, route-denied)

  -- A call that returns a denial has no effect but its audit records: no approval, job, key,
  -- policy or message is added, changed or removed.
  pub denied_no_effects :
      (w : World Q) (o : InvocationOutcome)
      → (invoke x r a w).0 ≡ some o
      → o.decision ≡ denied
      → ((invoke x r a w).1.db.approvals ≡ w.db.approvals)
        × ((invoke x r a w).1.db.jobs ≡ w.db.jobs)
        × ((invoke x r a w).1.db.keys ≡ w.db.keys)
        × ((invoke x r a w).1.db.policies ≡ w.db.policies)
        × ((invoke x r a w).1.queue ≡ w.queue)
  unfolding invoke
  denied_no_effects w o h d = ground (arith, decide-denied w)

  -- A caller whose role is unknown or not listed by the tool, and every caller of a disabled
  -- tool, is denied and changes nothing, whatever the arguments are and whatever the tool's code
  -- and model would do with them.
  pub decide-unauthorised :
      (w : World Q) (spec : ToolSpec)
      → get_tool x.registry r.tool_name ≡ some spec
      → ¬ (
          Member r.principal.role x.known_roles
          × (spec.enabled ≡ true)
          × Member r.principal.role spec.required_roles)
      → ((decide x r a w).0.decision ≡ denied) × ((decide x r a w).1 ≡ w)
  unfolding decide
  decide-unauthorised w spec found no_right =
      ground (
        arith,
        evaluate-allowed_iff r.principal.role spec.required_roles x.known_roles spec.enabled,
      )
