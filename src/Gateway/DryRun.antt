-- ===== src/Gateway/DryRun.antt =====
-- The dry-run gate of apps/mcp-gateway/app/executor.py at the level of `Executor.invoke`.
use nervora.Base.{◌∷◌, ◌≡◌, ◌≢◌, refl, arith, some, inl, inr}
use nervora.Json.{Dict}
use nervora.Common.Ids.{Ambient}
use nervora.Audit.Models.{Db, Approval, pending, dry_run}
use nervora.ToolRegistry.Spec.{ToolSpec, Result, ok, raise, Result-cases}
use nervora.World.{World}
use nervora.Gateway.Request.{Executor, Request}
use nervora.Gateway.Outcome.{InvocationOutcome}
use nervora.Gateway.Execution.{handle_sync, handle_dry_run, new_approval}
use nervora.Gateway.Queueing.{handle_async}
use nervora.Gateway.Destructive.{handle_destructive}
use nervora.Gateway.Executor.{route, decide, invoke}

module _ {Q : Type 0} (x : Executor Q) (r : Request) (a : Ambient) where
  -- What a dry run leaves: one more approval, pending, made by the caller, under the id that the
  -- outcome carries; and the jobs, keys and messages of before.
  pub record AddsPending (o : InvocationOutcome) (before after : World Q) : Type 0 where
    pub approval : Approval
    pub added : after.db.approvals ≡ approval ∷ before.db.approvals
    pub is_pending : approval.status ≡ pending
    pub named : o.approval_id ≡ some approval.approval_id
    pub requested_by_role : approval.requested_by_role ≡ r.principal.role
    pub requested_by_agent : approval.requested_by_agent ≡ r.principal.agent_id
    pub jobs : after.db.jobs ≡ before.db.jobs
    pub keys : after.db.keys ≡ before.db.keys
    pub queue : after.queue ≡ before.queue

  abbrev DryRuns : Result InvocationOutcome × World Q → World Q → Type 0
  DryRuns (ok o, after) before = (o.decision ≡ dry_run) × AddsPending o before after
  DryRuns (raise e, after) before = after ≡ before

  handle_dry_run-DryRuns :
      (spec : ToolSpec) (args : Dict) (w : World Q)
      → DryRuns
          (
            (handle_dry_run x r a spec args w.db).0,
            record w { db = (handle_dry_run x r a spec args w.db).1 },
          )
          w
  unfolding handle_dry_run
  handle_dry_run-DryRuns spec args w = elim (Result-cases (spec.run x.tool_ctx args)) [
    | inl (v, e) ↦
        rw (e, handle_dry_run)
          (
            refl,
            record {
              approval = new_approval x r a spec v;
              added = refl;
              is_pending = refl;
              named = refl;
              requested_by_role = refl;
              requested_by_agent = refl;
              jobs = refl;
              keys = refl;
              queue = refl;
            },
          )
    | inr (v, e) ↦ rw (e, handle_dry_run) refl
  ]

  -- The other handlers do not report a dry run.
  abbrev IsOther : Result InvocationOutcome → Type 0
  IsOther (ok o) = o.decision ≢ dry_run
  IsOther (raise e) = Unit

  handle_destructive-IsOther :
      (spec : ToolSpec) (args : Dict) (db : Db) → IsOther (handle_destructive x r a spec args db).0
  unfolding handle_destructive
  handle_destructive-IsOther spec args db = ground arith

  handle_async-IsOther :
      (spec : ToolSpec) (args : Dict) (w : World Q) → IsOther (handle_async x r a spec args w).0
  unfolding handle_async
  handle_async-IsOther spec args w = ground arith

  handle_sync-IsOther : (spec : ToolSpec) (args : Dict) → IsOther (handle_sync x r a spec args)
  unfolding handle_sync
  handle_sync-IsOther spec args = ground arith

  route-AddsPending :
      (spec : ToolSpec) (args : Dict) (w : World Q)
      → (route x r a spec args w).0.decision ≡ dry_run
      → AddsPending (route x r a spec args w).0 w (route x r a spec args w).1
  unfolding route
  route-AddsPending spec args w h = ground (
    arith,
    handle_destructive-IsOther spec args w.db,
    handle_dry_run-DryRuns spec args w,
    handle_async-IsOther spec args w,
    handle_sync-IsOther spec args,
  )

  decide-AddsPending :
      (w : World Q)
      → (decide x r a w).0.decision ≡ dry_run
      → AddsPending (decide x r a w).0 w (decide x r a w).1
  unfolding decide
  decide-AddsPending w h = grind (arith, route-AddsPending)

  -- A call that reports a dry run has added one approval, which is pending, bears the id that the
  -- outcome names and was asked for by the caller; no job, key or message has changed.
  pub invoke-AddsPending :
      (w : World Q) (o : InvocationOutcome)
      → (invoke x r a w).0 ≡ some o
      → o.decision ≡ dry_run
      → AddsPending o w (invoke x r a w).1
  unfolding invoke
  invoke-AddsPending w o h d = ground (arith, decide-AddsPending w)
