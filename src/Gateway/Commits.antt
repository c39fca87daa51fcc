-- ===== src/Gateway/Commits.antt =====
-- When `Executor.invoke` (apps/mcp-gateway/app/executor.py) commits: the ids that it draws meet the
-- constraints of packages/audit/models.py.
use nervora.Base.{String, true, false, ◌≡◌, refl, arith, Option, some, or_else}
use nervora.Base.Table.{unique, has, has_of_find, unique-update}
use nervora.Json.{Dict}
use nervora.Common.Ids.{Ambient, gen_job_id, gen_approval_id, gen_idempotency_key}
use nervora.Audit.Models.{Db, Approval, IdempotencyKey}
use nervora.Audit.Session.{integrity}
use nervora.ToolRegistry.Spec.{ToolSpec}
use nervora.World.{World}
use nervora.Gateway.Request.{Executor, Request, request_id}
use nervora.Gateway.Outcome.{InvocationOutcome}
use nervora.Gateway.Execution.{handle_dry_run}
use nervora.Gateway.Queueing.{handle_async}
use nervora.Gateway.Destructive.{handle_destructive, execute_approved, consume}
use nervora.Gateway.Executor.{route, decide, finish, invoke}
use nervora.Gateway.Trail.{decide-SameTrail}

-- The primary keys of the tables that a handler may add to.
pub record IsKeyed (db : Db) : Type 0 where
  pub jobs : unique (λ j. j.job_id) db.jobs ≡ true
  pub approvals : unique (λ p. p.approval_id) db.approvals ≡ true
  pub keys : unique (λ k. k.idempotency_key) db.keys ≡ true

module _ {Q : Type 0} (x : Executor Q) (r : Request) (a : Ambient) where
  -- The ids that this call may draw are not taken.
  pub record IsFresh (db : Db) : Type 0 where
    pub request : has (λ c. c.request_id) (request_id x r a) db.tool_calls ≡ false
    pub job : has (λ j. j.job_id) (gen_job_id a) db.jobs ≡ false
    pub approval : has (λ p. p.approval_id) (gen_approval_id a) db.approvals ≡ false

  handle_dry_run-IsKeyed :
      (spec : ToolSpec) (args : Dict) (db : Db)
      → IsFresh db
      → IsKeyed db
      → IsKeyed (handle_dry_run x r a spec args db).1
  unfolding handle_dry_run unique
  handle_dry_run-IsKeyed spec args db f k = ground arith

  execute_approved-IsKeyed :
      (spec : ToolSpec) (args : Dict) (id : Option String) (approval : Approval) (db : Db)
      → IsKeyed db
      → IsKeyed (execute_approved x r a spec args id approval db).1
  unfolding execute_approved
  execute_approved-IsKeyed spec args id approval db k = ground (
    arith,
    unique-update (λ (p : Approval). p.approval_id) (consume x r a) (λ p. refl) approval.approval_id
        db.approvals,
  )

  handle_destructive-IsKeyed :
      (spec : ToolSpec) (args : Dict) (db : Db)
      → IsKeyed db
      → IsKeyed (handle_destructive x r a spec args db).1
  unfolding handle_destructive
  handle_destructive-IsKeyed spec args db k = grind (arith, execute_approved-IsKeyed)

  handle_async-IsKeyed :
      (spec : ToolSpec) (args : Dict) (w : World Q)
      → IsFresh w.db
      → IsKeyed w.db
      → IsKeyed (handle_async x r a spec args w).1.db
  unfolding handle_async unique
  handle_async-IsKeyed spec args w f k = ground (
    arith,
    has_of_find (λ (i : IdempotencyKey). i.idempotency_key)
        (or_else r.idempotency_key (gen_idempotency_key a)) w.db.keys,
  )

  route-IsKeyed :
      (spec : ToolSpec) (args : Dict) (w : World Q)
      → IsFresh w.db
      → IsKeyed w.db
      → IsKeyed (route x r a spec args w).1.db
  unfolding route
  route-IsKeyed spec args w f k = ground (
    arith,
    handle_destructive-IsKeyed spec args w.db k,
    handle_dry_run-IsKeyed spec args w.db f k,
    handle_async-IsKeyed spec args w f k,
  )

  decide-IsKeyed : (w : World Q) → IsFresh w.db → IsKeyed w.db → IsKeyed (decide x r a w).1.db
  unfolding decide
  decide-IsKeyed w f k = grind (arith, route-IsKeyed)

  IsKeyed-integrity : (db : Db) → integrity db ≡ true → IsKeyed db
  unfolding integrity
  IsKeyed-integrity db h = ground arith

  finish-integrity :
      (w : World Q)
      → integrity w.db ≡ true
      → IsFresh w.db
      → integrity (finish x r a (decide x r a w).0 (decide x r a w).1.db).1 ≡ true
  unfolding finish integrity unique
  finish-integrity w h f =
      ground (arith, decide-SameTrail x r a w, decide-IsKeyed w f (IsKeyed-integrity w.db h))

  -- If the database is within its constraints and the ids that the call draws are new, the call
  -- returns an outcome, whatever the tool and its arguments do, and the database stays within its
  -- constraints.
  pub invoke_commits :
      (w : World Q)
      → integrity w.db ≡ true
      → IsFresh w.db
      → ((o : InvocationOutcome) × ((invoke x r a w).0 ≡ some o))
        × (integrity (invoke x r a w).1.db ≡ true)
  unfolding invoke
  invoke_commits w h f =
      let kept = finish-integrity w h f in
      (
        ((finish x r a (decide x r a w).0 (decide x r a w).1.db).0, rw (kept, invoke)),
        rw (kept, invoke) kept,
      )
