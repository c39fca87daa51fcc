-- ===== src/Gateway/Trail.antt =====
-- The audit trail of `Executor.invoke` (apps/mcp-gateway/app/executor.py): one row and one event for
-- every call that commits.
use nervora.Base.{String, fstring, [], ◌∷◌, ◌≡◌, refl, arith, Option, none, some}
use nervora.Json.{Dict, dict, str, entry, end, optional}
use nervora.Common.Ids.{Ambient}
use nervora.Audit.Models.{Db, Approval, decision_value}
use nervora.ToolRegistry.Spec.{ToolSpec, Result, ok, raise}
use nervora.World.{World}
use nervora.Gateway.Request.{Executor, Request, request_id, trace_id}
use nervora.Gateway.Outcome.{InvocationOutcome}
use nervora.Gateway.Execution.{handle_sync, handle_dry_run}
use nervora.Gateway.Queueing.{handle_async, enqueue}
use nervora.Gateway.Destructive.{handle_destructive, execute_approved}
use nervora.Gateway.Executor.{route, decide, invoke}

-- What a handler leaves alone: the audit tables, the policies, the clock.
pub record SameTrail (before after : Db) : Type 0 where
  pub events : after.events ≡ before.events
  pub tool_calls : after.tool_calls ≡ before.tool_calls
  pub policies : after.policies ≡ before.policies
  pub now : after.now ≡ before.now

SameTrail-refl : (db : Db) → SameTrail db db
SameTrail-refl db = record { events = refl; tool_calls = refl; policies = refl; now = refl }

module _ {Q : Type 0} (x : Executor Q) (r : Request) (a : Ambient) where
  handle_dry_run-SameTrail :
      (spec : ToolSpec) (args : Dict) (db : Db) → SameTrail db (handle_dry_run x r a spec args db).1
  unfolding handle_dry_run
  handle_dry_run-SameTrail spec args db = ground arith

  execute_approved-SameTrail :
      (spec : ToolSpec) (args : Dict) (id : Option String) (approval : Approval) (db : Db)
      → SameTrail db (execute_approved x r a spec args id approval db).1
  unfolding execute_approved
  execute_approved-SameTrail spec args id approval db = ground arith

  handle_destructive-SameTrail :
      (spec : ToolSpec) (args : Dict) (db : Db)
      → SameTrail db (handle_destructive x r a spec args db).1
  unfolding handle_destructive
  handle_destructive-SameTrail spec args db = ground arith

  enqueue-SameTrail :
      (spec : ToolSpec) (args : Dict) (key : String) (w : World Q)
      → SameTrail w.db (enqueue x r a spec args key w).1.db
  unfolding enqueue
  enqueue-SameTrail spec args key w = ground arith

  handle_async-SameTrail :
      (spec : ToolSpec) (args : Dict) (w : World Q)
      → SameTrail w.db (handle_async x r a spec args w).1.db
  unfolding handle_async
  handle_async-SameTrail spec args w = ground arith

  route-SameTrail :
      (spec : ToolSpec) (args : Dict) (w : World Q) → SameTrail w.db (route x r a spec args w).1.db
  unfolding route
  route-SameTrail spec args w = ground (
    arith,
    handle_destructive-SameTrail spec args w.db,
    handle_dry_run-SameTrail spec args w.db,
    handle_async-SameTrail spec args w,
  )

  pub decide-SameTrail : (w : World Q) → SameTrail w.db (decide x r a w).1.db
  unfolding decide
  decide-SameTrail w = grind (arith, route-SameTrail)

  -- Every id that an outcome carries is the call's.
  abbrev IsTagged : InvocationOutcome → Type 0
  IsTagged o = (o.request_id ≡ request_id x r a) × (o.trace_id ≡ trace_id x r a)

  abbrev IsTaggedResult : Result InvocationOutcome → Type 0
  IsTaggedResult (ok o) = IsTagged o
  IsTaggedResult (raise e) = Unit

  handle_async-IsTagged :
      (spec : ToolSpec) (args : Dict) (w : World Q)
      → IsTaggedResult (handle_async x r a spec args w).0
  unfolding handle_async
  handle_async-IsTagged spec args w = ground arith

  handle_destructive-IsTagged :
      (spec : ToolSpec) (args : Dict) (db : Db)
      → IsTaggedResult (handle_destructive x r a spec args db).0
  unfolding handle_destructive
  handle_destructive-IsTagged spec args db = ground arith

  handle_dry_run-IsTagged :
      (spec : ToolSpec) (args : Dict) (db : Db)
      → IsTaggedResult (handle_dry_run x r a spec args db).0
  unfolding handle_dry_run
  handle_dry_run-IsTagged spec args db = ground arith

  route-IsTagged :
      (spec : ToolSpec) (args : Dict) (w : World Q) → IsTagged (route x r a spec args w).0
  unfolding route handle_sync
  route-IsTagged spec args w = ground (
    arith,
    handle_destructive-IsTagged spec args w.db,
    handle_dry_run-IsTagged spec args w.db,
    handle_async-IsTagged spec args w,
  )

  decide-IsTagged : (w : World Q) → IsTagged (decide x r a w).0
  unfolding decide
  decide-IsTagged w = grind (arith, route-IsTagged)

  -- A call that returns an outcome has added one row to `tool_calls` and one event to
  -- `audit_events`. Both name the caller and the tool, and carry the outcome's ids and decision;
  -- the row has its error code, redaction status and latency and the hash of the call, the event
  -- its type by the decision and the error code and message as its detail. The ids are the
  -- call's, and no older row of either table has changed.
  pub invoke-audited :
      (w : World Q) (o : InvocationOutcome)
      → (invoke x r a w).0 ≡ some o
      → ((invoke x r a w).1.db.tool_calls
          ≡ record {
            trace_id = o.trace_id;
            request_id = o.request_id;
            user_id = r.principal.subject;
            agent_id = r.principal.agent_id;
            role = r.principal.role;
            tool_name = r.tool_name;
            input_hash =
                x.hash
                  (dict (entry "tool" (str r.tool_name) (entry "args" (dict r.arguments) end)));
            redaction_status = o.redaction_status;
            decision = o.decision;
            error_code = o.error_code;
            latency_ms = o.latency_ms;
            created_at = w.db.now;
          }
            ∷ w.db.tool_calls)
        × ((invoke x r a w).1.db.events
            ≡ record {
              trace_id = o.trace_id;
              request_id = o.request_id;
              event_type = fstring ("tool." ∷ decision_value o.decision ∷ []);
              user_id = r.principal.subject;
              agent_id = r.principal.agent_id;
              role = r.principal.role;
              tool_name = r.tool_name;
              decision = o.decision;
              detail =
                  entry "error_code"
                    (optional o.error_code)
                    (entry "message" (optional o.message) end);
              created_at = w.db.now;
            }
              ∷ w.db.events)
        × (o.request_id ≡ request_id x r a)
        × (o.trace_id ≡ trace_id x r a)
        × (o.latency_ms ≡ a.elapsed)
  unfolding invoke
  invoke-audited w o h = ground (arith, decide-SameTrail w, decide-IsTagged w)

  -- A call that raises has left the database as it was.
  pub invoke_rolled_back : (w : World Q) → (invoke x r a w).0 ≡ none → (invoke x r a w).1.db ≡ w.db
  unfolding invoke
  invoke_rolled_back w h = ground arith
