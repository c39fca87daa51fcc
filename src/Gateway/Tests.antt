-- ===== src/Gateway/Tests.antt =====
-- Concrete calls of the gateway (apps/mcp-gateway/app/executor.py).
use nervora.Base.{
  true, [], ◌∷◌, ◌≡◌, ◌≢◌, ◌↔◌, refl, some, Member, Member→contains, contains, slice_to, none,
}
use nervora.Base.Table.{find, has, unique}
use nervora.Json.{end, get, set, dict, str, entry, null}
use nervora.Rbac.{evaluate}
use nervora.Pii.{redact, walk, walk_text, masks, masked, note_field, note, status}
use nervora.Common.Ids.{trace_id_of, gen_job_id, gen_approval_id}
use nervora.Servicebus.Local.{publish}
use nervora.Audit.Models.{denied, queued, executed}
use nervora.Audit.Repository.{
  record_event, record_tool_call, create_job, create_approval, get_approval, get_idempotency,
  reserve_idempotency,
}
use nervora.Audit.Session.{session_scope, integrity}
use nervora.ToolRegistry.Spec.{ok, raise, exception}
use nervora.ToolRegistry.Registry.{get_tool}
use nervora.Gateway.Outcome.{InvocationOutcome}
use nervora.Gateway.Request.{outcome_of, request_id}
use nervora.Gateway.Executor.{invoke, decide, route, finish}
use nervora.Gateway.Execution.{handle_sync, handle_dry_run, redact_output}
use nervora.Gateway.Queueing.{handle_async, enqueue, duplicate_of}
use nervora.Gateway.Destructive.{handle_destructive, token_refused, approval_for, execute_approved}
use nervora.Gateway.Gate.{handle_destructive-Executes_iff, Executes, NamesApproved, Runs}
use nervora.Gateway.Trail.{invoke-audited}
use nervora.Gateway.Effects.{decide-unauthorised}
use nervora.Gateway.Idempotency.{handle_async_twice, handle_async_lost}
use nervora.Gateway.Commits.{invoke_commits}
use nervora.Gateway.DryRun.{invoke-AddsPending, AddsPending}
use nervora.Gateway.Redaction.{invoke-ShowsMasked, ShowsMasked}
use nervora.Gateway.SingleUse.{approval_single_use}
use nervora.Gateway.Samples.{
  settings, lookup, report, update, executor, no_queue, ambient, db, world, named, update_call,
  lookup_call, prepare_call, report_call, stranger_call, answer,
}

not_listed : ¬ Member "hr_agent" lookup.required_roles
unfolding contains
not_listed h = cc (Member→contains "hr_agent" lookup.required_roles h)

not_raw : ¬ Member "admin_agent" lookup.raw_pii_roles
unfolding contains
not_raw h = cc (Member→contains "admin_agent" lookup.raw_pii_roles h)

handle_destructive-Executes_iff_example :
    Executes executor update_call ambient
      (handle_destructive executor update_call ambient update named db).0
    ↔ ((true ≡ true)
        × (update_call.approval_token ≡ some settings.admin_approval_token)
        × (settings.admin_approval_token ≢ "")
        × NamesApproved named db
        × Runs update executor.tool_ctx named)
handle_destructive-Executes_iff_example =
    handle_destructive-Executes_iff executor update_call ambient update named db

invoke-audited_example :
    ((invoke executor lookup_call ambient world).1.db.tool_calls
      ≡ record {
        trace_id = "t";
        request_id = "r";
        user_id = lookup_call.principal.subject;
        agent_id = lookup_call.principal.agent_id;
        role = lookup_call.principal.role;
        tool_name = "lookup";
        input_hash =
            executor.hash
              (dict (entry "tool" (str "lookup") (entry "args" (dict lookup_call.arguments) end)));
        redaction_status = (answer lookup_call).redaction_status;
        decision = executed;
        error_code = none;
        latency_ms = (answer lookup_call).latency_ms;
        created_at = 7;
      }
        ∷ [])
    × ((invoke executor lookup_call ambient world).1.db.events
        ≡ record {
          trace_id = "t";
          request_id = "r";
          event_type = "tool.executed";
          user_id = lookup_call.principal.subject;
          agent_id = lookup_call.principal.agent_id;
          role = lookup_call.principal.role;
          tool_name = "lookup";
          decision = executed;
          detail = entry "error_code" null (entry "message" null end);
          created_at = 7;
        }
          ∷ [])
    × ((answer lookup_call).request_id ≡ "r")
    × ((answer lookup_call).trace_id ≡ "t")
    × ((answer lookup_call).latency_ms ≡ ambient.elapsed)
unfolding invoke decide evaluate contains get_tool find route handle_sync redact_output redact walk
    finish session_scope integrity unique has record_event record_tool_call trace_id_of walk_text
    masks masked note_field note status
invoke-audited_example = invoke-audited executor lookup_call ambient world (answer lookup_call) refl

decide-unauthorised_example :
    ((decide executor stranger_call ambient world).0.decision ≡ denied)
    × ((decide executor stranger_call ambient world).1 ≡ world)
unfolding get_tool find
decide-unauthorised_example =
    decide-unauthorised executor stranger_call ambient world lookup refl (λ h. not_listed h.2)

handle_async_twice_example :
    (o' : InvocationOutcome) × ((handle_async executor stranger_call ambient report end
        (handle_async executor report_call ambient report named world).1).0
      ≡ ok o')
    × (o'.job_id ≡ some "job_j")
    × (o'.decision ≡ queued)
    × (o'.request_id ≡ request_id executor stranger_call ambient)
    × ((handle_async executor stranger_call ambient report end
          (handle_async executor report_call ambient report named world).1).1
        ≡ (handle_async executor report_call ambient report named world).1)
unfolding handle_async enqueue get_idempotency reserve_idempotency find create_job publish
    gen_job_id slice_to
handle_async_twice_example =
    handle_async_twice executor report_call stranger_call ambient ambient report report named end
      world
      (record (outcome_of executor report_call ambient "report" queued) {
        job_id = some "job_j";
        message = some "job queued for asynchronous execution";
      })
      refl refl

handle_async_lost_example :
    ((handle_async no_queue report_call ambient report named world).0 ≡ raise (exception "down"))
    × ((handle_async no_queue report_call ambient report named world).1.queue ≡ world.queue)
    × (handle_async no_queue stranger_call ambient report end
          (handle_async no_queue report_call ambient report named world).1
        ≡ (
          ok (duplicate_of no_queue stranger_call ambient "report" (some (gen_job_id ambient))),
          (handle_async no_queue report_call ambient report named world).1,
        ))
unfolding get_idempotency find
handle_async_lost_example =
    handle_async_lost no_queue report_call stranger_call ambient ambient report report named end
      world "down" refl refl refl

approval_single_use_example :
    ¬ Executes executor stranger_call ambient
      (handle_destructive executor stranger_call ambient update named
        (handle_destructive executor update_call ambient update named db).1).0
unfolding handle_destructive token_refused approval_for execute_approved get_approval find
    redact_output redact walk walk_text masks masked contains get
approval_single_use_example =
    approval_single_use executor update_call stranger_call ambient ambient update update named named
      db refl refl

invoke_commits_example :
    ((o : InvocationOutcome) × ((invoke executor report_call ambient world).0 ≡ some o))
    × (integrity (invoke executor report_call ambient world).1.db ≡ true)
unfolding integrity unique has gen_approval_id slice_to
invoke_commits_example =
    invoke_commits executor report_call ambient world refl
      (record { request = refl; job = refl; approval = refl })

invoke-AddsPending_example :
    AddsPending executor prepare_call ambient
      (answer prepare_call)
      world
      (invoke executor prepare_call ambient world).1
unfolding invoke decide evaluate contains get_tool find route handle_dry_run redact_output redact
    walk finish session_scope integrity unique has record_event record_tool_call trace_id_of
    walk_text masks masked note_field note status create_approval set get gen_approval_id slice_to
invoke-AddsPending_example =
    invoke-AddsPending executor prepare_call ambient world (answer prepare_call) refl refl

invoke-ShowsMasked_example :
    ShowsMasked executor lookup_call ambient lookup not_raw (answer lookup_call)
unfolding invoke decide evaluate contains get_tool find route handle_sync redact_output redact walk
    finish session_scope integrity unique has record_event record_tool_call trace_id_of walk_text
    masks masked note_field note status
invoke-ShowsMasked_example =
    invoke-ShowsMasked executor lookup_call ambient lookup not_raw world (answer lookup_call) refl
      refl refl
