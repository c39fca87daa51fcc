-- ===== src/Gateway/Queueing.antt =====
-- apps/mcp-gateway/app/executor.py: `_handle_async`. The pending rows of the session and the queue,
-- whose publications are transactions of their own, are the state that it passes on.
use nervora.Base.{String, Option, none, some, or_else}
use nervora.Json.{str, dict, Dict, end, entry}
use nervora.Common.Ids.{Ambient, gen_idempotency_key, gen_job_id}
use nervora.Servicebus.Interface.{done, raised}
use nervora.Audit.Models.{queued, AsyncJob, JobStatus, reserved, IdempotencyKey}
use nervora.Audit.Repository.{
  create_job, get_idempotency, reserve_idempotency, reserved_row, conflict,
}
use nervora.ToolRegistry.Spec.{exception, Result, ok, raise, ToolSpec}
use nervora.Gateway.Outcome.{InvocationOutcome}
use nervora.World.{World}
use nervora.Gateway.Request.{Executor, Request, request_id, trace_id, input_hash, outcome_of}

module _ {Q : Type 0} (x : Executor Q) (r : Request) (a : Ambient) where
  abbrev pub duplicate_of : String → Option String → InvocationOutcome
  duplicate_of tool job_id = record (outcome_of x r a tool queued) {
    job_id = job_id;
    message = some "duplicate idempotency key — returning existing job";
  }

  -- The body that is published for a job.
  abbrev pub job_message : ToolSpec → String → String → Dict → Dict
  job_message spec job_id key args = entry "job_id" (str job_id) (
      entry "idempotency_key" (str key) (
        entry "tool_name" (str spec.name)
          (entry "trace_id" (str (trace_id x r a)) (entry "arguments" (dict args) end))))

  abbrev pub new_job : ToolSpec → String → String → Dict → AsyncJob
  new_job spec job_id key args = record {
    job_id = job_id;
    trace_id = trace_id x r a;
    request_id = request_id x r a;
    tool_name = spec.name;
    idempotency_key = key;
    user_id = r.principal.subject;
    agent_id = r.principal.agent_id;
    role = r.principal.role;
    payload = entry "arguments" (dict args) end;
    status = JobStatus.queued;
    attempts = 0;
    result = none;
    error_code = none;
    error_detail = none;
  }

  abbrev pub new_key : ToolSpec → String → IdempotencyKey
  new_key spec key = record {
    idempotency_key = key;
    tool_name = spec.name;
    job_id = some (gen_job_id a);
    input_hash = input_hash x r a;
    status = reserved;
    result = none;
  }

  -- The part of `_handle_async` behind the reservation: the job row, then the publication. The
  -- rows that are pending stay pending if the publication raises.
  unfoldable pub enqueue : ToolSpec → Dict → String → World Q → Result InvocationOutcome × World Q
  unfolding create_job
  enqueue spec args key w =
      let job_id = gen_job_id a in
      let db = create_job (new_job spec job_id key args) w.db in
      elim (x.queue.publish (job_message spec job_id key args) w.queue) [
        | raised text ↦ (raise (exception text), record w { db = db })
        | done queue ↦ (
          ok (record (outcome_of x r a spec.name queued) {
            job_id = some job_id;
            message = some "job queued for asynchronous execution";
          }),
          record { db = db; queue = queue },
        )
      ]

  -- `_handle_async`
  unfoldable pub handle_async : ToolSpec → Dict → World Q → Result InvocationOutcome × World Q
  unfolding enqueue get_idempotency reserve_idempotency
  handle_async spec args w =
      let key = or_else r.idempotency_key (gen_idempotency_key a) in
      elim (get_idempotency key w.db) [
        | some existing ↦ (ok (duplicate_of spec.name existing.job_id), w)
        | none ↦
            let (reservation, db) = reserve_idempotency (new_key spec key) w.db in
            elim reservation [
              | conflict _ ↦ (
                ok (
                    duplicate_of spec.name
                      (elim (get_idempotency key db) [ none ↦ none | some row ↦ row.job_id ])),
                record w { db = db },
              )
              | reserved_row _ ↦ enqueue spec args key (record w { db = db })
            ]
      ]
