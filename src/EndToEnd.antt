-- ===== src/EndToEnd.antt =====
-- The gateway, the local queue and the worker together (apps/mcp-gateway/app/executor.py,
-- packages/servicebus/local.py, apps/worker/worker.py): the way of an asynchronous call.
mod Tests
use nervora.Base.{
  ℕ, suc, ◌+◌, String, Bool, true, List, [], ◌∷◌, ◌++◌, ◌≡◌, refl, sym, arith, Option, none, some,
  ◌∙◌, eq_refl, truthy, ap, subst,
}
use nervora.Base.Table.{find}
use nervora.Json.{Dict, get}
use nervora.Common.Ids.{Ambient, gen_job_id}
use nervora.Servicebus.Interface.{Message, ReturningQueue, job_id, idempotency_key, Attempt, done}
use nervora.Servicebus.Row.{available, locked, QueueMessage}
use nervora.Servicebus.Local.{
  LocalQueue, local_queue, publish, receive, claim, eligible, lock, to_message,
}
use nervora.Audit.Models.{Db, AsyncJob, JobStatus, running, succeeded, IdempotencyKey}
use nervora.Audit.Repository.{
  get_job, set_job_status, JobUpdate, get_idempotency, record_event, apply_update, create_job,
  reserve_idempotency,
}
use nervora.ToolRegistry.Spec.{ToolSpec, ToolResult, Result, ok, raise}
use nervora.ToolRegistry.Registry.{get_tool}
use nervora.World.{World}
use nervora.Gateway.Request.{Executor, Request}
use nervora.Gateway.Queueing.{handle_async, enqueue, job_message, new_job, new_key}
use nervora.Gateway.Idempotency.{key_of, handle_async-new}
use nervora.Worker.{
  Worker, status_only, tool_name, arguments, start, settle_success, process, process_all, poll_once,
  complete_key_of,
}
use nervora.Worker.Once.{HasRun, process_first, settle_success-HasRun}
use nervora.Worker.Keys.{get_idempotency-start}
use nervora.Worker.Settling.{get_job-set_job_status, get_job-complete_key_of}

module _ (x : Executor LocalQueue) (r : Request) (a : Ambient) (spec : ToolSpec) (args : Dict)
    (local : x.queue ≡ local_queue) where
  abbrev body : Dict
  body = job_message x r a spec (gen_job_id a) (key_of r a) args

  -- The worker with the gateway's registry.
  abbrev pub worker : ℕ → Worker LocalQueue
  worker max = record {
    registry = x.registry;
    queue = local_queue;
    tool_ctx = x.tool_ctx;
    max_delivery = max;
  }

  abbrev published : LocalQueue → LocalQueue
  published q = record q {
    rows =
        record {
          id = q.next_id;
          queue_name = q.queue;
          body = body;
          status = available;
          delivery_count = 0;
          visible_at = q.now;
          dead_letter_reason = none;
        }
        ∷ [];
    next_id = suc q.next_id;
  }

  publish-published : (q : LocalQueue) → q.rows ≡ [] → publish body q ≡ done (published q)
  unfolding publish
  publish-published q e =
      ap
        (λ (rows : List QueueMessage). done (record q {
          rows =
              rows
              ++ record {
                id = q.next_id;
                queue_name = q.queue;
                body = body;
                status = available;
                delivery_count = 0;
                visible_at = q.now;
                dead_letter_reason = none;
              }
                ∷ [];
          next_id = suc q.next_id;
        }))
        e

  queue-handle_async :
      (w : World LocalQueue)
      → w.queue.rows ≡ []
      → get_idempotency (key_of r a) w.db ≡ none
      → (handle_async x r a spec args w).1.queue ≡ published w.queue
  unfolding handle_async
  queue-handle_async w e f =
      let sent =
        ap (λ (m : ReturningQueue LocalQueue). m.publish body w.queue) local
        ∙ publish-published w.queue e in
      ground arith

  job-handle_async :
      (w : World LocalQueue)
      → get_idempotency (key_of r a) w.db ≡ none
      → get_job (gen_job_id a) (handle_async x r a spec args w).1.db
        ≡ some (new_job x r a spec (gen_job_id a) (key_of r a) args)
  unfolding handle_async get_job find
  job-handle_async w f = ground (arith, eq_refl (gen_job_id a))

  abbrev message : LocalQueue → Message
  message q = record { body = body; delivery_count = 1; handle = q.next_id }

  receive-published : (q : LocalQueue) → (receive 10 30 (published q)).0 ≡ message q ∷ []
  unfolding receive claim eligible lock to_message
  receive-published q = ground (arith, eq_refl q.queue)

  -- What the worker leaves of a job that it was handed.
  pub record Ran (output : Dict) (db : Db) : Type 0 where
    pub job : AsyncJob
    pub job_found : get_job (gen_job_id a) db ≡ some job
    pub is_done : job.status ≡ succeeded
    pub stored : job.result ≡ some output
    pub key_done : HasRun (key_of r a) output db

  abbrev running_once : JobUpdate
  running_once = record (status_only running) { attempts = some 1 }

  abbrev succeeded_as : Dict → JobUpdate
  succeeded_as output = record (status_only succeeded) { result = some output; attempts = some 1 }

  settle_success-Ran :
      (max : ℕ) (q : LocalQueue) (w : World LocalQueue) (output : Dict) (job : AsyncJob)
      (row : IdempotencyKey)
      → truthy (key_of r a) ≡ true
      → get_job (gen_job_id a) w.db ≡ some job
      → get_idempotency (key_of r a) w.db ≡ some row
      → Ran output
          (settle_success (worker max) (message q) output (start (worker max) (message q) w)).db
  unfolding settle_success start record_event get_job job_id get apply_update
  settle_success-Ran max q w output job row t f g = record {
    job = apply_update (succeeded_as output) (apply_update running_once job);
    job_found =
        get_job-complete_key_of (gen_job_id a) (idempotency_key (message q)) output (
          set_job_status (job_id (message q)) (succeeded_as output)
            (set_job_status (job_id (message q)) running_once w.db))
        ∙ get_job-set_job_status (gen_job_id a) (job_id (message q)) (succeeded_as output)
            (set_job_status (job_id (message q)) running_once w.db) (apply_update running_once job)
            refl
            (get_job-set_job_status (gen_job_id a) (job_id (message q)) running_once w.db job refl
              f);
    is_done = refl;
    stored = refl;
    key_done =
        settle_success-HasRun (worker max) (key_of r a) output t (message q)
          (start (worker max) (message q) w) row (unfold idempotency_key get in refl)
          (get_idempotency-start (worker max) (key_of r a) (message q) w ∙ g);
  }

  -- An asynchronous call under a new key that is not empty, on an empty local queue, is carried out by
  -- the next poll of a worker with the gateway's registry, if the tool is registered and returns: its
  -- job has then succeeded with the tool's output, and the key has run.
  pub handle_async-Ran :
      (max : ℕ) (w : World LocalQueue) (result : ToolResult)
      → w.queue.rows ≡ []
      → get_idempotency (key_of r a) w.db ≡ none
      → truthy (key_of r a) ≡ true
      → get_tool x.registry spec.name ≡ some spec
      → spec.run x.tool_ctx args ≡ ok result
      → Ran result.output (poll_once (worker max) 10 30 (handle_async x r a spec args w).1).1.db
  unfolding poll_once process_all get idempotency_key
  handle_async-Ran max w result e f t g h =
      let submitted : World LocalQueue = (handle_async x r a spec args w).1 in
      let row = new_key x r a spec (key_of r a) in
      let known = handle_async-new x r a spec args w f in
      let locked_ : World LocalQueue = record submitted {
        queue = (receive 10 30 submitted.queue).1;
      } in
      let got =
        ap (λ (q : LocalQueue). (receive 10 30 q).0) (queue-handle_async w e f)
        ∙ receive-published w.queue in
      let ran =
        settle_success-Ran max w.queue locked_ result.output _ row t (job-handle_async w f) known in
      let first =
        process_first (worker max) (worker max) (key_of r a) t (message w.queue) spec result row
          locked_ refl known refl g h in
      subst (λ (ms : List Message). Ran result.output (process_all (worker max) ms locked_).db)
        (sym got) (subst (λ (v : World LocalQueue). Ran result.output v.db) (sym first) ran)
