-- ===== src/Worker/Retries.antt =====
-- A job whose tool keeps failing (apps/worker/worker.py on packages/servicebus/local.py): it is
-- delivered again at every poll until its deliveries are used up, and then dead-lettered.
use nervora.Base.{
  ℕ, zero, suc, ◌+◌, ◌<◌, String, List, ◌≡◌, refl, arith, Option, none, some, ◌∙◌, subst, sym, ap,
}
use nervora.Json.{Dict}
use nervora.Servicebus.Interface.{Message, job_id, idempotency_key}
use nervora.Servicebus.Row.{locked}
use nervora.Servicebus.Local.{LocalQueue, local_queue, receive}
use nervora.Audit.Models.{Db, AsyncJob}
use nervora.Audit.Repository.{get_job, record_event, apply_update}
use nervora.ToolRegistry.Spec.{Exn, ToolSpec, raise, ToolContext}
use nervora.ToolRegistry.Registry.{ToolRegistry, get_tool}
use nervora.World.{World}
use nervora.Worker.Settling.{get_job-set_job_status}
use nervora.Worker.{
  Worker, tool_name, arguments, key_row, finished, handle_failure, execute, start, settle, process,
  process_all, poll_once, rounds,
}
use nervora.Worker.Waiting.{
  row, holding, delivery, receive-holding, abandon-holding, keys-set_job_status, key_row-keys,
  Retrying, Failed, DeadLettered,
}

module _ (registry : ToolRegistry) (tool_ctx : ToolContext) (name : String) (body : Dict)
    (id next_id now max : ℕ) (j : String) (spec : ToolSpec) (e : Exn)
    (found : get_tool registry (tool_name (delivery name body id next_id now max 0)) ≡ some spec)
    (fails : spec.run tool_ctx (arguments (delivery name body id next_id now max 0)) ≡ raise e)
    (named : job_id (delivery name body id next_id now max 0) ≡ some j) where
  abbrev message : ℕ → Message
  message = delivery name body id next_id now max

  abbrev worker : Worker LocalQueue
  worker = record {
    registry = registry;
    queue = local_queue;
    tool_ctx = tool_ctx;
    max_delivery = max;
  }

  abbrev Waits : ℕ → World LocalQueue → Type 0
  Waits = Retrying name body id next_id now max j

  abbrev Fails : ℕ → World LocalQueue → Type 0
  Fails = Failed name body id next_id now max j

  abbrev Dies : World LocalQueue → Type 0
  Dies = DeadLettered name body id next_id now max j

  process_fails :
      (count : ℕ) (w : World LocalQueue)
      → finished (key_row (idempotency_key (message 0)) w.db) ≡ none
      → process worker (message count) w
        ≡ handle_failure worker (message count) e (start worker (message count) w)
  unfolding process execute settle idempotency_key
  process_fails count w h = ground arith

  poll_fails :
      (count : ℕ) (w : World LocalQueue) (r : Waits count w)
      → (poll_once worker 10 30 w).1
        ≡ handle_failure worker (message (count + 1)) e (
            start worker (message (count + 1)) (record w {
              queue =
                  holding name body id next_id now max
                    (row name body id next_id now max (count + 1) locked (now + 30) r.reason);
            }))
  unfolding poll_once process_all
  poll_fails count w r =
      ap (λ (m : List Message × LocalQueue). process_all worker m.0 (record w { queue = m.1 }))
        (ap (receive 10 30) r.waiting
          ∙ receive-holding name body id next_id now max count r.visible_at 30 r.reason r.due)
      ∙ process_fails (count + 1)
          (record w {
            queue =
                holding name body id next_id now max
                  (row name body id next_id now max (count + 1) locked (now + 30) r.reason);
          })
          r.unfinished

  handle_failure-Failed :
      (count : ℕ) (db : Db) (reason : Option String) (job : AsyncJob)
      → get_job j db ≡ some job
      → finished (key_row (idempotency_key (message 0)) db) ≡ none
      → Fails count (
          handle_failure worker (message count) e (
            start worker (message count) (record {
              db = db;
              queue =
                  holding name body id next_id now max
                    (row name body id next_id now max count locked (now + 30) reason);
            })))
  unfolding handle_failure start job_id record_event get_job apply_update idempotency_key
  handle_failure-Failed count db reason job f u = record {
    visible_at = now;
    reason = reason;
    due = omega arith;
    waiting = abandon-holding name body id next_id now max count (now + 30) reason;
    job = _;
    job_found =
        get_job-set_job_status j (job_id (message count)) _ _ _ named
          (get_job-set_job_status j (job_id (message count)) _ db job named f);
    job_status = refl;
    attempts = refl;
    unfinished =
        ap finished (
          key_row-keys (idempotency_key (message 0)) _ db (
            keys-set_job_status (job_id (message count)) _ _
            ∙ keys-set_job_status (job_id (message count)) _ db))
        ∙ u;
  }

  poll-Failed :
      (count : ℕ) (w : World LocalQueue)
      → Waits count w
      → Fails (count + 1) (poll_once worker 10 30 w).1
  poll-Failed count w r =
      subst (Fails (count + 1)) (sym (poll_fails count w r))
        (handle_failure-Failed (count + 1) w.db r.reason r.job r.job_found r.unfinished)

  Failed-last : (w : World LocalQueue) → Fails max w → Dies w
  Failed-last w f = record {
    visible_at = now + 30;
    dead = f.waiting ∙ ground arith;
    job = f.job;
    job_found = f.job_found;
    job_dead = f.job_status ∙ ground arith;
    attempts = f.attempts;
  }

  Failed-retry : (count : ℕ) (w : World LocalQueue) → count < max → Fails count w → Waits count w
  Failed-retry count w lt f = record {
    visible_at = f.visible_at;
    reason = f.reason;
    due = f.due;
    waiting = f.waiting ∙ ground arith;
    job = f.job;
    job_found = f.job_found;
    unfinished = f.unfinished;
  }

  -- A message that waits alone in the local queue and is due, whose job is there and has not
  -- completed its key, and whose tool raises, is dead-lettered, and its job with it, after as
  -- many rounds of the worker as it has deliveries left, each of which has counted as an attempt.
  -- The clock rests meanwhile: a failed delivery is due again at once.
  pub rounds-DeadLettered :
      (left count : ℕ) (w : World LocalQueue)
      → count + suc left ≡ max
      → Waits count w
      → Dies (rounds worker (suc left) w)
  unfolding rounds
  rounds-DeadLettered zero count w h r =
      Failed-last _
        (subst (λ c. Fails c (poll_once worker 10 30 w).1) (omega arith) (poll-Failed count w r))
  rounds-DeadLettered (suc left) count w h r =
      rounds-DeadLettered left (count + 1) _ (omega arith)
        (Failed-retry (count + 1) _ (omega arith) (poll-Failed count w r))
