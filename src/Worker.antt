-- ===== src/Worker.antt =====
-- apps/worker/worker.py: `Worker`. Each `with session_scope` block is a transaction, and each call of
-- the queue another; the blocks insert no row under a unique key, so their commits do not fail.
pub mod Keys
pub mod Once
pub mod Waiting
pub mod Trail
pub mod Settling
pub mod Retries
pub mod Fleet
pub mod Holding
pub mod Exclusive
pub mod Final
pub mod Startup
pub mod Main
pub mod Started
pub mod Lifecycle
pub mod Draining
pub mod Loop
pub mod Raising
pub mod Returning
pub mod Verdicts
mod Tests
use nervora.Base.{
  ℕ, zero, suc, ◌+◌, String, Bool, true, false, List, [], ◌∷◌, Option, none, some, leb,
  if◌then◌else◌, fstring, truthy, length,
}
use nervora.Json.{
  Json, null, int, pos, str, dict, Dict, end, entry, get, as_text, optional, dict_or_empty,
  text_or_empty,
}
use nervora.Servicebus.Interface.{Message, ReturningQueue, job_id, idempotency_key}
use nervora.Audit.Models.{
  CallDecision, executed, failed, AuditEvent, JobStatus, queued, running, succeeded, dead_letter,
  KeyStatus, reserved, completed, IdempotencyKey, Db,
}
use nervora.Audit.Repository.{
  record_event, JobUpdate, set_job_status, get_idempotency, complete_idempotency, or_empty,
}
use nervora.ToolRegistry.Spec.{
  Exn, tool_error, exception, Result, ok, raise, ToolContext, ToolResult, ToolSpec,
}
use nervora.ToolRegistry.Registry.{ToolRegistry, get_tool}
use nervora.World.{World}

pub record Worker (Q : Type 0) : Type 0 where
  pub registry : ToolRegistry
  pub queue : ReturningQueue Q
  pub tool_ctx : ToolContext
  pub max_delivery : ℕ

-- `body.get("tool_name", "")`, `body.get("trace_id", "")` and `body.get("arguments", {})`
abbrev pub tool_name : Message → String
tool_name m = text_or_empty (as_text (get m.body "tool_name"))

abbrev pub trace_id : Message → String
trace_id m = text_or_empty (as_text (get m.body "trace_id"))

abbrev pub arguments : Message → Dict
arguments m = dict_or_empty (get m.body "arguments")

-- The events of the worker leave the user, the agent and the role empty.
abbrev pub job_event : Message → String → CallDecision → Dict → AuditEvent
job_event m event_type decision detail = record {
  trace_id = trace_id m;
  request_id = text_or_empty (job_id m);
  event_type = event_type;
  user_id = "";
  agent_id = "";
  role = "";
  tool_name = tool_name m;
  decision = decision;
  detail = detail;
  created_at = 0;
}

abbrev pub status_only : JobStatus → JobUpdate
status_only status = record {
  status = status;
  result = none;
  error_code = none;
  error_detail = none;
  attempts = none;
}

-- `repo.get_idempotency(idk) if idk else None`
unfoldable pub key_row : Option String → Db → Option IdempotencyKey
key_row none db = none
key_row (some key) db = if truthy key then get_idempotency key db else none

abbrev pub is_completed : KeyStatus → Bool
is_completed completed = true
is_completed _ = false

-- The result that is stored under a key whose job has run.
abbrev pub finished : Option IdempotencyKey → Option Dict
finished none = none
finished (some row) = if is_completed row.status then some (or_empty row.result) else none

-- `getattr(exc, "code", "EXECUTION_ERROR")` and `str(exc)`
abbrev pub code_of : Exn → String
code_of (tool_error message code) = code
code_of (exception message) = "EXECUTION_ERROR"

abbrev pub text_of : Exn → String
text_of (tool_error message code) = message
text_of (exception message) = message

-- `if idk: repo.complete_idempotency(idk, result.output)`
unfoldable pub complete_key_of : Option String → Dict → Db → Db
unfolding complete_idempotency
complete_key_of none output db = db
complete_key_of (some key) output db = if truthy key then complete_idempotency key output db else db

module _ {Q : Type 0} (x : Worker Q) (m : Message) where
  -- The job has run before: settle the message and do not run the tool.
  unfoldable pub skip_duplicate : Dict → World Q → World Q
  unfolding set_job_status record_event
  skip_duplicate result w = record {
    db =
        record_event
          (job_event m "job.duplicate_skipped" executed
            (entry "idempotency_key" (optional (idempotency_key m)) end))
          (set_job_status (job_id m) (record (status_only succeeded) { result = some result })
            w.db);
    queue = x.queue.complete m w.queue;
  }

  -- The tool is not registered: the message is dead-lettered.
  unfoldable pub reject_unknown : World Q → World Q
  unfolding set_job_status record_event
  reject_unknown w = record {
    db =
        record_event
          (job_event m "job.dead_letter" failed (entry "reason" (str "unknown_tool") end))
          (set_job_status (job_id m)
            (record (status_only dead_letter) {
              error_code = some "UNKNOWN_TOOL";
              error_detail = some (fstring ("tool " ∷ tool_name m ∷ " not registered" ∷ []));
            })
            w.db);
    queue = x.queue.dead_letter m "unknown tool" w.queue;
  }

  abbrev pub will_dead_letter : Bool
  will_dead_letter = leb x.max_delivery m.delivery_count

  -- `_handle_failure`
  unfoldable pub handle_failure : Exn → World Q → World Q
  unfolding set_job_status record_event
  handle_failure e w = record {
    db =
        record_event
          (job_event m (if will_dead_letter then "job.dead_letter" else "job.retry") failed (
            entry "error_code" (str (code_of e)) (
              entry "attempt" (int (pos m.delivery_count))
                (entry "max_delivery" (int (pos x.max_delivery)) end))))
          (set_job_status (job_id m)
            (record {
              status = if will_dead_letter then dead_letter else JobStatus.failed;
              result = none;
              error_code = some (code_of e);
              error_detail = some (text_of e);
              attempts = some m.delivery_count;
            })
            w.db);
    queue = x.queue.abandon m w.queue;
  }

  unfoldable pub settle_success : Dict → World Q → World Q
  unfolding set_job_status record_event complete_key_of
  settle_success output w = record {
    db =
        record_event
          (job_event m "job.succeeded" executed (entry "job_id" (optional (job_id m)) end))
          (complete_key_of (idempotency_key m) output (
            set_job_status (job_id m)
              (record (status_only succeeded) {
                result = some output;
                attempts = some m.delivery_count;
              })
              w.db));
    queue = x.queue.complete m w.queue;
  }

  -- Step 2 of `_process`: the job is marked as running before the tool runs.
  unfoldable pub start : World Q → World Q
  unfolding set_job_status
  start w = record w {
    db =
        set_job_status (job_id m)
          (record (status_only running) { attempts = some m.delivery_count }) w.db;
  }

  -- Step 3 of `_process`, or its `except` branch.
  unfoldable pub settle : Result ToolResult → World Q → World Q
  unfolding handle_failure settle_success
  settle (raise e) w = handle_failure e w
  settle (ok result) w = settle_success result.output w

  unfoldable pub execute : ToolSpec → World Q → World Q
  unfolding start settle
  execute spec w = settle (spec.run x.tool_ctx (arguments m)) (start w)

  -- `_process`
  unfoldable pub process : World Q → World Q
  unfolding key_row skip_duplicate reject_unknown
  process w = elim (finished (key_row (idempotency_key m) w.db)) [
    | some result ↦ skip_duplicate result w
    | none ↦ elim (get_tool x.registry (tool_name m)) [
      | none ↦ reject_unknown w
      | some spec ↦ execute spec w
    ]
  ]

module _ {Q : Type 0} (x : Worker Q) where
  unfoldable pub process_all : List Message → World Q → World Q
  process_all [] w = w
  process_all (m ∷ ms) w = process_all ms (process x m w)

  -- `poll_once`
  unfoldable pub poll_once : ℕ → ℕ → World Q → ℕ × World Q
  unfolding process_all
  poll_once max_messages visibility_timeout w =
      let (messages, queue) = x.queue.receive max_messages visibility_timeout w.queue in
      (length messages, process_all messages (record w { queue = queue }))

  -- Rounds of the loop of `run_forever`, which polls with the defaults of `poll_once`.
  unfoldable pub rounds : ℕ → World Q → World Q
  unfolding poll_once
  rounds zero w = w
  rounds (suc n) w = rounds n (poll_once 10 30 w).1
