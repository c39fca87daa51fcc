-- ===== src/Worker/Tests.antt =====
-- Concrete messages of the worker (apps/worker/worker.py).
mod Histories
use nervora.Base.{arith, Bool, String, List, [], ◌∷◌, ◌≡◌, refl, none, some}
use nervora.Base.Table.{find, update}
use nervora.Json.{str, Dict, end, entry, get}
use nervora.Common.Settings.{default_settings}
use nervora.Servicebus.Interface.{Message, job_id, idempotency_key, MessageQueue, raised, returning}
use nervora.Servicebus.Row.{available, locked, QueueMessage}
use nervora.Servicebus.Local.{
  LocalQueue, local_queue, publish, claim, eligible, lock, to_message, complete,
}
use nervora.Servicebus.Local.Delivery.{row_at}
use nervora.Audit.Models.{AsyncJob, JobStatus, IdempotencyKey, reserved}
use nervora.Audit.Repository.{
  get_job, get_idempotency, set_job_status, record_event, complete_idempotency, apply_update,
  complete_key,
}
use nervora.ToolRegistry.Spec.{
  ToolSpec, ToolContext, ToolResult, DatabricksConnector, raise, ok, exception, read, async,
  PiiClass,
}
use nervora.ToolRegistry.Registry.{get_tool}
use nervora.World.{World}
use nervora.Worker.{
  Worker, process, process_all, skip_duplicate, rounds, key_row, execute, start, settle,
  settle_success, complete_key_of,
}
use nervora.Worker.Once.{executed_once}
use nervora.Worker.Waiting.{DeadLettered}
use nervora.Worker.Retries.{rounds-DeadLettered}
use nervora.Worker.Fleet.{Held, System, Reach, here, more, publishes, receives, processes}
use nervora.Worker.Exclusive.{Reach-IsExclusive, IsExclusive}
use nervora.Servicebus.Local.Calls.{run, step, empty}
use nervora.Servicebus.Local.Calls as Calls
use nervora.Worker.Settling.{process-Settled, Settled}

abbrev connector : DatabricksConnector
connector = record {
  execute_sql = λ statement params. raise (exception "no warehouse");
  run_job = λ name params. raise (exception "no jobs");
}

abbrev done_result : ToolResult
done_result = record { output = entry "state" (str "done") end; metadata = end }

abbrev report : ToolSpec
report = record {
  name = "report";
  description = "";
  required_roles = "admin_agent" ∷ [];
  classification = read;
  execution_mode = async;
  pii_classification = PiiClass.low;
  dry_run_required = Bool.false;
  validate_args = ok;
  run = λ ctx args. ok done_result;
  sensitive_fields = [];
  raw_pii_roles = [];
  enabled = Bool.true;
  requires_approval_token = Bool.false;
}

-- A tool that always raises.
abbrev broken : ToolSpec
broken = record report { name = "broken"; run = λ ctx args. raise (exception "boom") }

abbrev tool_ctx : ToolContext
tool_ctx = record { settings = default_settings; databricks = connector }

abbrev pub reporter : Worker LocalQueue
reporter = record {
  registry = record { tools = report ∷ broken ∷ [] };
  queue = local_queue;
  tool_ctx = tool_ctx;
  max_delivery = 5;
}

abbrev pub body : String → Dict
body tool =
    entry "job_id" (str "job_1")
      (entry "idempotency_key" (str "k1") (entry "tool_name" (str tool) end))

abbrev pub message : String → Message
message tool = record { body = body tool; delivery_count = 1; handle = 0 }

abbrev job : AsyncJob
job = record {
  job_id = "job_1";
  trace_id = "t";
  request_id = "r";
  tool_name = "report";
  idempotency_key = "k1";
  user_id = "ana";
  agent_id = "agent-1";
  role = "admin_agent";
  payload = end;
  status = JobStatus.queued;
  attempts = 0;
  result = none;
  error_code = none;
  error_detail = none;
}

abbrev key : IdempotencyKey
key = record {
  idempotency_key = "k1";
  tool_name = "report";
  job_id = some "job_1";
  input_hash = "";
  status = reserved;
  result = none;
}

abbrev row : String → QueueMessage
row tool = record {
  id = 0;
  queue_name = "q";
  body = body tool;
  status = locked;
  delivery_count = 1;
  visible_at = 30;
  dead_letter_reason = none;
}

abbrev pub world : String → World LocalQueue
world tool = record {
  db = record {
    events = [];
    tool_calls = [];
    policies = [];
    jobs = job ∷ [];
    approvals = [];
    keys = key ∷ [];
    now = 7;
  };
  queue = record { queue = "q"; max_delivery = 5; rows = row tool ∷ []; next_id = 1; now = 0 };
}

-- The row before it was received.
abbrev waiting : World LocalQueue
waiting = record (world "report") {
  queue = record (world "report").queue {
    rows = record (row "report") { status = available; delivery_count = 0; visible_at = 0 } ∷ [];
  };
}

-- The state after the first message and one more of the key.
abbrev run_before : World LocalQueue
run_before =
    process_all reporter (message "broken" ∷ [])
      (process reporter (message "report") (world "report"))

abbrev job_done : AsyncJob
job_done = record job {
  status = JobStatus.succeeded;
  attempts = 1;
  result = some done_result.output;
}

executed_once_example :
    ((process reporter (message "broken") run_before).queue
      ≡ complete (message "broken") run_before.queue)
    × (get_job "job_1" (process reporter (message "broken") run_before).db
        ≡ some (record job_done { status = JobStatus.succeeded; result = some done_result.output }))
    × ((process reporter (message "broken") run_before).db.keys ≡ run_before.db.keys)
unfolding idempotency_key get get_idempotency find get_tool job_id get_job process process_all
    skip_duplicate execute start settle settle_success set_job_status record_event key_row
    complete_key_of complete_idempotency complete_key update apply_update
executed_once_example =
    executed_once reporter reporter "k1" refl (message "report") (message "broken") report
      done_result key (message "broken" ∷ []) (world "report") "job_1" job_done refl refl refl refl
      refl refl refl refl

process-Settled_example : Settled 0 "job_1" (process reporter (message "broken") (world "broken"))
unfolding job_id get get_job find row_at
process-Settled_example =
    process-Settled (record { tools = report ∷ broken ∷ [] }) tool_ctx 5 (message "broken") "job_1"
      refl (world "broken") (row "broken") job refl refl refl refl

-- The job of the broken tool, before its first delivery.
abbrev fresh : World LocalQueue
fresh = record (world "broken") {
  queue = record (world "broken").queue {
    rows = record (row "broken") { status = available; delivery_count = 0; visible_at = 0 } ∷ [];
  };
}

rounds-DeadLettered_example :
    DeadLettered "q" (body "broken") 0 1 0 5 "job_1" (rounds reporter 5 fresh)
unfolding get_tool find job_id get get_job key_row idempotency_key get_idempotency
rounds-DeadLettered_example =
    rounds-DeadLettered reporter.registry tool_ctx "q" (body "broken") 0 1 0 5 "job_1" broken
      (exception "boom") refl refl refl 4 0 fresh refl
      (record {
        visible_at = 0;
        reason = none;
        due = omega arith;
        waiting = refl;
        job = job;
        job_found = refl;
        unfinished = refl;
      })

-- A local queue on which no message can be completed.
abbrev refusing : MessageQueue LocalQueue
refusing = record (returning local_queue) { complete = λ m q. (raised "closed", q) }
