-- ===== src/Worker/Settling.antt =====
-- How apps/worker/worker.py settles a message of the local queue, and what it makes of its job.
use nervora.Base.{ℕ, String, Bool, true, false, ◌≡◌, refl, arith, Option, none, some, ◌∙◌, eq_iff}
use nervora.Base.Table.{find-update}
use nervora.Json.{Dict}
use nervora.Servicebus.Interface.{Message, job_id, idempotency_key}
use nervora.Servicebus.Row.{Status, available, QueueMessage}
use nervora.Servicebus.Local
use nervora.Servicebus.Local.{LocalQueue, local_queue, complete, abandon, abandon_row, dead_letter}
use nervora.Servicebus.Local.Invariant.{id-abandon_row}
use nervora.Servicebus.Local.Delivery.{row_at}
use nervora.Servicebus.Local.Locks.{row_at-settled}
use nervora.Audit.Models.{Db, AsyncJob, JobStatus, succeeded, failed}
use nervora.Audit.Repository.{
  get_job, set_job_status, record_event, JobUpdate, apply_update, complete_idempotency,
}
use nervora.ToolRegistry.Spec.{Exn, ToolSpec, ToolResult, Result, ok, raise, ToolContext}
use nervora.ToolRegistry.Registry.{ToolRegistry}
use nervora.World.{World}
use nervora.Worker.{
  Worker, arguments, skip_duplicate, reject_unknown, complete_key_of, status_only, settle_success,
  handle_failure, execute, start, settle, process,
}

-- The status of a settled job beside that of its queue row.
abbrev pub agrees : JobStatus → Status → Bool
agrees succeeded Status.completed = true
agrees failed available = true
agrees JobStatus.dead_letter Status.dead_letter = true
agrees _ _ = false

pub get_job-set_job_status :
    (j : String) (id : Option String) (u : JobUpdate) (db : Db) (job : AsyncJob)
    → id ≡ some j
    → get_job j db ≡ some job
    → get_job j (set_job_status id u db) ≡ some (apply_update u job)
unfolding set_job_status get_job
get_job-set_job_status j none u db job e f = ground arith
get_job-set_job_status j (some i) u db job e f = ground (
  arith,
  find-update (λ (r : AsyncJob). r.job_id) (apply_update u) (λ r. unfold apply_update in refl) j i
      db.jobs,
  eq_iff i j,
)

pub get_job-complete_key_of :
    (j : String) (o : Option String) (output : Dict) (db : Db)
    → get_job j (complete_key_of o output db) ≡ get_job j db
unfolding complete_key_of complete_idempotency get_job
get_job-complete_key_of j none output db = refl
get_job-complete_key_of j (some key) output db = ground arith

-- The row under `handle` and the job `j`, which has been settled as the row has.
pub record Settled (handle : ℕ) (j : String) (w : World LocalQueue) : Type 0 where
  pub row : QueueMessage
  pub job : AsyncJob
  pub row_found : row_at handle w.queue.rows ≡ some row
  pub job_found : get_job j w.db ≡ some job
  pub alike : agrees job.status row.status ≡ true

module _ (registry : ToolRegistry) (tool_ctx : ToolContext) (max_delivery : ℕ) (m : Message)
    (j : String) (named : job_id m ≡ some j) where
  abbrev pub worker : Worker LocalQueue
  worker = record {
    registry = registry;
    queue = local_queue;
    tool_ctx = tool_ctx;
    max_delivery = max_delivery;
  }

  module _ (w : World LocalQueue) (row : QueueMessage) (job : AsyncJob)
      (row_found : row_at m.handle w.queue.rows ≡ some row)
      (job_found : get_job j w.db ≡ some job) where
    -- One update of the job and one of the row.
    settled :
        (f : QueueMessage → QueueMessage) (u : JobUpdate) (w' : World LocalQueue)
        → ((r : QueueMessage) → (f r).id ≡ r.id)
        → w'.queue.rows ≡ Local.settle m.handle f w.queue.rows
        → get_job j w'.db ≡ get_job j (set_job_status (job_id m) u w.db)
        → agrees u.status (f row).status ≡ true
        → Settled m.handle j w'
    settled f u w' keeps rows jobs alike = record {
      row = f row;
      job = apply_update u job;
      row_found = rw rows (row_at-settled m.handle w.queue.rows row f keeps row_found);
      job_found = jobs ∙ get_job-set_job_status j (job_id m) u w.db job named job_found;
      alike = unfold apply_update in alike;
    }

    skip_duplicate-Settled : (d : Dict) → Settled m.handle j (skip_duplicate worker m d w)
    unfolding skip_duplicate complete record_event get_job
    skip_duplicate-Settled d =
        settled _ (record (status_only succeeded) { result = some d }) _ (λ r. refl) refl refl refl

    reject_unknown-Settled : Settled m.handle j (reject_unknown worker m w)
    unfolding reject_unknown dead_letter record_event get_job
    reject_unknown-Settled = settled _ _ _ (λ r. refl) refl refl refl

    settle_success-Settled : (d : Dict) → Settled m.handle j (settle_success worker m d w)
    unfolding settle_success complete record_event get_job
    settle_success-Settled d =
        settled _
          (record (status_only succeeded) { result = some d; attempts = some m.delivery_count }) _
          (λ r. refl) refl (get_job-complete_key_of j (idempotency_key m) d _) refl

    module _ (same_count : row.delivery_count ≡ m.delivery_count)
        (same_max : w.queue.max_delivery ≡ max_delivery) where
      handle_failure-Settled : (e : Exn) → Settled m.handle j (handle_failure worker m e w)
      unfolding handle_failure abandon record_event get_job abandon_row
      handle_failure-Settled e =
          settled _ _ _ (id-abandon_row w.queue.max_delivery w.queue.now) refl refl (ground arith)

      settle-Settled : (r : Result ToolResult) → Settled m.handle j (settle worker m r w)
      unfolding settle
      settle-Settled (raise e) = handle_failure-Settled e
      settle-Settled (ok result) = settle_success-Settled result.output

  module _ (w : World LocalQueue) (row : QueueMessage) (job : AsyncJob)
      (row_found : row_at m.handle w.queue.rows ≡ some row) (job_found : get_job j w.db ≡ some job)
      (same_count : row.delivery_count ≡ m.delivery_count)
      (same_max : w.queue.max_delivery ≡ max_delivery) where
    execute-Settled : (spec : ToolSpec) → Settled m.handle j (execute worker m spec w)
    unfolding execute start
    execute-Settled spec =
        settle-Settled (start worker m w) row _ row_found
          (get_job-set_job_status j (job_id m) _ w.db job named job_found) same_count same_max
          (spec.run tool_ctx (arguments m))

    -- On the local queue, if a message's row and the job that it names are there, with the row's
    -- delivery count on the message and one `max_delivery` for queue and worker, then processing
    -- the message, whatever its tool is and does, leaves both, and they end alike: succeeded with
    -- completed, failed with available again, or dead-lettered both.
    pub process-Settled : Settled m.handle j (process worker m w)
    unfolding process
    process-Settled = grind (
      arith,
      execute-Settled,
      reject_unknown-Settled w row job row_found job_found,
      skip_duplicate-Settled w row job row_found job_found,
    )
