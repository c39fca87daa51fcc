-- ===== src/Worker/Waiting.antt =====
-- One message in the local queue (packages/servicebus/local.py) and its job, between the polls of
-- apps/worker/worker.py.
use nervora.Base.{
  ℕ, ◌+◌, ◌≤◌, String, [], ◌∷◌, ◌≡◌, refl, arith, Option, none, some, eq_refl, if◌then◌else◌, leb,
}
use nervora.Json.{Dict}
use nervora.Servicebus.Interface.{Message, idempotency_key}
use nervora.Servicebus.Row.{Status, available, locked, QueueMessage}
use nervora.Servicebus.Local
use nervora.Servicebus.Local.{
  LocalQueue, local_queue, receive, claim, eligible, lock, to_message, abandon, abandon_row,
}
use nervora.Audit.Models.{Db, AsyncJob, JobStatus}
use nervora.Audit.Repository.{get_job, set_job_status, get_idempotency, JobUpdate}
use nervora.World.{World}
use nervora.Worker.{key_row, finished}

-- A queue that holds one message.
module _ (name : String) (body : Dict) (id next_id now max : ℕ) where
  abbrev pub row : ℕ → Status → ℕ → Option String → QueueMessage
  row count status visible_at reason = record {
    id = id;
    queue_name = name;
    body = body;
    status = status;
    delivery_count = count;
    visible_at = visible_at;
    dead_letter_reason = reason;
  }

  abbrev pub holding : QueueMessage → LocalQueue
  holding r = record {
    queue = name;
    max_delivery = max;
    rows = r ∷ [];
    next_id = next_id;
    now = now;
  }

  abbrev pub delivery : ℕ → Message
  delivery count = record { body = body; delivery_count = count; handle = id }

  pub receive-holding :
      (count visible_at timeout : ℕ) (reason : Option String)
      → visible_at ≤ now
      → receive 10 timeout (holding (row count available visible_at reason))
        ≡ (delivery (count + 1) ∷ [], holding (row (count + 1) locked (now + timeout) reason))
  unfolding receive claim eligible lock to_message
  receive-holding count visible_at timeout reason le = ground (arith, eq_refl name)

  pub abandon-holding :
      (count visible_at : ℕ) (reason : Option String)
      → abandon (delivery count) (holding (row count locked visible_at reason))
        ≡ holding (
            if leb max count
            then row count Status.dead_letter visible_at (some "max delivery count exceeded")
            else row count available now reason)
  unfolding abandon Local.settle abandon_row
  abandon-holding count visible_at reason = ground arith

pub keys-set_job_status :
    (id : Option String) (u : JobUpdate) (db : Db) → (set_job_status id u db).keys ≡ db.keys
unfolding set_job_status
keys-set_job_status none u db = refl
keys-set_job_status (some id) u db = refl

pub key_row-keys :
    (o : Option String) (db db' : Db) → db.keys ≡ db'.keys → key_row o db ≡ key_row o db'
unfolding key_row get_idempotency
key_row-keys none db db' e = refl
key_row-keys (some key) db db' e = rw e refl

module _ (name : String) (body : Dict) (id next_id now max : ℕ) (j : String) where
  -- The message waits, after `count` deliveries; its job is there and has not run to its end.
  pub record Retrying (count : ℕ) (w : World LocalQueue) : Type 0 where
    pub visible_at : ℕ
    pub reason : Option String
    pub due : visible_at ≤ now
    pub waiting :
        w.queue
        ≡ holding name body id next_id now max
            (row name body id next_id now max count available visible_at reason)
    pub job : AsyncJob
    pub job_found : get_job j w.db ≡ some job
    pub unfinished :
        finished (key_row (idempotency_key (delivery name body id next_id now max 0)) w.db) ≡ none

  -- What a failed delivery leaves.
  pub record Failed (count : ℕ) (w : World LocalQueue) : Type 0 where
    pub visible_at : ℕ
    pub reason : Option String
    pub due : visible_at ≤ now
    pub waiting :
        w.queue
        ≡ holding name body id next_id now max (
            if leb max count
            then row name body id next_id now max count Status.dead_letter
                (now + 30)
                (some "max delivery count exceeded")
            else row name body id next_id now max count available visible_at reason)
    pub job : AsyncJob
    pub job_found : get_job j w.db ≡ some job
    pub job_status :
        job.status ≡ (if leb max count then JobStatus.dead_letter else JobStatus.failed)
    pub attempts : job.attempts ≡ count
    pub unfinished :
        finished (key_row (idempotency_key (delivery name body id next_id now max 0)) w.db) ≡ none

  -- The message and its job are out of service, after every delivery that they were allowed.
  pub record DeadLettered (w : World LocalQueue) : Type 0 where
    pub visible_at : ℕ
    pub dead :
        w.queue
        ≡ holding name body id next_id now max (
            row name body id next_id now max max Status.dead_letter visible_at
              (some "max delivery count exceeded"))
    pub job : AsyncJob
    pub job_found : get_job j w.db ≡ some job
    pub job_dead : job.status ≡ JobStatus.dead_letter
    pub attempts : job.attempts ≡ max
