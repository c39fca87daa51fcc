-- ===== src/Worker/Fleet.antt =====
-- Several workers of apps/worker/worker.py on one local queue, with the gateway and the clock beside
-- them: what may happen next, in any order. A step is a transaction of the queue, which no
-- other overlaps (calls of `receive` that do are in Servicebus/Local/RowLocks): between the receipt of a message and its settlement the others may do anything, and the database that a worker
-- reads meanwhile is any.
use nervora.Base.{ℕ, ◌+◌, List, ◌∷◌, ◌++◌, ◌≡◌, map}
use nervora.Json.{Dict}
use nervora.Audit.Models.{Db}
use nervora.Servicebus.Interface.{Message, done}
use nervora.Servicebus.Local.{LocalQueue, publish, receive}
use nervora.Worker.{Worker, process}

-- A message that a worker, by its number, has received and not settled yet.
pub record Held : Type 0 where
  pub worker : ℕ
  pub message : Message

pub record System : Type 0 where
  pub queue : LocalQueue
  pub held : List Held

abbrev pub taken_by : ℕ → List Message → List Held
taken_by worker = map (λ m. record { worker = worker; message = m })

module _ (x : Worker LocalQueue) where
  pub data Step : System → System → Type 0 where
    -- The gateway queues a job.
    publishes :
        {s : System} (body : Dict) (q : LocalQueue)
        → publish body s.queue ≡ done q
        → Step s (record s { queue = q })
    -- Time passes.
    waits :
        {s : System} (seconds : ℕ)
        → Step s (record s { queue = record s.queue { now = s.queue.now + seconds } })
    -- A worker's poll receives a batch.
    receives :
        {s : System} (worker max_messages visibility_timeout : ℕ)
        → Step s (record {
          queue = (receive max_messages visibility_timeout s.queue).1;
          held = taken_by worker (receive max_messages visibility_timeout s.queue).0 ++ s.held;
        })
    -- A worker processes a message of its batch.
    processes :
        {s : System} (worker : ℕ) (m : Message) (before after : List Held) (db : Db)
        → s.held ≡ before ++ record { worker = worker; message = m } ∷ after
        → Step s (record {
          queue = (process x m (record { db = db; queue = s.queue })).queue;
          held = before ++ after;
        })
    -- A worker is killed, and its messages stay locked.
    dies :
        {s : System} (worker : ℕ) (m : Message) (before after : List Held)
        → s.held ≡ before ++ record { worker = worker; message = m } ∷ after
        → Step s (record s { held = before ++ after })

  pub data Reach (s : System) : System → Type 0 where
    here : Reach s s
    more : {t u : System} → Reach s t → Step t u → Reach s u
