-- ===== src/Worker/Verdicts.antt =====
-- What apps/worker/worker.py records of each message of a poll, over any queue.
use nervora.Base.{String, List, [], ◌∷◌, ◌≡◌, ◌<◌, ◌≤◌, ◌⊎◌, none, some}
use nervora.Json.{text_or_empty, Dict}
use nervora.Servicebus.Interface.{
  Message, MessageQueue, Attempt, done, raised, job_id, idempotency_key,
}
use nervora.Audit.Models.{AuditEvent, CallDecision, executed, failed, Db}
use nervora.ToolRegistry.Spec.{Exn, ToolSpec, ToolResult, ok, raise}
use nervora.ToolRegistry.Registry.{get_tool}
use nervora.World.{World}
use nervora.Worker.{Worker, tool_name, trace_id, arguments, key_row, finished}

module _ {Q : Type 0} (x : Worker Q) (m : Message) where
  -- What becomes of a message, as the event's type and decision, by the state in which it is taken
  -- up.
  pub data Verdict (db : Db) : String → CallDecision → Type 0 where
    has_run :
        (result : Dict)
        → finished (key_row (idempotency_key m) db) ≡ some result
        → Verdict db "job.duplicate_skipped" executed
    is_unknown :
        finished (key_row (idempotency_key m) db) ≡ none
        → get_tool x.registry (tool_name m) ≡ none
        → Verdict db "job.dead_letter" failed
    returns :
        (spec : ToolSpec) (result : ToolResult)
        → finished (key_row (idempotency_key m) db) ≡ none
        → get_tool x.registry (tool_name m) ≡ some spec
        → spec.run x.tool_ctx (arguments m) ≡ ok result
        → Verdict db "job.succeeded" executed
    raises :
        (spec : ToolSpec) (e : Exn)
        → finished (key_row (idempotency_key m) db) ≡ none
        → get_tool x.registry (tool_name m) ≡ some spec
        → spec.run x.tool_ctx (arguments m) ≡ raise e
        → m.delivery_count < x.max_delivery
        → Verdict db "job.retry" failed
    gives_up :
        (spec : ToolSpec) (e : Exn)
        → finished (key_row (idempotency_key m) db) ≡ none
        → get_tool x.registry (tool_name m) ≡ some spec
        → spec.run x.tool_ctx (arguments m) ≡ raise e
        → x.max_delivery ≤ m.delivery_count
        → Verdict db "job.dead_letter" failed

  -- One event more, about the job of the message, with the verdict on it.
  pub record Told (w w' : World Q) : Type 0 where
    pub event : AuditEvent
    pub added : w'.db.events ≡ event ∷ w.db.events
    pub trace : event.trace_id ≡ trace_id m
    pub request : event.request_id ≡ text_or_empty (job_id m)
    pub tool : event.tool_name ≡ tool_name m
    pub verdict : Verdict w.db event.event_type event.decision

  -- Nothing is told of a message that has run before, whose completion raises: its event is rolled
  -- back.
  pub record Untold (w w' : World Q) : Type 0 where
    pub result : Dict
    pub known : finished (key_row (idempotency_key m) w.db) ≡ some result
    pub same : w'.db ≡ w.db

-- From the first of the messages on, each is told of, up to the one at which a call of the queue
-- raises: it is told of too, unless it has run before.
pub data Tells {Q : Type 0} (x : Worker Q)
    : List Message → Attempt (Unit {0}) → World Q → World Q → Type 0 where
  all_told : {w : World Q} → Tells x [] (done tt) w w
  told :
      {m : Message} {ms : List Message} {r : Attempt Unit} {w w' w'' : World Q}
      → Told x m w w'
      → Tells x ms r w' w''
      → Tells x (m ∷ ms) r w w''
  told_last :
      {m : Message} {ms : List Message} {w w' : World Q} (text : String)
      → Told x m w w'
      → Tells x (m ∷ ms) (raised text) w w'
  untold_last :
      {m : Message} {ms : List Message} {w w' : World Q} (text : String)
      → Untold x m w w'
      → Tells x (m ∷ ms) (raised text) w w'

module _ {Q : Type 0} (x : Worker Q) (queue : MessageQueue Q) (m : Message) where
  -- A message is told of, or is not because its completion raised.
  abbrev Outcome : Attempt (Unit {0}) × World Q → World Q → Type 0
  Outcome r w = Told x m w r.1 ⊎ ((text : String) × (r.0 ≡ raised text) × Untold x m w r.1)
