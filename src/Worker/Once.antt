-- ===== src/Worker/Once.antt =====
-- That a key's job runs at most once (apps/worker/worker.py), by however many messages it is named.
use nervora.Base.{
  String, true, List, [], ◌∷◌, ◌≡◌, refl, sym, arith, some, inl, inr, ◌∙◌, truthy, subst, Option,
  none,
}
use nervora.Json.{Dict}
use nervora.Servicebus.Interface.{Message, idempotency_key, job_id}
use nervora.Audit.Models.{Db, AsyncJob, succeeded, IdempotencyKey, reserved, completed}
use nervora.Audit.Repository.{
  get_idempotency, complete_key, get_job, set_job_status, record_event, apply_update, JobUpdate,
}
use nervora.ToolRegistry.Spec.{ToolSpec, ToolResult, ok}
use nervora.ToolRegistry.Registry.{get_tool}
use nervora.World.{World}
use nervora.Worker.{
  Worker, tool_name, arguments, key_row, finished, skip_duplicate, settle_success, execute, start,
  settle, process, process_all, status_only,
}
use nervora.Worker.Settling.{get_job-set_job_status}
use nervora.Worker.Keys.{
  get_idempotency-complete_self, decide_key, get_idempotency-set_job_status,
  get_idempotency-record_event, get_idempotency-skip_duplicate, get_idempotency-start,
  get_idempotency-process,
}

-- The key's row says that its job has run, with this result.
pub record HasRun (key : String) (output : Dict) (db : Db) : Type 0 where
  pub row : IdempotencyKey
  pub found : get_idempotency key db ≡ some row
  pub is_done : row.status ≡ completed
  pub stored : row.result ≡ some output

finished-HasRun :
    (key : String) (output : Dict) (db : Db)
    → truthy key ≡ true
    → HasRun key output db
    → finished (key_row (some key) db) ≡ some output
unfolding key_row
finished-HasRun key output db t h = ground (arith, h.found, h.is_done, h.stored)

module _ {Q : Type 0} (x : Worker Q) (key : String) (output : Dict) (t : truthy key ≡ true) where
  process_known :
      (m : Message) (w : World Q)
      → idempotency_key m ≡ some key
      → HasRun key output w.db
      → process x m w ≡ skip_duplicate x m output w
  unfolding process
  process_known m w e h = ground (arith, finished-HasRun key output w.db t h)

  process-HasRun :
      (m : Message) (w : World Q) → HasRun key output w.db → HasRun key output (process x m w).db
  process-HasRun m w h = elim (decide_key (idempotency_key m) key) [
    | inl e ↦
        subst (λ w'. HasRun key output w'.db) (sym (process_known m w e h))
          (record {
            row = h.row;
            found = get_idempotency-skip_duplicate x key m output w ∙ h.found;
            is_done = h.is_done;
            stored = h.stored;
          })
    | inr ne ↦ record {
      row = h.row;
      found = get_idempotency-process x key m w ne ∙ h.found;
      is_done = h.is_done;
      stored = h.stored;
    }
  ]

  -- After a message whose tool returns, the key has run.
  pub settle_success-HasRun :
      (m : Message) (w : World Q) (row : IdempotencyKey)
      → idempotency_key m ≡ some key
      → get_idempotency key w.db ≡ some row
      → HasRun key output (settle_success x m output w).db
  unfolding settle_success
  settle_success-HasRun m w row e f = record {
    row = complete_key output row;
    found = simp get_idempotency-record_event (
        get_idempotency-complete_self key (idempotency_key m) output _ row t e
          (simp get_idempotency-set_job_status f));
    is_done = unfold complete_key in refl;
    stored = unfold complete_key in refl;
  }

  process_all-HasRun :
      (ms : List Message) (w : World Q)
      → HasRun key output w.db
      → HasRun key output (process_all x ms w).db
  unfolding process_all
  process_all-HasRun [] w h = h
  process_all-HasRun (m ∷ ms) w h = process_all-HasRun ms (process x m w) (process-HasRun m w h)

keys-set_job_status :
    (id : Option String) (u : JobUpdate) (db : Db) → (set_job_status id u db).keys ≡ db.keys
unfolding set_job_status
keys-set_job_status none u db = refl
keys-set_job_status (some id) u db = refl

-- A duplicate is completed, and its job succeeds with the result that it is given.
skip_duplicate-settles :
    {Q : Type 0} (y : Worker Q) (m : Message) (output : Dict) (w : World Q) (j : String)
    (job : AsyncJob)
    → job_id m ≡ some j
    → get_job j w.db ≡ some job
    → ((skip_duplicate y m output w).queue ≡ y.queue.complete m w.queue)
      × (get_job j (skip_duplicate y m output w).db
          ≡ some (record job { status = succeeded; result = some output }))
      × ((skip_duplicate y m output w).db.keys ≡ w.db.keys)
unfolding skip_duplicate record_event get_job apply_update set_job_status
skip_duplicate-settles y m output w j job e f = (
  refl,
  get_job-set_job_status j (job_id m) (record (status_only succeeded) { result = some output }) w.db
      job e f,
  keys-set_job_status (job_id m) (record (status_only succeeded) { result = some output }) w.db,
)

module _ {Q : Type 0} (x y : Worker Q) (key : String) (t : truthy key ≡ true) where
  pub process_first :
      (m : Message) (spec : ToolSpec) (result : ToolResult) (row : IdempotencyKey) (w : World Q)
      → idempotency_key m ≡ some key
      → get_idempotency key w.db ≡ some row
      → row.status ≡ reserved
      → get_tool x.registry (tool_name m) ≡ some spec
      → spec.run x.tool_ctx (arguments m) ≡ ok result
      → process x m w ≡ settle_success x m result.output (start x m w)
  unfolding process execute settle key_row
  process_first m spec result row w e f s g h = ground arith

  process-HasRun_first :
      (m : Message) (spec : ToolSpec) (result : ToolResult) (row : IdempotencyKey) (w : World Q)
      → idempotency_key m ≡ some key
      → get_idempotency key w.db ≡ some row
      → row.status ≡ reserved
      → get_tool x.registry (tool_name m) ≡ some spec
      → spec.run x.tool_ctx (arguments m) ≡ ok result
      → HasRun key result.output (process x m w).db
  process-HasRun_first m spec result row w e f s g h =
      subst (λ w'. HasRun key result.output w'.db)
        (sym (process_first m spec result row w e f s g h))
        (settle_success-HasRun x key result.output t m (start x m w) row e
          (get_idempotency-start x key m w ∙ f))

  -- The tool of a job runs once: after a message whose tool returned a result, under a reserved
  -- idempotency key that is not empty, and any further messages, a message with that key is
  -- completed on the queue, its job has succeeded with the stored result, and the key's rows stay
  -- as they were: whatever worker receives it, and whatever its tool would do, which does not run.
  -- The calls of the queue return.
  pub executed_once :
      (m m' : Message) (spec : ToolSpec) (result : ToolResult) (row : IdempotencyKey)
      (ms : List Message) (w : World Q) (j : String) (job : AsyncJob)
      → idempotency_key m ≡ some key
      → idempotency_key m' ≡ some key
      → get_idempotency key w.db ≡ some row
      → row.status ≡ reserved
      → get_tool x.registry (tool_name m) ≡ some spec
      → spec.run x.tool_ctx (arguments m) ≡ ok result
      → job_id m' ≡ some j
      → get_job j (process_all y ms (process x m w)).db ≡ some job
      → ((process y m' (process_all y ms (process x m w))).queue
          ≡ y.queue.complete m' (process_all y ms (process x m w)).queue)
        × (get_job j (process y m' (process_all y ms (process x m w))).db
            ≡ some (record job { status = succeeded; result = some result.output }))
        × ((process y m' (process_all y ms (process x m w))).db.keys
            ≡ (process_all y ms (process x m w)).db.keys)
  executed_once m m' spec result row ms w j job e e' f s g h named found =
      let before = process_all y ms (process x m w) in
      let known = process_known y key result.output t m' before e' (
        process_all-HasRun y key result.output t ms (process x m w)
          (process-HasRun_first m spec result row w e f s g h)) in
      let done = skip_duplicate-settles y m' result.output before j job named found in
      subst
        (λ v.
          (v.queue ≡ y.queue.complete m' before.queue)
          × (get_job j v.db ≡ some (record job { status = succeeded; result = some result.output }))
          × (v.db.keys ≡ before.db.keys))
        (sym known) done
