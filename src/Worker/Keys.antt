-- ===== src/Worker/Keys.antt =====
-- What apps/worker/worker.py does to the table of idempotency keys.
use nervora.Base.{
  String, true, ◌≡◌, ◌≢◌, refl, arith, Option, none, some, Bool-cases, inl, inr, ◌⊎◌, ◌==◌, ◌∙◌,
  truthy, eq_iff, eq_refl, ap,
}
use nervora.Base.Table.{find-update}
use nervora.Json.{Dict}
use nervora.Servicebus.Interface.{Message, idempotency_key}
use nervora.Audit.Models.{AuditEvent, Db, IdempotencyKey}
use nervora.Audit.Repository.{
  get_idempotency, set_job_status, record_event, JobUpdate, complete_key, complete_idempotency,
}
use nervora.ToolRegistry.Spec.{Exn, ToolSpec, ToolResult, Result, ok, raise}
use nervora.World.{World}
use nervora.Worker.{
  Worker, arguments, skip_duplicate, reject_unknown, complete_key_of, settle_success,
  handle_failure, execute, start, settle, process,
}

-- `complete_idempotency` under one key, as another sees it.
pub get_idempotency-complete_key_of :
    (key : String) (o : Option String) (output : Dict) (db : Db)
    → o ≢ some key
    → get_idempotency key (complete_key_of o output db) ≡ get_idempotency key db
unfolding complete_key_of get_idempotency complete_idempotency
get_idempotency-complete_key_of key none output db ne = refl
get_idempotency-complete_key_of key (some j) output db ne = ground (
  arith,
  find-update (λ (k : IdempotencyKey). k.idempotency_key) (complete_key output)
      (λ k. unfold complete_key in refl) key j db.keys,
  eq_iff j key,
)

pub get_idempotency-complete_self :
    (key : String) (o : Option String) (output : Dict) (db : Db) (row : IdempotencyKey)
    → truthy key ≡ true
    → o ≡ some key
    → get_idempotency key db ≡ some row
    → get_idempotency key (complete_key_of o output db) ≡ some (complete_key output row)
unfolding complete_key_of get_idempotency complete_idempotency
get_idempotency-complete_self key o output db row t e f = ground (
  arith,
  find-update (λ (k : IdempotencyKey). k.idempotency_key) (complete_key output)
      (λ k. unfold complete_key in refl) key key db.keys,
  eq_refl key,
)

pub decide_key : (o : Option String) (key : String) → (o ≡ some key) ⊎ (o ≢ some key)
decide_key none key = inr (λ e. ground arith)
decide_key (some j) key = elim (Bool-cases (j == key)) [
  | inl e ↦ inl (ap some ((eq_iff j key).0 e))
  | inr e ↦ inr (λ h. ground (arith, eq_iff j key))
]

-- The jobs are another table.
pub get_idempotency-set_job_status :
    (key : String) (id : Option String) (u : JobUpdate) (db : Db)
    → get_idempotency key (set_job_status id u db) ≡ get_idempotency key db
unfolding set_job_status get_idempotency
get_idempotency-set_job_status key none u db = refl
get_idempotency-set_job_status key (some id) u db = refl

pub get_idempotency-record_event :
    (key : String) (e : AuditEvent) (db : Db)
    → get_idempotency key (record_event e db) ≡ get_idempotency key db
unfolding record_event get_idempotency
get_idempotency-record_event key e db = refl

module _ {Q : Type 0} (x : Worker Q) (key : String) (m : Message) where
  pub get_idempotency-handle_failure :
      (e : Exn) (w : World Q)
      → get_idempotency key (handle_failure x m e w).db ≡ get_idempotency key w.db
  unfolding handle_failure
  get_idempotency-handle_failure e w =
      simp (get_idempotency-record_event, get_idempotency-set_job_status)

  pub get_idempotency-skip_duplicate :
      (d : Dict) (w : World Q)
      → get_idempotency key (skip_duplicate x m d w).db ≡ get_idempotency key w.db
  unfolding skip_duplicate
  get_idempotency-skip_duplicate d w =
      simp (get_idempotency-record_event, get_idempotency-set_job_status)

  pub get_idempotency-reject_unknown :
      (w : World Q) → get_idempotency key (reject_unknown x m w).db ≡ get_idempotency key w.db
  unfolding reject_unknown
  get_idempotency-reject_unknown w =
      simp (get_idempotency-record_event, get_idempotency-set_job_status)

  pub get_idempotency-settle_success :
      (d : Dict) (w : World Q)
      → idempotency_key m ≢ some key
      → get_idempotency key (settle_success x m d w).db ≡ get_idempotency key w.db
  unfolding settle_success
  get_idempotency-settle_success d w ne = simp get_idempotency-record_event (
      get_idempotency-complete_key_of key (idempotency_key m) d _ ne
      ∙ simp get_idempotency-set_job_status)

  pub get_idempotency-start :
      (w : World Q) → get_idempotency key (start x m w).db ≡ get_idempotency key w.db
  unfolding start
  get_idempotency-start w = simp get_idempotency-set_job_status

  pub get_idempotency-settle :
      (r : Result ToolResult) (w : World Q)
      → idempotency_key m ≢ some key
      → get_idempotency key (settle x m r w).db ≡ get_idempotency key w.db
  unfolding settle
  get_idempotency-settle (raise e) w ne = get_idempotency-handle_failure e w
  get_idempotency-settle (ok result) w ne = get_idempotency-settle_success result.output w ne

  pub get_idempotency-execute :
      (spec : ToolSpec) (w : World Q)
      → idempotency_key m ≢ some key
      → get_idempotency key (execute x m spec w).db ≡ get_idempotency key w.db
  unfolding execute
  get_idempotency-execute spec w ne =
      get_idempotency-settle (spec.run x.tool_ctx (arguments m)) (start x m w) ne
      ∙ get_idempotency-start w

  -- What processing a message leaves under the key of another.
  pub get_idempotency-process :
      (w : World Q)
      → idempotency_key m ≢ some key
      → get_idempotency key (process x m w).db ≡ get_idempotency key w.db
  unfolding process
  get_idempotency-process w ne = grind (
    arith, get_idempotency-skip_duplicate, get_idempotency-reject_unknown, get_idempotency-execute,
  )
