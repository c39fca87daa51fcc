-- ===== src/Worker/Holding.antt =====
-- What the workers of apps/worker/worker.py hold, and what each does to the local queue.
use nervora.Base.{
  ℕ, ◌≤◌, String, List, [], ◌∷◌, ◌++◌, ◌≡◌, ◌≢◌, refl, sym, ap, arith, zero, suc, some, Member, All,
  All-map, All-append, All-remove, All-item, Bool-cases, Option-cases, inl, inr,
}
use nervora.Json.{Dict}
use nervora.Servicebus.Interface.{Message, ReturningQueue, idempotency_key}
use nervora.Servicebus.Row.{locked, QueueMessage}
use nervora.Servicebus.Local.{LocalQueue, local_queue, claim, lock, eligible, to_message}
use nervora.Servicebus.Local.Calls.{Call, completes, abandons, dead_letters, step}
use nervora.Servicebus.Local.Invariant.{Ascends}
use nervora.Servicebus.Local.Delivery.{row_at, handles}
use nervora.ToolRegistry.Spec.{Result, ok, raise, ToolResult, ToolSpec}
use nervora.ToolRegistry.Registry.{get_tool}
use nervora.World.{World}
use nervora.Worker.{
  Worker, process, execute, start, settle, handle_failure, settle_success, skip_duplicate,
  reject_unknown, finished, key_row, tool_name,
}
use nervora.Worker.Fleet.{Held, taken_by}

-- The calls that settle a message.
abbrev pub Settles : Message → Call → Type 0
Settles m (completes n) = n ≡ m
Settles m (abandons n) = n ≡ m
Settles m (dead_letters n reason) = n ≡ m
Settles m _ = ⊥

-- What a worker does to the queue is one call that settles its message.
abbrev pub SettledBy : Message → LocalQueue → LocalQueue → Type 0
SettledBy m q q' = (c : Call) × Settles m c × (q' ≡ step q c)

module _ (x : Worker LocalQueue) (local : x.queue ≡ local_queue) (m : Message) where
  settle-SettledBy :
      (result : Result ToolResult) (w : World LocalQueue)
      → SettledBy m w.queue (settle x m result w).queue
  unfolding settle handle_failure settle_success step
  settle-SettledBy (raise e) w =
      (abandons m, refl, ap (λ (q : ReturningQueue LocalQueue). q.abandon m w.queue) local)
  settle-SettledBy (ok result) w =
      (completes m, refl, ap (λ (q : ReturningQueue LocalQueue). q.complete m w.queue) local)

  execute-SettledBy :
      (spec : ToolSpec) (w : World LocalQueue) → SettledBy m w.queue (execute x m spec w).queue
  unfolding execute start
  execute-SettledBy spec w = settle-SettledBy _ (start x m w)

  skip_duplicate-SettledBy :
      (result : Dict) (w : World LocalQueue)
      → SettledBy m w.queue (skip_duplicate x m result w).queue
  unfolding skip_duplicate step
  skip_duplicate-SettledBy result w =
      (completes m, refl, ap (λ (q : ReturningQueue LocalQueue). q.complete m w.queue) local)

  reject_unknown-SettledBy :
      (w : World LocalQueue) → SettledBy m w.queue (reject_unknown x m w).queue
  unfolding reject_unknown step
  reject_unknown-SettledBy w = (
    dead_letters m "unknown tool",
    refl,
    ap (λ (q : ReturningQueue LocalQueue). q.dead_letter m "unknown tool" w.queue) local,
  )

  pub process-SettledBy : (w : World LocalQueue) → SettledBy m w.queue (process x m w).queue
  unfolding process
  process-SettledBy w = elim (Option-cases (finished (key_row (idempotency_key m) w.db))) [
    | inr (result, e) ↦ rw (e, process) (skip_duplicate-SettledBy result w)
    | inl e ↦ elim (Option-cases (get_tool x.registry (tool_name m))) [
      | inl e' ↦ rw (e, e', process) (reject_unknown-SettledBy w)
      | inr (spec, e') ↦ rw (e, e', process) (execute-SettledBy spec w)
    ]
  ]

-- No held message has the handle, and no two have the same.
abbrev pub Free : ℕ → List Held → Type 0
Free handle = All (λ h. h.message.handle ≢ handle)

abbrev pub Distinct : List Held → Type 0
Distinct [] = Unit
Distinct (h ∷ hs) = Free h.message.handle hs × Distinct hs

abbrev pub IsLocked : LocalQueue → Held → Type 0
IsLocked q h = (r : QueueMessage) × (row_at h.message.handle q.rows ≡ some r) × (r.status ≡ locked)

pub Distinct-append :
    (xs ys : List Held)
    → Distinct xs
    → Distinct ys
    → All (λ h. Free h.message.handle ys) xs
    → Distinct (xs ++ ys)
Distinct-append [] ys a b c = b
Distinct-append (x ∷ xs) ys a b c = (All-append _ xs ys a.0 c.0, Distinct-append xs ys a.1 b c.1)

pub Distinct-remove :
    (xs : List Held) (y : Held) (ys : List Held)
    → Distinct (xs ++ y ∷ ys)
    → Distinct (xs ++ ys) × Free y.message.handle (xs ++ ys)
Distinct-remove [] y ys d = (d.1, d.0)
Distinct-remove (x ∷ xs) y ys d =
    let rest = Distinct-remove xs y ys d.1 in
    ((All-remove _ xs y ys d.0, rest.0), ((λ e. All-item _ xs y ys d.0 (sym e)), rest.1))

-- The handles of a batch ascend.
pub claim-Distinct :
    (queue : String) (worker now timeout n lo end_id : ℕ) (rows : List QueueMessage)
    → Ascends lo end_id rows
    → Distinct (taken_by worker (claim queue now timeout n rows).0)
      × All (λ h. lo ≤ h.message.handle) (taken_by worker (claim queue now timeout n rows).0)
unfolding claim to_message lock
claim-Distinct queue worker now timeout zero lo end_id rows a = (tt, tt)
claim-Distinct queue worker now timeout (suc n) lo end_id [] a = (tt, tt)
claim-Distinct queue worker now timeout (suc n) lo end_id (row ∷ rows) a =
    elim (Bool-cases (eligible queue now row)) [
      | inl e ↦
          let (d, above) = claim-Distinct queue worker now timeout n (suc row.id) end_id rows a.1 in
          rw (e, claim)
            (
              (All-map _ _ (λ h le same. omega (arith, le, same)) _ above, d),
              (a.0, All-map _ _ (λ h le. omega (arith, le, a.0)) _ above),
            )
      | inr e ↦
          let (d, above) =
            claim-Distinct queue worker now timeout (suc n) (suc row.id) end_id rows a.1 in
          rw (e, claim) (d, All-map _ _ (λ h le. omega (arith, le, a.0)) _ above)
    ]

pub taken-Members :
    (worker : ℕ) (ms : List Message)
    → All (λ h. Member h.message.handle (handles ms)) (taken_by worker ms)
taken-Members worker [] = tt
taken-Members worker (m ∷ ms) =
    (inl refl, All-map _ _ (λ h i. inr i) (taken_by worker ms) (taken-Members worker ms))
