-- ===== src/Worker/Raising.antt =====
-- apps/worker/worker.py over a queue whose calls may raise: `_process` and `poll_once` end where one
-- does. The worker's own queue is not called here.
use nervora.Base.{ℕ, List, [], ◌∷◌, none, some, length}
use nervora.Json.{Dict}
use nervora.Servicebus.Interface.{Message, MessageQueue, Attempt, done, raised, idempotency_key}
use nervora.Audit.Models.{Db}
use nervora.ToolRegistry.Spec.{Result, ok, raise, ToolResult}
use nervora.ToolRegistry.Registry.{get_tool}
use nervora.World.{World}
use nervora.Worker.{
  Worker, tool_name, arguments, key_row, finished, skip_duplicate, reject_unknown, handle_failure,
  settle_success, start,
}

module _ {Q : Type 0} (x : Worker Q) (queue : MessageQueue Q) (m : Message) where
  -- The queue is called behind the `with` block, which has committed.
  abbrev pub settled : Db → Attempt (Unit {0}) × Q → Attempt (Unit {0}) × World Q
  settled db (result, q) = (result, record { db = db; queue = q })

  -- The queue is called inside the `with` block, which an exception rolls back from `db` to `old`.
  abbrev pub settled_inside : Db → Db → Attempt (Unit {0}) × Q → Attempt (Unit {0}) × World Q
  settled_inside old db (done _, q) = (done tt, record { db = db; queue = q })
  settled_inside old db (raised text, q) = (raised text, record { db = old; queue = q })

  unfoldable pub try_skip_duplicate : Dict → World Q → Attempt (Unit {0}) × World Q
  unfolding skip_duplicate
  try_skip_duplicate result w =
      settled_inside w.db (skip_duplicate x m result w).db (queue.complete m w.queue)

  unfoldable pub try_reject_unknown : World Q → Attempt (Unit {0}) × World Q
  unfolding reject_unknown
  try_reject_unknown w =
      settled (reject_unknown x m w).db (queue.dead_letter m "unknown tool" w.queue)

  unfoldable pub try_settle : Result ToolResult → World Q → Attempt (Unit {0}) × World Q
  unfolding handle_failure settle_success
  try_settle (raise e) w = settled (handle_failure x m e w).db (queue.abandon m w.queue)
  try_settle (ok result) w =
      settled (settle_success x m result.output w).db (queue.complete m w.queue)

  -- `_process`
  unfoldable pub try_process : World Q → Attempt (Unit {0}) × World Q
  unfolding key_row start
  try_process w = elim (finished (key_row (idempotency_key m) w.db)) [
    | some result ↦ try_skip_duplicate result w
    | none ↦ elim (get_tool x.registry (tool_name m)) [
      | none ↦ try_reject_unknown w
      | some spec ↦ try_settle (spec.run x.tool_ctx (arguments m)) (start x m w)
    ]
  ]

module _ {Q : Type 0} (x : Worker Q) (queue : MessageQueue Q) where
  unfoldable pub try_process_all : List Message → World Q → Attempt (Unit {0}) × World Q
  try_process_all [] w = (done tt, w)
  try_process_all (m ∷ ms) w =
      let rest = try_process_all ms (try_process x queue m w).1 in
      elim (try_process x queue m w).0 [
        | done _ ↦ rest
        | raised text ↦ (raised text, (try_process x queue m w).1)
      ]

  abbrev pub counted : ℕ → Attempt (Unit {0}) → Attempt ℕ
  counted n (done _) = done n
  counted n (raised text) = raised text

  abbrev pub handled_batch : Db → Attempt (List Message) × Q → Attempt ℕ × World Q
  handled_batch db (done messages, q) =
      let (result, w) = try_process_all messages (record { db = db; queue = q }) in
      (counted (length messages) result, w)
  handled_batch db (raised text, q) = (raised text, record { db = db; queue = q })

  -- `poll_once`
  unfoldable pub try_poll_once : ℕ → ℕ → World Q → Attempt ℕ × World Q
  try_poll_once max_messages visibility_timeout w =
      handled_batch w.db (queue.receive max_messages visibility_timeout w.queue)
