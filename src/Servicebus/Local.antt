-- ===== src/Servicebus/Local.antt =====
-- packages/servicebus/local.py: the queue in a database table. Each method is one transaction.
-- The body is kept as the data that `json.dumps` writes and `json.loads` reads back.
pub mod Calls
pub mod Invariant
pub mod Delivery
pub mod Locks
pub mod Deliveries
pub mod Due
pub mod RowLocks
pub mod Overlap
mod Tests
use nervora.Base.{
  ℕ, zero, suc, ◌+◌, String, Bool, true, false, ◌&&◌, List, [], ◌∷◌, ◌++◌, Option, none, some, ◌==◌,
  nat_eq, leb, if◌then◌else◌,
}
use nervora.Json.{Dict}
use nervora.Servicebus.Row.{
  Status, available, locked, completed, status_value, is_available, QueueMessage,
}
use nervora.Servicebus.Interface.{Message, ReturningQueue, Attempt, done, raised}

-- `rows` is the table `queue_messages` in the order of `id`, `next_id` the id of the next insert,
-- and `now` what `_utcnow()` returns, in seconds.
pub record LocalQueue : Type 0 where
  pub queue : String
  pub max_delivery : ℕ
  pub rows : List QueueMessage
  pub next_id : ℕ
  pub now : ℕ

unfoldable pub publish : Dict → LocalQueue → Attempt LocalQueue
publish body q = done (record q {
  rows =
      q.rows
      ++ (record {
        id = q.next_id;
        queue_name = q.queue;
        body = body;
        status = available;
        delivery_count = 0;
        visible_at = q.now;
        dead_letter_reason = none;
      })
        ∷ [];
  next_id = suc q.next_id;
})

-- The `where` of the select.
unfoldable pub eligible : String → ℕ → QueueMessage → Bool
eligible queue now row =
    row.queue_name == queue && is_available row.status && leb row.visible_at now

unfoldable pub lock : ℕ → ℕ → QueueMessage → QueueMessage
lock now visibility_timeout row = record row {
  status = locked;
  delivery_count = row.delivery_count + 1;
  visible_at = now + visibility_timeout;
}

unfoldable pub to_message : QueueMessage → Message
to_message row = record { body = row.body; delivery_count = row.delivery_count; handle = row.id }

-- The loop over the selected rows: the first `max_messages` eligible rows in the order of `id` are
-- claimed, each written back where it stands.
unfoldable pub claim : String → ℕ → ℕ → ℕ → List QueueMessage → List Message × List QueueMessage
claim queue now visibility_timeout zero rows = ([], rows)
claim queue now visibility_timeout (suc n) [] = ([], [])
claim queue now visibility_timeout (suc n) (row ∷ rows) = elim (eligible queue now row) [
  | true ↦
      let locked_row = lock now visibility_timeout row in
      let (claimed, rest) = claim queue now visibility_timeout n rows in
      (to_message locked_row ∷ claimed, locked_row ∷ rest)
  | false ↦
      let (claimed, rest) = claim queue now visibility_timeout (suc n) rows in (claimed, row ∷ rest)
]

-- The select and the update in one step; RowLocks has them apart, with the row locks. The second select
-- of the code is the first one without them, and gives the same where no other transaction comes between.
unfoldable pub receive : ℕ → ℕ → LocalQueue → List Message × LocalQueue
unfolding claim
receive max_messages visibility_timeout q =
    let (claimed, rows) = claim q.queue q.now visibility_timeout max_messages q.rows in
    (claimed, record q { rows = rows })

-- `s.get(QueueMessage, handle)` and an assignment to the fields of the row, if there is one.
unfoldable pub settle : ℕ → (QueueMessage → QueueMessage) → List QueueMessage → List QueueMessage
settle handle f [] = []
settle handle f (row ∷ rows) =
    if nat_eq row.id handle then f row ∷ rows else row ∷ settle handle f rows

unfoldable pub complete : Message → LocalQueue → LocalQueue
complete message q = record q {
  rows = settle message.handle (λ row. record row { status = completed }) q.rows;
}

-- A row that has used up its deliveries is dead-lettered; any other is visible at once.
unfoldable pub abandon_row : ℕ → ℕ → QueueMessage → QueueMessage
abandon_row max_delivery now row =
    if leb max_delivery row.delivery_count
    then record row {
      status = Status.dead_letter;
      dead_letter_reason = some "max delivery count exceeded";
    }
    else record row { status = available; visible_at = now }

unfoldable pub abandon : Message → LocalQueue → LocalQueue
abandon message q = record q {
  rows = settle message.handle (abandon_row q.max_delivery q.now) q.rows;
}

unfoldable pub dead_letter : Message → String → LocalQueue → LocalQueue
dead_letter message reason q = record q {
  rows =
      settle message.handle
        (λ row. record row {
          status = Status.dead_letter;
          dead_letter_reason = some (if reason == "" then "explicit dead-letter" else reason);
        })
        q.rows;
}

-- `out[r.status] = out.get(r.status, 0) + 1`
unfoldable pub count_in : String → List (String × ℕ) → List (String × ℕ)
count_in k [] = (k, 1) ∷ []
count_in k ((j, n) ∷ out) = if j == k then (j, n + 1) ∷ out else (j, n) ∷ count_in k out

unfoldable pub stats_from : String → List QueueMessage → List (String × ℕ) → List (String × ℕ)
stats_from queue [] out = out
stats_from queue (row ∷ rows) out =
    stats_from queue rows
      (if row.queue_name == queue then count_in (status_value row.status) out else out)

unfoldable pub stats : LocalQueue → List (String × ℕ)
unfolding stats_from
stats q = stats_from q.queue q.rows []

-- The backend as an implementation of the interface.
abbrev pub local_queue : ReturningQueue LocalQueue
local_queue = record {
  publish = publish;
  receive = receive;
  complete = complete;
  abandon = abandon;
  dead_letter = dead_letter;
}
