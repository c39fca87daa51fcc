-- ===== src/Servicebus/Local/Tests.antt =====
-- Concrete histories of the queue of packages/servicebus/local.py.
use nervora.Base.{List, [], ◌∷◌, ◌≡◌, refl, arith, none, some, Member, map, take, ◌<◌, true}
use nervora.Json.{end}
use nervora.Servicebus.Interface.{Message}
use nervora.Servicebus.Row.{locked, QueueMessage}
use nervora.Servicebus.Local.{LocalQueue, publish, receive, claim, eligible, lock, to_message}
use nervora.Servicebus.Local.RowLocks.{select, update_rows, receive_overlapping}
use nervora.Servicebus.Local.Overlap.{receive_overlapping-receive}
use nervora.Servicebus.Local.Calls.{Call, publishes, receives, abandons, waits, step, run, empty}
use nervora.Servicebus.Local.Invariant.{IsValid, run-empty-IsValid}
use nervora.Servicebus.Local.Delivery.{row_at, due, delivered, handles, messages-receive}
use nervora.Servicebus.Local.Locks.{locked_until_settled}

abbrev first_calls : List Call
first_calls = publishes end ∷ publishes end ∷ receives 1 30 ∷ []

abbrev other : Message
other = record { body = end; delivery_count = 1; handle = 1 }

abbrev history : List Call
history = waits 99 ∷ abandons other ∷ receives 5 30 ∷ []

run-empty-IsValid_example : IsValid (run (empty "tool-jobs" 3 0) first_calls)
run-empty-IsValid_example = run-empty-IsValid "tool-jobs" 3 0 first_calls (omega arith)

abbrev two_rows : LocalQueue
two_rows = run (empty "tool-jobs" 3 0) (publishes end ∷ publishes end ∷ [])

two_rows_deliver : 0 < two_rows.max_delivery
unfolding run step empty publish
two_rows_deliver = omega arith

abbrev one_locked : LocalQueue
one_locked = run (empty "tool-jobs" 3 0) first_calls

two_rows-IsValid : IsValid two_rows
two_rows-IsValid =
    run-empty-IsValid "tool-jobs" 3 0 (publishes end ∷ publishes end ∷ []) (omega arith)

one_locked-IsValid : IsValid one_locked
one_locked-IsValid = run-empty-IsValid "tool-jobs" 3 0 first_calls (omega arith)

abbrev locked_row : QueueMessage
locked_row = record {
  id = 0;
  queue_name = "tool-jobs";
  body = end;
  status = locked;
  delivery_count = 1;
  visible_at = 30;
  dead_letter_reason = none;
}

messages-receive_example :
    (receive 1 30 two_rows).0 ≡ map delivered (take 1 (due "tool-jobs" 0 two_rows.rows))
unfolding run step empty publish
messages-receive_example = messages-receive 1 30 two_rows

receive_overlapping-receive_example :
    (receive_overlapping true 1 30 1 60 5 two_rows ≡ (
      (receive 1 30 two_rows).0,
      (receive 1 60 (record (receive 1 30 two_rows).1 { now = 5 })).0,
      (receive 1 60 (record (receive 1 30 two_rows).1 { now = 5 })).1,
    ))
    × (¬ (
        Member 0 (handles (receive_overlapping true 1 30 1 60 5 two_rows).0)
        × Member 0 (handles (receive_overlapping true 1 30 1 60 5 two_rows).1)))
receive_overlapping-receive_example =
    receive_overlapping-receive true 1 30 1 60 5 two_rows 0 two_rows_deliver two_rows-IsValid

-- The second worker passes over the row that the first one has locked.
second_handle : handles (receive_overlapping true 1 30 1 60 5 two_rows).1 ≡ 1 ∷ []
unfolding run step empty publish receive_overlapping select update_rows eligible lock to_message
second_handle = refl

locked_until_settled_example :
    (row_at 0 (run one_locked history).rows ≡ some locked_row)
    × (¬ Member 0 (handles (receive 5 30 (run one_locked history)).0))
unfolding run step empty publish receive claim eligible lock row_at
locked_until_settled_example =
    locked_until_settled 0 one_locked history 5 30 locked_row (omega arith) one_locked-IsValid refl
      refl (tt, ((λ h. cc h), (tt, tt)))
