-- ===== src/Worker/Tests/Histories.antt =====
-- Concrete histories of the loop and of two workers (apps/worker/worker.py).
use nervora.Base.{All, ◌≢◌, none, some, ◌≤◌, true, false, ◌+◌, arith, List, [], ◌∷◌, ◌≡◌, refl}
use nervora.Servicebus.Local.{LocalQueue, receive, publish, claim, eligible, lock, to_message}
use nervora.World.{World}
use nervora.Base.Table.{find}
use nervora.Json.{get}
use nervora.Servicebus.Row.{QueueMessage, completed, locked}
use nervora.Servicebus.Local.{settle, complete}
use nervora.Servicebus.Local.Delivery.{row_at}
use nervora.Servicebus.Interface.{idempotency_key}
use nervora.Audit.Repository.{get_idempotency}
use nervora.ToolRegistry.Registry.{get_tool}
use nervora.Worker.Lifecycle.{Step-IsMove, MovesTo}
use nervora.Worker.Final.{Reach-stays_final}
use nervora.Worker.{process, poll_once, key_row, execute, settle_success}
use nervora.Worker.Fleet.{
  Held, System, Step, Reach, here, more, publishes, receives, waits, processes,
}
use nervora.Servicebus.Local.Calls.{run, step, empty}
use nervora.Servicebus.Local.Calls as Calls
use nervora.Servicebus.Local.Invariant.{run-empty-IsValid}
use nervora.Servicebus.Local.Deliveries.{left}
use nervora.Worker.Draining.{run_forever-IsDrained, handled, asleep}
use nervora.Worker.Loop.{run_forever, poll_of, runs}
use nervora.Servicebus.Interface.{raised}
use nervora.Worker.Tests.{reporter, body, message, world}

-- Two workers, of which the first takes one of two jobs, the second the other, and the first is done.
abbrev idle : System
idle = record { queue = empty "tool-jobs" 5 0; held = [] }

abbrev two_jobs : LocalQueue
two_jobs =
    run (empty "tool-jobs" 5 0)
      (Calls.publishes (body "report") ∷ Calls.publishes (body "broken") ∷ [])

abbrev both_busy : List Held
both_busy =
    record { worker = 2; message = record { body = body "broken"; delivery_count = 1; handle = 1 } }
    ∷ record { worker = 1; message = message "report" }
    ∷ []

abbrev busy_queue : LocalQueue
busy_queue = (receive 5 30 (receive 1 30 two_jobs).1).1

abbrev left_over : List Held
left_over =
    record { worker = 2; message = record { body = body "broken"; delivery_count = 1; handle = 1 } }
    ∷ []

abbrev after_first : System
after_first = record {
  queue =
      (process reporter (message "report")
        (record { db = (world "report").db; queue = busy_queue })).queue;
  held = left_over;
}

abbrev both_taken : System
both_taken = record { queue = busy_queue; held = both_busy }

taking : Reach reporter idle both_taken
unfolding empty run step publish receive claim eligible lock to_message
taking =
    more
      (more (more (more here (publishes (body "report") _ refl)) (publishes (body "broken") _ refl))
        (receives 1 1 30))
      (receives 2 5 30)

reporting : Step reporter both_taken after_first
reporting = processes 1 (message "report") left_over [] (world "report").db refl

history : Reach reporter idle after_first
history = more taking reporting

-- The row of the first job.
abbrev reported : QueueMessage
reported = record {
  id = 0;
  queue_name = "tool-jobs";
  body = body "report";
  status = completed;
  delivery_count = 1;
  visible_at = 30;
  dead_letter_reason = none;
}

taken_found : row_at 0 both_taken.queue.rows ≡ some (record reported { status = locked })
unfolding empty run step publish receive claim eligible lock to_message row_at
taken_found = refl

Step-IsMove_example :
    MovesTo both_taken.queue.max_delivery 0
      (record reported { status = locked })
      after_first.queue.rows
unfolding empty
Step-IsMove_example =
    Step-IsMove reporter refl 0 (record reported { status = locked }) (omega arith)
      (record { ids = omega arith; counts = tt }) refl taking taken_found reporting

abbrev a_day_later : System
a_day_later = record {
  queue = record after_first.queue { now = after_first.queue.now + 86400 };
  held = left_over;
}

reported_found : row_at 0 after_first.queue.rows ≡ some reported
unfolding empty run step publish receive claim eligible lock to_message process row_at get_tool
    key_row idempotency_key get_idempotency find get execute settle settle_success complete
reported_found = refl

Reach-stays_final_example :
    (row_at 0 a_day_later.queue.rows ≡ some reported)
    × All (λ h. h.message.handle ≢ 0) a_day_later.held
unfolding empty
Reach-stays_final_example =
    Reach-stays_final reporter refl 0 reported refl (omega arith)
      (record { ids = omega arith; counts = tt }) refl history reported_found
      (more here (waits 86400))

abbrev backlog : World LocalQueue
backlog = record (world "report") { queue = two_jobs }

-- Two jobs have ten deliveries left.
run_forever-IsDrained_example :
    (handled reporter refl 1 10 backlog
        + left (run_forever (poll_of reporter) (asleep 1) (runs 10) 0 backlog).1.queue
      ≡ 10)
    × (poll_once reporter 10 30
          (asleep 3600 (run_forever (poll_of reporter) (asleep 1) (runs 10) 0 backlog).1)
        ≡ (0, asleep 3600 (run_forever (poll_of reporter) (asleep 1) (runs 10) 0 backlog).1))
    × (10 ≤ (run_forever (poll_of reporter) (asleep 1) (runs 10) 0 backlog).0 + 10)
unfolding empty run step publish
run_forever-IsDrained_example =
    run_forever-IsDrained reporter refl 1 10 3600 backlog (omega arith)
      (run-empty-IsValid "tool-jobs" 5 0
        (Calls.publishes (body "report") ∷ Calls.publishes (body "broken") ∷ []) (omega arith))
      ((λ e. omega arith), ((λ e. omega arith), tt)) (omega arith)

-- A poll that raises counts as one without messages, and a signal ends the loop.
interrupted :
    (run_forever
      (λ w. (raised "no queue", w))
      (λ w. w)
      (true ∷ true ∷ false ∷ true ∷ [])
      0
      backlog).0
    ≡ 2
unfolding run_forever
interrupted = refl
