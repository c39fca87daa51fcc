-- ===== src/Servicebus/Local/Calls.antt =====
-- Histories of the local queue of packages/servicebus/local.py: any calls, with any handles, and
-- time that passes between them.
use nervora.Base.{ℕ, ◌+◌, String, List, [], ◌∷◌}
use nervora.Json.{Dict}
use nervora.Servicebus.Interface.{Message, done}
use nervora.Servicebus.Local.{LocalQueue, publish, receive, complete, abandon, dead_letter}

-- A call of the queue, or time that passes.
pub data Call : Type 0 where
  publishes : Dict → Call
  receives : ℕ → ℕ → Call
  completes abandons : Message → Call
  dead_letters : Message → String → Call
  waits : ℕ → Call

unfoldable pub step : LocalQueue → Call → LocalQueue
step q (publishes body) = elim (publish body q) [ done q' ↦ q' | _ ↦ q ]
step q (receives max_messages visibility_timeout) = (receive max_messages visibility_timeout q).1
step q (completes message) = complete message q
step q (abandons message) = abandon message q
step q (dead_letters message reason) = dead_letter message reason q
step q (waits seconds) = record q { now = q.now + seconds }

unfoldable pub run : LocalQueue → List Call → LocalQueue
run q [] = q
run q (c ∷ cs) = run (step q c) cs

unfoldable pub empty : String → ℕ → ℕ → LocalQueue
empty queue max_delivery now = record {
  queue = queue;
  max_delivery = max_delivery;
  rows = [];
  next_id = 0;
  now = now;
}
