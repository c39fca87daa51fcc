-- ===== src/Worker/Draining.antt =====
-- What the loop of apps/worker/worker.py makes of the deliveries that the local queue has left.
use nervora.Servicebus.Local.Due.{
  AllDue, NoneWaits, step-AllDue, receive-NoneWaits, receive-nothing,
}
use native.Mathlib.Decide.{dec_lt}
use nervora.Base.{
  ℕ, zero, suc, ◌+◌, ◌≤◌, ◌<◌, List, [], ◌∷◌, ◌≡◌, refl, sym, subst, ap, ◌∙◌, arith, length,
  Bool-cases, inl, inr, nat_eq, if◌then◌else◌,
}
use nervora.Servicebus.Interface.{Message, ReturningQueue}
use nervora.Servicebus.Local.{LocalQueue, local_queue, receive, complete, abandon, dead_letter}
use nervora.Servicebus.Local.Calls.{Call, completes, abandons, dead_letters, receives, step, waits}
use nervora.Servicebus.Local.Invariant.{IsValid, step-IsValid, max_delivery-step}
use nervora.Servicebus.Local.Deliveries.{
  left, receive-spends, receive-none, left_in-settle, count-abandon_row,
}
use nervora.World.{World}
use nervora.Worker.{Worker, process, process_all, poll_once}
use nervora.Worker.Loop.{run_forever, poll_of, runs, slept}
use nervora.Worker.Holding.{Settles, process-SettledBy}

-- A valid queue with a number of deliveries left.
pub record Has (n : ℕ) (q : LocalQueue) : Type 0 where
  pub positive : 0 < q.max_delivery
  pub valid : IsValid q
  pub due : AllDue q
  pub budget : left q ≡ n

left-step : (m : Message) (c : Call) (q : LocalQueue) → Settles m c → left (step q c) ≡ left q
unfolding step complete abandon dead_letter
left-step m (completes n) q s = left_in-settle n.handle q.max_delivery _ q.rows (λ row. refl)
left-step m (abandons n) q s =
    left_in-settle n.handle q.max_delivery _ q.rows (count-abandon_row q.max_delivery q.now)
left-step m (dead_letters n reason) q s =
    left_in-settle n.handle q.max_delivery _ q.rows (λ row. refl)
left-step m _ q s = absurd s

slept-counts : (n sleeps : ℕ) → suc sleeps ≤ slept n sleeps + n
slept-counts n sleeps = ground arith

receive-Has :
    (q : LocalQueue)
    → 0 < q.max_delivery
    → IsValid q
    → AllDue q
    → Has (left (receive 10 30 q).1) (receive 10 30 q).1
unfolding step
receive-Has q pos v d = record {
  positive = rw (max_delivery-step q (receives 10 30)) pos;
  valid = step-IsValid q (receives 10 30) pos v;
  due = step-AllDue q (receives 10 30) d;
  budget = refl;
}

length-nil : (ms : List Message) → length ms ≡ 0 → ms ≡ []
length-nil [] e = refl
length-nil (m ∷ ms) e = absurd (omega (arith, e))

-- Some seconds later.
abbrev pub asleep : ℕ → World LocalQueue → World LocalQueue
asleep seconds w = record w { queue = record w.queue { now = w.queue.now + seconds } }

module _ (x : Worker LocalQueue) (local : x.queue ≡ local_queue) where
  process-Has :
      (n : ℕ) (m : Message) (w : World LocalQueue) → Has n w.queue → Has n (process x m w).queue
  process-Has n m w h =
      let (c, settles, e) = process-SettledBy x local m w in
      rw e (record {
        positive = rw max_delivery-step h.positive;
        valid = step-IsValid w.queue c h.positive h.valid;
        due = step-AllDue w.queue c h.due;
        budget = left-step m c w.queue settles ∙ h.budget;
      })

  process_all-Has :
      (n : ℕ) (ms : List Message) (w : World LocalQueue)
      → Has n w.queue
      → Has n (process_all x ms w).queue
  unfolding process_all
  process_all-Has n [] w h = h
  process_all-Has n (m ∷ ms) w h = process_all-Has n ms (process x m w) (process-Has n m w h)

  handle-Has :
      (w : World LocalQueue) (r : List Message × LocalQueue)
      → 0 < w.queue.max_delivery
      → IsValid w.queue
      → AllDue w.queue
      → r ≡ receive 10 30 w.queue
      → (k : ℕ) × Has k (process_all x r.0 (record w { queue = r.1 })).queue
        × (length r.0 + k ≡ left w.queue)
  handle-Has w r pos v d e = rw e (
    left (receive 10 30 w.queue).1,
    process_all-Has (left (receive 10 30 w.queue).1) (receive 10 30 w.queue).0
        (record w { queue = (receive 10 30 w.queue).1 }) (receive-Has w.queue pos v d),
    receive-spends 10 30 w.queue v,
  )

  poll-Has :
      (w : World LocalQueue)
      → 0 < w.queue.max_delivery
      → IsValid w.queue
      → AllDue w.queue
      → (k : ℕ) × Has k (poll_once x 10 30 w).1.queue × ((poll_once x 10 30 w).0 + k ≡ left w.queue)
  unfolding poll_once
  poll-Has w pos v d =
      handle-Has w (x.queue.receive 10 30 w.queue) pos v d
        (ap (λ (q : ReturningQueue LocalQueue). q.receive 10 30 w.queue) local)

  process_all-none :
      (r : List Message × LocalQueue) (w : World LocalQueue)
      → (r.0 ≡ [] → r.1 ≡ w.queue)
      → length r.0 ≡ 0
      → process_all x r.0 (record w { queue = r.1 }) ≡ w
  unfolding process_all
  process_all-none ([], q) w same e = ap (λ (q' : LocalQueue). record w { queue = q' }) (same refl)
  process_all-none (m ∷ ms, q) w same e = absurd (omega (arith, e))

  -- A poll that finds nothing changes nothing.
  poll-idle : (w : World LocalQueue) → (poll_once x 10 30 w).0 ≡ 0 → (poll_once x 10 30 w).1 ≡ w
  unfolding poll_once
  poll-idle w =
      process_all-none (x.queue.receive 10 30 w.queue) w (rw local (receive-none 10 30 w.queue))

  -- What waits is found, and where none waits nothing is found.
  poll-NoneWaits :
      (w : World LocalQueue) → AllDue w.queue → (poll_once x 10 30 w).0 ≡ 0 → NoneWaits w.queue
  unfolding poll_once
  poll-NoneWaits w d e = receive-NoneWaits 9 30 w.queue d (
      length-nil (receive 10 30 w.queue).0
        (subst (λ (q : ReturningQueue LocalQueue). length (q.receive 10 30 w.queue).0 ≡ 0) local e))

  poll-nothing : (w : World LocalQueue) → NoneWaits w.queue → (poll_once x 10 30 w).0 ≡ 0
  unfolding poll_once
  poll-nothing w h =
      subst (λ (q : ReturningQueue LocalQueue). length (q.receive 10 30 w.queue).0 ≡ 0) (sym local)
        (ap length (receive-nothing 10 30 w.queue h))

  poll_same : (w : World LocalQueue) → NoneWaits w.queue → poll_once x 10 30 w ≡ (0, w)
  poll_same w h = let found = poll-nothing w h in λ i. (found i, poll-idle w found i)

  module _ (idle : ℕ) where
    -- What an iteration leaves: after a poll without messages the worker has slept.
    abbrev after : World LocalQueue → World LocalQueue
    after w =
        if nat_eq (poll_once x 10 30 w).0 0
        then asleep idle (poll_once x 10 30 w).1
        else (poll_once x 10 30 w).1

    -- The number of the messages that the iterations handle.
    abbrev pub handled : ℕ → World LocalQueue → ℕ
    handled zero w = 0
    handled (suc n) w = (poll_once x 10 30 w).0 + handled n (after w)

    asleep-Has : (k : ℕ) (w : World LocalQueue) → Has k w.queue → Has k (asleep idle w).queue
    unfolding step
    asleep-Has k w h = record {
      positive = h.positive;
      valid = step-IsValid w.queue (waits idle) h.positive h.valid;
      due = step-AllDue w.queue (waits idle) h.due;
      budget = h.budget;
    }

    -- One iteration handles some messages, and leaves the deliveries that they have not spent.
    after-Has :
        (k : ℕ) (w : World LocalQueue)
        → Has k w.queue
        → (j : ℕ) × Has j (after w).queue × ((poll_once x 10 30 w).0 + j ≡ k)
    after-Has k w h =
        let (j, has, e) = poll-Has w h.positive h.valid h.due in
        (
          j,
          elim (Bool-cases (nat_eq (poll_once x 10 30 w).0 0)) [
            | inl i ↦ rw i (asleep-Has j (poll_once x 10 30 w).1 has)
            | inr i ↦ rw i has
          ],
          omega (arith, h.budget, e),
        )

    after-NoneWaits : (w : World LocalQueue) → NoneWaits w.queue → NoneWaits (after w).queue
    after-NoneWaits w h = rw (poll_same w h) h

    abbrev loop : ℕ → ℕ → World LocalQueue → ℕ × World LocalQueue
    loop n sleeps w = run_forever (poll_of x) (asleep idle) (runs n) sleeps w

    loop-NoneWaits :
        (n sleeps : ℕ) (w : World LocalQueue)
        → NoneWaits w.queue
        → NoneWaits (loop n sleeps w).1.queue
    unfolding run_forever
    loop-NoneWaits zero sleeps w h = h
    loop-NoneWaits (suc n) sleeps w h =
        loop-NoneWaits n (slept (poll_once x 10 30 w).0 sleeps) (after w) (after-NoneWaits w h)

    -- Once the loop has polled as often as deliveries were left, none waits.
    loop-drained :
        (n sleeps k : ℕ) (w : World LocalQueue)
        → Has k w.queue
        → k ≤ n
        → NoneWaits (loop n sleeps w).1.queue
    unfolding run_forever
    loop-drained zero sleeps k w h le =
        let (j, has, e) = after-Has k w h in poll-NoneWaits w h.due (omega (arith, e, le))
    loop-drained (suc n) sleeps k w h le =
        let (j, has, e) = after-Has k w h in
        elim (dec_lt 0 (poll_once x 10 30 w).0) [
          | yes some_found ↦
              loop-drained n (slept (poll_once x 10 30 w).0 sleeps) j (after w) has
                (omega (arith, e, le, some_found))
          | no none_found ↦
              loop-NoneWaits n (slept (poll_once x 10 30 w).0 sleeps) (after w)
                (after-NoneWaits w (poll-NoneWaits w h.due (omega (arith, none_found))))
        ]

    -- An iteration handles a message or sleeps, and the deliveries that are spent are handled.
    loop-counts :
        (n sleeps k : ℕ) (w : World LocalQueue)
        → Has k w.queue
        → (handled n w + left (loop n sleeps w).1.queue ≡ k)
          × (sleeps + n ≤ (loop n sleeps w).0 + handled n w)
    unfolding run_forever
    loop-counts zero sleeps k w h = (omega (arith, h.budget), omega arith)
    loop-counts (suc n) sleeps k w h =
        let (j, has, e) = after-Has k w h in
        let (spent, slow) = loop-counts n (slept (poll_once x 10 30 w).0 sleeps) j (after w) has in
        (omega (arith, spent, e), omega (arith, slow, slept-counts (poll_once x 10 30 w).0 sleeps))

    -- The loop uses up the deliveries that are left and then is idle: over a valid local queue whose
    -- available rows are visible already, and whatever the tools do and however long a sleep takes,
    -- once it has polled at least as often as deliveries were left at the start, the number of
    -- handled messages and the deliveries still left add up to those left at the start, every
    -- further poll, at any later time, finds no message and leaves database and queue as they are,
    -- and all but at most that many iterations have slept.
    pub run_forever-IsDrained :
        (n later : ℕ) (w : World LocalQueue)
        → 0 < w.queue.max_delivery
        → IsValid w.queue
        → AllDue w.queue
        → left w.queue ≤ n
        → (handled n w + left (run_forever (poll_of x) (asleep idle) (runs n) 0 w).1.queue
            ≡ left w.queue)
          × (poll_once x 10 30 (asleep later (run_forever (poll_of x) (asleep idle) (runs n) 0 w).1)
              ≡ (0, asleep later (run_forever (poll_of x) (asleep idle) (runs n) 0 w).1))
          × (n ≤ (run_forever (poll_of x) (asleep idle) (runs n) 0 w).0 + left w.queue)
    run_forever-IsDrained n later w positive valid due le =
        let h : Has (left w.queue) w.queue = record {
          positive = positive;
          valid = valid;
          due = due;
          budget = refl;
        } in
        let (spent, slow) = loop-counts n 0 (left w.queue) w h in
        (
          spent,
          poll_same (asleep later (loop n 0 w).1) (loop-drained n 0 (left w.queue) w h le),
          omega (arith, slow, spent),
        )
