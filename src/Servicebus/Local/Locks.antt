-- ===== src/Servicebus/Local/Locks.antt =====
-- How long a claim of the local queue (packages/servicebus/local.py) lasts.
use nervora.Base.{
  nat_eq_iff, ℕ, zero, suc, ◌<◌, String, false, List, [], ◌∷◌, ◌++◌, ◌≡◌, ◌≢◌, refl, arith, All,
  nat_eq, if◌then◌else◌, some, Member, ◌∙◌, ap,
}
use mathlib.Core.Option
use nervora.Servicebus.Row.{locked, is_available, QueueMessage}
use nervora.Servicebus.Local.{
  LocalQueue, publish, eligible, lock, claim, receive, settle, complete, abandon, dead_letter,
}
use nervora.Servicebus.Local.Invariant.{IsValid, run-IsValid, step-IsValid, id-abandon_row}
use nervora.Servicebus.Local.Calls.{
  Call, publishes, receives, completes, abandons, dead_letters, waits, step, run,
}
use nervora.Servicebus.Local.Delivery.{row_at, handles, row_at-claim}

module _ (handle : ℕ) where
  pub row_at-append :
      (rows : List QueueMessage) (r : QueueMessage) (more : List QueueMessage)
      → row_at handle rows ≡ some r
      → row_at handle (rows ++ more) ≡ some r
  unfolding row_at
  row_at-append [] r more e = cc
  row_at-append (row ∷ rows) r more e = ground (arith, row_at-append rows r more)

  -- What one settled handle does to the row under another, or under the same.
  pub row_at-settle :
      (other : ℕ) (f : QueueMessage → QueueMessage) (rows : List QueueMessage)
      → ((row : QueueMessage) → (f row).id ≡ row.id)
      → row_at handle (settle other f rows)
        ≡ (if nat_eq other handle then Option.map f (row_at handle rows) else row_at handle rows)
  unfolding row_at settle
  row_at-settle other f [] keeps = ground arith
  row_at-settle other f (row ∷ rows) keeps =
      ground (arith, keeps row, row_at-settle other f rows keeps)

  pub row_at-settled :
      (rows : List QueueMessage) (row : QueueMessage) (f : QueueMessage → QueueMessage)
      → ((r : QueueMessage) → (f r).id ≡ r.id)
      → row_at handle rows ≡ some row
      → row_at handle (settle handle f rows) ≡ some (f row)
  row_at-settled rows row f keeps e =
      ground (arith, row_at-settle handle f rows keeps, nat_eq_iff handle handle)

  pub row_at-settle_ne :
      (other : ℕ) (f : QueueMessage → QueueMessage) (rows : List QueueMessage)
      → ((row : QueueMessage) → (f row).id ≡ row.id)
      → other ≢ handle
      → row_at handle (settle other f rows) ≡ row_at handle rows
  row_at-settle_ne other f rows keeps ne = rw (row_at-settle other f rows keeps) (ground arith)

  -- A row that is not available is passed over by the select.
  not-eligible :
      (queue : String) (now : ℕ) (r : QueueMessage)
      → is_available r.status ≡ false
      → eligible queue now r ≡ false
  unfolding eligible
  not-eligible queue now r e = rw e (ground arith)

  pub row_at-claim_unavailable :
      (queue : String) (now timeout n : ℕ) (rows : List QueueMessage) (r : QueueMessage)
      → is_available r.status ≡ false
      → row_at handle rows ≡ some r
      → row_at handle (claim queue now timeout n rows).1 ≡ some r
  unfolding claim row_at lock
  row_at-claim_unavailable queue now timeout zero rows r s e = e
  row_at-claim_unavailable queue now timeout (suc n) [] r s e = e
  row_at-claim_unavailable queue now timeout (suc n) (row ∷ rows) r s e = ground (
    arith,
    not-eligible queue now row,
    row_at-claim_unavailable queue now timeout n rows r s,
    row_at-claim_unavailable queue now timeout (suc n) rows r s,
  )

  -- The call does not settle the row under `handle`.
  abbrev pub Leaves : Call → Type 0
  Leaves (completes m) = m.handle ≢ handle
  Leaves (abandons m) = m.handle ≢ handle
  Leaves (dead_letters m reason) = m.handle ≢ handle
  Leaves _ = Unit

  -- A row that is not available stays under a call that does not settle it.
  pub step_unavailable :
      (q : LocalQueue) (c : Call) (r : QueueMessage)
      → Leaves c
      → is_available r.status ≡ false
      → row_at handle q.rows ≡ some r
      → row_at handle (step q c).rows ≡ some r
  unfolding step publish receive complete abandon dead_letter
  step_unavailable q (publishes body) r l s e = row_at-append q.rows r _ e
  step_unavailable q (receives n timeout) r l s e =
      row_at-claim_unavailable q.queue q.now timeout n q.rows r s e
  step_unavailable q (completes m) r l s e = row_at-settle_ne m.handle _ q.rows (λ row. refl) l ∙ e
  step_unavailable q (abandons m) r l s e =
      row_at-settle_ne m.handle _ q.rows (id-abandon_row q.max_delivery q.now) l ∙ e
  step_unavailable q (dead_letters m reason) r l s e =
      row_at-settle_ne m.handle _ q.rows (λ row. refl) l ∙ e
  step_unavailable q (waits seconds) r l s e = e

  pub step_locked :
      (q : LocalQueue) (c : Call) (r : QueueMessage)
      → Leaves c
      → r.status ≡ locked
      → row_at handle q.rows ≡ some r
      → row_at handle (step q c).rows ≡ some r
  step_locked q c r l s e = step_unavailable q c r l (ap is_available s) e

  run_locked :
      (q : LocalQueue) (cs : List Call) (r : QueueMessage)
      → All Leaves cs
      → r.status ≡ locked
      → row_at handle q.rows ≡ some r
      → row_at handle (run q cs).rows ≡ some r
  unfolding run
  run_locked q [] r l s e = e
  run_locked q (c ∷ cs) r l s e = run_locked (step q c) cs r l.1 s (step_locked q c r l.0 s e)

  pub not-received_locked :
      (q : LocalQueue) (n timeout : ℕ) (r : QueueMessage)
      → IsValid q
      → r.status ≡ locked
      → row_at handle q.rows ≡ some r
      → ¬ Member handle (handles (receive n timeout q).0)
  unfolding receive
  not-received_locked q n timeout r v s e m =
      let (r', at, el, _) =
        row_at-claim q.queue q.now timeout n 0 q.next_id handle q.rows v.ids m in
      cc (not-eligible q.queue q.now r (ap is_available s), at, e, el)

  -- In a valid queue with a positive `max_delivery`, a locked row stays as it is, and is not
  -- received, after any calls that do not settle its handle. No lapse of time ends the lock: that
  -- its `visible_at` has passed makes no difference.
  pub locked_until_settled :
      (q : LocalQueue) (cs : List Call) (n timeout : ℕ) (r : QueueMessage)
      → 0 < q.max_delivery
      → IsValid q
      → row_at handle q.rows ≡ some r
      → r.status ≡ locked
      → All Leaves cs
      → (row_at handle (run q cs).rows ≡ some r)
        × (¬ Member handle (handles (receive n timeout (run q cs)).0))
  locked_until_settled q cs n timeout r pos v e s l =
      let at = run_locked q cs r l s e in
      (at, not-received_locked (run q cs) n timeout r (run-IsValid q cs pos v) s at)

  -- In a valid queue with a positive `max_delivery`, a received message is not received a second
  -- time, by this worker or another, after any calls that do not settle it.
  pub received_once :
      (q : LocalQueue) (cs : List Call) (n timeout m later : ℕ)
      → 0 < q.max_delivery
      → IsValid q
      → Member handle (handles (receive n timeout q).0)
      → All Leaves cs
      → ¬ Member handle (handles (receive m later (run (receive n timeout q).1 cs)).0)
  unfolding receive step lock
  received_once q cs n timeout m later pos v first l =
      let (r, _, _, at) =
        row_at-claim q.queue q.now timeout n 0 q.next_id handle q.rows v.ids first in
      (locked_until_settled (receive n timeout q).1 cs m later (lock q.now timeout r) pos
        (step-IsValid q (receives n timeout) pos v) at refl l).1
