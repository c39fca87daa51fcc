-- ===== src/Worker/Lifecycle.antt =====
-- The life of a row of the local queue, under the workers of apps/worker/worker.py.
use nervora.Base.{
  ℕ, zero, suc, ◌+◌, ◌<◌, String, true, List, [], ◌∷◌, ◌≡◌, ◌≢◌, refl, sym, subst, ◌∙◌, Option,
  some, All, All-item, arith, nat_eq, nat_eq_iff, leb, Bool-cases, inl, inr,
}
use nervora.Servicebus.Interface.{Message}
use nervora.Servicebus.Row.{Status, available, locked, completed, is_available, QueueMessage}
use nervora.Servicebus.Local.{
  LocalQueue, local_queue, publish, receive, claim, lock, eligible, complete, abandon, abandon_row,
  dead_letter,
}
use nervora.Servicebus.Local.Calls.{Call, completes, abandons, dead_letters, step}
use nervora.Servicebus.Local.Invariant.{IsValid, id-abandon_row}
use nervora.Servicebus.Local.Delivery.{row_at}
use nervora.Servicebus.Local.Locks.{row_at-append, row_at-settled, row_at-settle_ne}
use nervora.Worker.{Worker}
use nervora.Worker.Fleet
use nervora.Worker.Fleet.{Held, System, Step, Reach, here, more}
use nervora.Worker.Holding.{process-SettledBy, IsLocked, Settles}
use nervora.Worker.Exclusive.{IsExclusive, done_same, Reach-IsExclusive}

-- What may become of a row in one step of the system, where `max` deliveries are allowed: a message is
-- received, and settled in one of four ways. The id, the queue and the body stay.
pub data Moves (max : ℕ) (r : QueueMessage) : QueueMessage → Type 0 where
  stays : Moves max r r
  received :
      (until : ℕ)
      → r.status ≡ available
      → Moves max r
          (record r { status = locked; delivery_count = r.delivery_count + 1; visible_at = until })
  succeeded : r.status ≡ locked → Moves max r (record r { status = completed })
  returned :
      (now : ℕ)
      → r.status ≡ locked
      → r.delivery_count < max
      → Moves max r (record r { status = available; visible_at = now })
  given_up :
      (reason : Option String)
      → r.status ≡ locked
      → Moves max r (record r { status = Status.dead_letter; dead_letter_reason = reason })

-- The row under a handle has moved.
abbrev pub MovesTo : ℕ → ℕ → QueueMessage → List QueueMessage → Type 0
MovesTo max handle r rows = (r' : QueueMessage) × (row_at handle rows ≡ some r') × Moves max r r'

status_of : (s : Status) → is_available s ≡ true → s ≡ available
status_of available e = refl
status_of _ e = cc

eligible-available :
    (queue : String) (now : ℕ) (r : QueueMessage)
    → eligible queue now r ≡ true
    → r.status ≡ available
unfolding eligible
eligible-available queue now r e = status_of r.status (ground arith)

abandon_row-Moves :
    (max now : ℕ) (r : QueueMessage) → r.status ≡ locked → Moves max r (abandon_row max now r)
unfolding abandon_row
abandon_row-Moves max now r l = elim (Bool-cases (leb max r.delivery_count)) [
  | inl e ↦ rw e (given_up (some "max delivery count exceeded") l)
  | inr e ↦ rw e (returned now l (ground arith))
]

same_row : {r r' : QueueMessage} → some r ≡ some r' → r ≡ r'
same_row e = cc

MovesTo-cons :
    (max handle : ℕ) (row row' r : QueueMessage) (rows after : List QueueMessage)
    → row'.id ≡ row.id
    → Moves max row row'
    → row_at handle (row ∷ rows) ≡ some r
    → (row_at handle rows ≡ some r → MovesTo max handle r after)
    → MovesTo max handle r (row' ∷ after)
unfolding row_at
MovesTo-cons max handle row row' r rows after same moves at rest =
    elim (Bool-cases (nat_eq row.id handle)) [
      | inl e ↦ (
        row',
        rw (same, e) refl,
        subst (λ (q : QueueMessage). Moves max q row') (same_row (rw e at at)) moves,
      )
      | inr e ↦ let (r', at', moves') = rest (rw e at at) in (r', rw (same, e) at', moves')
    ]

claim-MovesTo :
    (queue : String) (now timeout n max handle : ℕ) (rows : List QueueMessage) (r : QueueMessage)
    → row_at handle rows ≡ some r
    → MovesTo max handle r (claim queue now timeout n rows).1
unfolding claim lock
claim-MovesTo queue now timeout zero max handle rows r at = (r, at, stays)
claim-MovesTo queue now timeout (suc n) max handle [] r at = (r, at, stays)
claim-MovesTo queue now timeout (suc n) max handle (row ∷ rows) r at =
    elim (Bool-cases (eligible queue now row)) [
      | inl e ↦
          rw (e, claim)
            (MovesTo-cons max handle row (lock now timeout row) r rows
              (claim queue now timeout n rows).1 refl
              (received (now + timeout) (eligible-available queue now row e)) at
              (claim-MovesTo queue now timeout n max handle rows r))
      | inr e ↦
          rw (e, claim)
            (MovesTo-cons max handle row row r rows (claim queue now timeout (suc n) rows).1 refl
              stays at (claim-MovesTo queue now timeout (suc n) max handle rows r))
    ]

-- A call that settles the message of a locked row.
settle-MovesTo :
    (q : LocalQueue) (m : Message) (c : Call) (r : QueueMessage)
    → Settles m c
    → row_at m.handle q.rows ≡ some r
    → r.status ≡ locked
    → MovesTo q.max_delivery m.handle r (step q c).rows
unfolding step complete abandon dead_letter
settle-MovesTo q m (completes n) r s at l =
    rw s (_, row_at-settled m.handle q.rows r _ (λ row. refl) at, succeeded l)
settle-MovesTo q m (abandons n) r s at l = rw s (
  abandon_row q.max_delivery q.now r,
  row_at-settled m.handle q.rows r (abandon_row q.max_delivery q.now)
      (id-abandon_row q.max_delivery q.now) at,
  abandon_row-Moves q.max_delivery q.now r l,
)
settle-MovesTo q m (dead_letters n reason) r s at l =
    rw s (_, row_at-settled m.handle q.rows r _ (λ row. refl) at, given_up _ l)
settle-MovesTo q m _ r s at l = absurd s

-- A row under another handle stays.
settle-other :
    (q : LocalQueue) (m : Message) (c : Call) (handle : ℕ)
    → Settles m c
    → m.handle ≢ handle
    → row_at handle (step q c).rows ≡ row_at handle q.rows
unfolding step complete abandon dead_letter
settle-other q m (completes n) handle s ne =
    row_at-settle_ne handle n.handle _ q.rows (λ row. refl) (rw s ne)
settle-other q m (abandons n) handle s ne =
    row_at-settle_ne handle n.handle _ q.rows (id-abandon_row q.max_delivery q.now) (rw s ne)
settle-other q m (dead_letters n reason) handle s ne =
    row_at-settle_ne handle n.handle _ q.rows (λ row. refl) (rw s ne)
settle-other q m _ handle s ne = absurd s

module _ (x : Worker LocalQueue) (local : x.queue ≡ local_queue) (handle : ℕ)
    (r : QueueMessage) where
  -- The row of the message that is processed, or another.
  processed-MovesTo :
      (q : LocalQueue) (m : Message) (c : Call)
      → Settles m c
      → ((row : QueueMessage) × (row_at m.handle q.rows ≡ some row) × (row.status ≡ locked))
      → row_at handle q.rows ≡ some r
      → MovesTo q.max_delivery handle r (step q c).rows
  processed-MovesTo q m c settles (row, found, l) at = elim (Bool-cases (nat_eq m.handle handle)) [
    | inl e ↦
        let same = (nat_eq_iff m.handle handle).0 e in
        let found' = subst (λ (n : ℕ). row_at n q.rows ≡ some row) same found in
        let mine = subst (λ (n : ℕ). row_at n q.rows ≡ some r) (sym same) at in
        subst (λ (n : ℕ). MovesTo q.max_delivery n r (step q c).rows) same
          (settle-MovesTo q m c r settles mine
            (subst (λ (row' : QueueMessage). row'.status ≡ locked) (same_row (sym found' ∙ at)) l))
    | inr e ↦ (
      r,
      settle-other q m c handle settles (λ same. cc (e, (nat_eq_iff m.handle handle).1 same)) ∙ at,
      stays,
    )
  ]

  Step-MovesTo :
      {s t : System}
      → IsExclusive s
      → Step x s t
      → row_at handle s.queue.rows ≡ some r
      → MovesTo s.queue.max_delivery handle r t.queue.rows
  unfolding publish receive
  Step-MovesTo {s = s} v (Fleet.publishes body q e) at =
      subst (λ (q' : LocalQueue). MovesTo s.queue.max_delivery handle r q'.rows) (done_same e)
        (r, row_at-append handle s.queue.rows r _ at, stays)
  Step-MovesTo v (Fleet.waits seconds) at = (r, at, stays)
  Step-MovesTo {s = s} v (Fleet.receives worker n timeout) at =
      claim-MovesTo s.queue.queue s.queue.now timeout n s.queue.max_delivery handle s.queue.rows r
        at
  Step-MovesTo {s = s} v (Fleet.processes worker m before after db e) at =
      let mine : Held = record { worker = worker; message = m } in
      let (c, settles, q) = process-SettledBy x local m (record { db = db; queue = s.queue }) in
      subst (λ (q' : LocalQueue). MovesTo s.queue.max_delivery handle r q'.rows) (sym q)
        (processed-MovesTo s.queue m c settles
          (All-item (IsLocked s.queue) before mine after (subst (All (IsLocked s.queue)) e v.locks))
          at)
  Step-MovesTo v (Fleet.dies worker m before after e) at = (r, at, stays)

  -- The local queue under its workers is a state machine of rows. Workers with one local queue start
  -- with a valid queue, a positive `max_delivery`, and nothing in hand; after any history, each
  -- single step of a worker, the gateway or the clock leaves a row as it is, or locks an available
  -- one with one more delivery, or makes a locked one completed, dead-lettered, or, while it has
  -- deliveries left, available again. The id, the queue and the body of a row never change.
  pub Step-IsMove :
      {s t u : System}
      → 0 < s.queue.max_delivery
      → IsValid s.queue
      → s.held ≡ []
      → Reach x s t
      → row_at handle t.queue.rows ≡ some r
      → Step x t u
      → MovesTo t.queue.max_delivery handle r u.queue.rows
  Step-IsMove pos valid free before at st =
      Step-MovesTo (Reach-IsExclusive x local pos valid free before) st at
