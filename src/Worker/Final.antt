-- ===== src/Worker/Final.antt =====
-- Rows of the local queue that are done with, under the workers of apps/worker/worker.py.
use nervora.Base.{
  ℕ, ◌<◌, Bool, true, false, [], ◌≡◌, ◌≢◌, sym, subst, some, All, All-map, All-item, arith,
}
use nervora.Servicebus.Row.{Status, completed, is_available, QueueMessage}
use nervora.Servicebus.Local.{LocalQueue, local_queue, publish, receive}
use nervora.Servicebus.Local.Calls.{Call, publishes, receives, step}
use nervora.Servicebus.Local.Invariant.{IsValid}
use nervora.Servicebus.Local.Delivery.{row_at}
use nervora.Servicebus.Local.Locks.{Leaves, step_unavailable}
use nervora.Worker.{Worker}
use nervora.Worker.Fleet
use nervora.Worker.Fleet.{Held, System, Step, Reach, here, more}
use nervora.Worker.Holding.{process-SettledBy, IsLocked}
use nervora.Worker.Exclusive.{
  IsExclusive, Settles-Leaves, done_same, Step-IsExclusive, Reach-IsExclusive,
}

abbrev pub is_final : Status → Bool
is_final completed = true
is_final Status.dead_letter = true
is_final _ = false

is_final-unavailable : (s : Status) → is_final s ≡ true → is_available s ≡ false
is_final-unavailable s e = ground arith

-- A held message is locked, so the final row is another.
held-other :
    (q : LocalQueue) (handle : ℕ) (r : QueueMessage) (h : Held)
    → row_at handle q.rows ≡ some r
    → is_final r.status ≡ true
    → IsLocked q h
    → h.message.handle ≢ handle
held-other q handle r h at e (r', at', l) same =
    let at'' = subst (λ (n : ℕ). row_at n q.rows ≡ some r') same at' in
    ground (arith, at, at'', l, e)

module _ (x : Worker LocalQueue) (local : x.queue ≡ local_queue) (handle : ℕ) (r : QueueMessage)
    (final : is_final r.status ≡ true) where
  call_final :
      (q : LocalQueue) (c : Call)
      → Leaves handle c
      → row_at handle q.rows ≡ some r
      → row_at handle (step q c).rows ≡ some r
  call_final q c l at = step_unavailable handle q c r l (is_final-unavailable r.status final) at

  Step-final :
      {s t : System}
      → IsExclusive s
      → Step x s t
      → row_at handle s.queue.rows ≡ some r
      → row_at handle t.queue.rows ≡ some r
  unfolding step publish receive
  Step-final {s = s} v (Fleet.publishes body q e) at =
      subst (λ (q' : LocalQueue). row_at handle q'.rows ≡ some r) (done_same e)
        (call_final s.queue (publishes body) tt at)
  Step-final v (Fleet.waits seconds) at = at
  Step-final {s = s} v (Fleet.receives worker n timeout) at =
      call_final s.queue (receives n timeout) tt at
  Step-final {s = s} v (Fleet.processes worker m before after db e) at =
      let mine : Held = record { worker = worker; message = m } in
      let (c, settles, q) = process-SettledBy x local m (record { db = db; queue = s.queue }) in
      subst (λ (q' : LocalQueue). row_at handle q'.rows ≡ some r) (sym q)
        (call_final s.queue c
          (Settles-Leaves m c handle settles (λ same.
            held-other s.queue handle r mine at final
              (All-item (IsLocked s.queue) before mine after
                (subst (All (IsLocked s.queue)) e v.locks))
              (sym same)))
          at)
  Step-final v (Fleet.dies worker m before after e) at = at

  Reach-final :
      {t u : System}
      → IsExclusive t
      → Reach x t u
      → row_at handle t.queue.rows ≡ some r
      → IsExclusive u × (row_at handle u.queue.rows ≡ some r)
  Reach-final v here at = (v, at)
  Reach-final v (more reach st) at =
      let (v', at') = Reach-final v reach at in
      (Step-IsExclusive x local st v', Step-final v' st at')

  -- What is done with stays done with: workers with one local queue start with a valid queue, a
  -- positive `max_delivery`, and nothing in hand. Once a row is completed or dead-lettered, then
  -- whatever the workers, the gateway and the clock do next, in any order, and whenever workers are
  -- killed, the row stays as it is, and no worker holds its message.
  pub Reach-stays_final :
      {s t u : System}
      → 0 < s.queue.max_delivery
      → IsValid s.queue
      → s.held ≡ []
      → Reach x s t
      → row_at handle t.queue.rows ≡ some r
      → Reach x t u
      → (row_at handle u.queue.rows ≡ some r) × All (λ h. h.message.handle ≢ handle) u.held
  Reach-stays_final {u = u} pos valid none before at after =
      let (v, at') = Reach-final (Reach-IsExclusive x local pos valid none before) after at in
      (at', All-map _ _ (λ h l. held-other u.queue handle r h at' final l) u.held v.locks)
