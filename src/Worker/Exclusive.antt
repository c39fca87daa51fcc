-- ===== src/Worker/Exclusive.antt =====
-- That no two workers of apps/worker/worker.py hold one message of the local queue.
use nervora.Base.{
  ℕ, ◌<◌, List, [], ◌∷◌, ◌++◌, ◌≡◌, ◌≢◌, refl, sym, subst, arith, Member, All, All-map, All-append,
  All-remove,
}
use nervora.Servicebus.Interface.{Message, done}
use nervora.Servicebus.Local.{LocalQueue, local_queue, publish, receive, lock}
use nervora.Servicebus.Local.Calls.{
  Call, publishes, receives, completes, abandons, dead_letters, waits, step,
}
use nervora.Servicebus.Local.Invariant.{IsValid, step-IsValid, max_delivery-step}
use nervora.Servicebus.Local.Delivery.{handles, row_at-claim}
use nervora.Servicebus.Local.Locks.{not-received_locked, step_locked, Leaves}
use nervora.Audit.Models.{Db}
use nervora.Worker.{Worker, process}
use nervora.Worker.Fleet
use nervora.Worker.Fleet.{Held, System, taken_by, Step, Reach, here, more}
use nervora.Worker.Holding.{
  Settles, process-SettledBy, Free, Distinct, IsLocked, Distinct-append, Distinct-remove,
  claim-Distinct, taken-Members,
}

-- The queue is valid, and the held messages are different ones, each of them locked.
pub record IsExclusive (s : System) : Type 0 where
  pub positive : 0 < s.queue.max_delivery
  pub valid : IsValid s.queue
  pub distinct : Distinct s.held
  pub locks : All (IsLocked s.queue) s.held

-- A call that settles none of the held messages keeps them locked.
step-locks :
    (q : LocalQueue) (c : Call) (hs : List Held)
    → All (λ h. Leaves h.message.handle c) hs
    → All (IsLocked q) hs
    → All (IsLocked (step q c)) hs
step-locks q c [] l a = tt
step-locks q c (h ∷ hs) l ((r, at, s), a) =
    ((r, step_locked h.message.handle q c r l.0 s at, s), step-locks q c hs l.1 a)

-- A call that settles one message leaves those with another handle.
pub Settles-Leaves :
    (m : Message) (c : Call) (handle : ℕ) → Settles m c → handle ≢ m.handle → Leaves handle c
Settles-Leaves m (completes n) handle e ne = λ same. ne (ground arith)
Settles-Leaves m (abandons n) handle e ne = λ same. ne (ground arith)
Settles-Leaves m (dead_letters n reason) handle e ne = λ same. ne (ground arith)
Settles-Leaves m (publishes body) handle e ne = absurd e
Settles-Leaves m (receives n timeout) handle e ne = absurd e
Settles-Leaves m (waits n) handle e ne = absurd e

-- A call that settles nothing at all.
free_call :
    (q : LocalQueue) (c : Call) (hs : List Held)
    → ((handle : ℕ) → Leaves handle c)
    → All (λ h. Leaves h.message.handle c) hs
free_call q c [] f = tt
free_call q c (h ∷ hs) f = (f h.message.handle, free_call q c hs f)

kept :
    (s : System) (c : Call) (hs : List Held)
    → IsExclusive s
    → Distinct hs
    → All (IsLocked s.queue) hs
    → All (λ h. Leaves h.message.handle c) hs
    → IsExclusive (record { queue = step s.queue c; held = hs })
kept s c hs v d a l = record {
  positive = rw max_delivery-step v.positive;
  valid = step-IsValid s.queue c v.positive v.valid;
  distinct = d;
  locks = step-locks s.queue c hs l a;
}

module _ (s : System) (worker n timeout : ℕ) (v : IsExclusive s) where
  abbrev batch : List Held
  batch = taken_by worker (receive n timeout s.queue).0

  batch-Distinct : Distinct batch
  unfolding receive
  batch-Distinct =
      (claim-Distinct s.queue.queue worker s.queue.now timeout n 0 s.queue.next_id s.queue.rows
        v.valid.ids).0

  batch-IsLocked : All (IsLocked (receive n timeout s.queue).1) batch
  unfolding receive lock
  batch-IsLocked =
      All-map _ _
        (λ h i.
          let (r, _, _, at) =
            row_at-claim s.queue.queue s.queue.now timeout n 0 s.queue.next_id h.message.handle
              s.queue.rows v.valid.ids i in
          (lock s.queue.now timeout r, at, refl))
        batch (taken-Members worker (receive n timeout s.queue).0)

  batch-Free : All (λ h. Free h.message.handle s.held) batch
  batch-Free =
      All-map _ _
        (λ h i.
          All-map _ _
            (λ k (r, at, e) same.
              not-received_locked k.message.handle s.queue n timeout r v.valid e at (
                subst (λ handle. Member handle (handles (receive n timeout s.queue).0)) (sym same)
                  i))
            s.held v.locks)
        batch (taken-Members worker (receive n timeout s.queue).0)

  receives-IsExclusive :
      IsExclusive (record { queue = (receive n timeout s.queue).1; held = batch ++ s.held })
  unfolding step receive
  receives-IsExclusive = record {
    positive = v.positive;
    valid = step-IsValid s.queue (receives n timeout) v.positive v.valid;
    distinct = Distinct-append batch s.held batch-Distinct v.distinct batch-Free;
    locks = All-append _ batch s.held batch-IsLocked (
        step-locks s.queue (receives n timeout) s.held
          (free_call s.queue (receives n timeout) s.held (λ handle. tt)) v.locks);
  }

pub done_same : {q q' : LocalQueue} → done q ≡ done q' → q ≡ q'
done_same e = cc

module _ (x : Worker LocalQueue) (local : x.queue ≡ local_queue) where
  processes-IsExclusive :
      (s : System) (worker : ℕ) (m : Message) (before after : List Held) (db : Db)
      → s.held ≡ before ++ record { worker = worker; message = m } ∷ after
      → IsExclusive s
      → IsExclusive (record {
        queue = (process x m (record { db = db; queue = s.queue })).queue;
        held = before ++ after;
      })
  processes-IsExclusive s worker m before after db e v =
      let mine : Held = record { worker = worker; message = m } in
      let (d, others) = Distinct-remove before mine after (subst Distinct e v.distinct) in
      let locks =
        All-remove (IsLocked s.queue) before mine after
          (subst (All (IsLocked s.queue)) e v.locks) in
      let (c, settles, q) = process-SettledBy x local m (record { db = db; queue = s.queue }) in
      subst (λ (queue : LocalQueue). IsExclusive (record { queue = queue; held = before ++ after }))
        (sym q)
        (kept s c (before ++ after) v d locks (
          All-map _ _ (λ h ne. Settles-Leaves m c h.message.handle settles ne) (before ++ after)
            others))

  pub Step-IsExclusive : {s t : System} → Step x s t → IsExclusive s → IsExclusive t
  unfolding step publish
  Step-IsExclusive {s = s} (Fleet.publishes body q e) v =
      subst (λ (queue : LocalQueue). IsExclusive (record { queue = queue; held = s.held }))
        (done_same e)
        (kept s (publishes body) s.held v v.distinct v.locks
          (free_call s.queue (publishes body) s.held (λ handle. tt)))
  Step-IsExclusive {s = s} (Fleet.waits seconds) v =
      kept s (waits seconds) s.held v v.distinct v.locks
        (free_call s.queue (waits seconds) s.held (λ handle. tt))
  Step-IsExclusive {s = s} (Fleet.receives worker n timeout) v =
      receives-IsExclusive s worker n timeout v
  Step-IsExclusive {s = s} (Fleet.processes worker m before after db e) v =
      processes-IsExclusive s worker m before after db e v
  Step-IsExclusive {s = s} (Fleet.dies worker m before after e) v =
      let mine : Held = record { worker = worker; message = m } in
      record {
        positive = v.positive;
        valid = v.valid;
        distinct = (Distinct-remove before mine after (subst Distinct e v.distinct)).0;
        locks =
            All-remove (IsLocked s.queue) before mine after
              (subst (All (IsLocked s.queue)) e v.locks);
      }

  -- Workers with one local queue start with a valid queue, a positive `max_delivery`, and nothing in
  -- hand. Whatever they, the gateway and the clock then do, in any order, and whenever workers are
  -- killed: no two of the messages that are held have the same handle, be it by one worker or by
  -- two, each of them is locked in the queue, and the queue stays valid, so that no row has had more
  -- than `max_delivery` deliveries.
  pub Reach-IsExclusive :
      {s t : System}
      → 0 < s.queue.max_delivery
      → IsValid s.queue
      → s.held ≡ []
      → Reach x s t
      → IsExclusive t
  Reach-IsExclusive {s = s} pos valid none here = record {
    positive = pos;
    valid = valid;
    distinct = subst Distinct (sym none) tt;
    locks = subst (All (IsLocked s.queue)) (sym none) tt;
  }
  Reach-IsExclusive pos valid none (more r st) =
      Step-IsExclusive st (Reach-IsExclusive pos valid none r)
