-- ===== src/Servicebus/Local/Invariant.antt =====
-- The invariant of the local queue (packages/servicebus/local.py): the ids ascend, and no row is
-- delivered more often than `max_delivery_count` allows.
use nervora.Base.{
  ℕ, zero, suc, ◌+◌, ◌≤◌, ◌<◌, String, true, List, [], ◌∷◌, ◌++◌, ◌≡◌, refl, arith, All, Bool-cases,
  inl, inr, nat_eq, leb,
}
use nervora.Servicebus.Row.{Status, available, is_available, QueueMessage}
use nervora.Servicebus.Local.Calls.{
  Call, publishes, receives, completes, abandons, dead_letters, waits, step, run, empty,
}
use nervora.Servicebus.Local.{
  LocalQueue, publish, eligible, lock, claim, receive, settle, complete, abandon_row, abandon,
  dead_letter,
}

-- The deliveries that a row may have had: one is left while it can still be received.
abbrev pub CountValid : ℕ → Status → ℕ → Type 0
CountValid max available count = count < max
CountValid max _ count = count ≤ max

abbrev pub RowValid : ℕ → QueueMessage → Type 0
RowValid max row = CountValid max row.status row.delivery_count

-- The ids ascend from `lo` and stay below `next`.
abbrev pub Ascends : ℕ → ℕ → List QueueMessage → Type 0
Ascends lo next [] = lo ≤ next
Ascends lo next (row ∷ rows) = (lo ≤ row.id) × Ascends (suc row.id) next rows

pub record IsValid (q : LocalQueue) : Type 0 where
  pub ids : Ascends 0 q.next_id q.rows
  pub counts : All (RowValid q.max_delivery) q.rows

le-of-Ascends : (lo next : ℕ) (rows : List QueueMessage) → Ascends lo next rows → lo ≤ next
le-of-Ascends lo next [] h = h
le-of-Ascends lo next (row ∷ rows) h = omega (arith, le-of-Ascends (suc row.id) next rows h.1)

append-Ascends :
    (lo next : ℕ) (rows : List QueueMessage) (row : QueueMessage)
    → row.id ≡ next
    → Ascends lo next rows
    → Ascends lo (suc next) (rows ++ row ∷ [])
append-Ascends lo next [] row e h = omega arith
append-Ascends lo next (r ∷ rows) row e h = (h.0, append-Ascends (suc r.id) next rows row e h.1)

append-All :
    (max : ℕ) (rows : List QueueMessage) (row : QueueMessage)
    → All (RowValid max) rows
    → RowValid max row
    → All (RowValid max) (rows ++ row ∷ [])
append-All max [] row h v = (v, tt)
append-All max (r ∷ rows) row h v = (h.0, append-All max rows row h.1 v)

claim-Ascends :
    (queue : String) (now timeout n lo next : ℕ) (rows : List QueueMessage)
    → Ascends lo next rows
    → Ascends lo next (claim queue now timeout n rows).1
unfolding claim lock
claim-Ascends queue now timeout zero lo next rows h = h
claim-Ascends queue now timeout (suc n) lo next [] h = h
claim-Ascends queue now timeout (suc n) lo next (row ∷ rows) h = ground (
  arith,
  claim-Ascends queue now timeout n (suc row.id) next rows h.1,
  claim-Ascends queue now timeout (suc n) (suc row.id) next rows h.1,
)

available-CountValid :
    (max count : ℕ) (status : Status)
    → is_available status ≡ true
    → CountValid max status count
    → count + 1 ≤ max
available-CountValid max count available e h = omega arith
available-CountValid max count _ e h = cc

pub lock-RowValid :
    (queue : String) (now timeout max : ℕ) (row : QueueMessage)
    → eligible queue now row ≡ true
    → RowValid max row
    → RowValid max (lock now timeout row)
unfolding eligible lock
lock-RowValid queue now timeout max row e v =
    available-CountValid max row.delivery_count row.status (ground arith) v

claim-RowValid :
    (queue : String) (now timeout n max : ℕ) (rows : List QueueMessage)
    → All (RowValid max) rows
    → All (RowValid max) (claim queue now timeout n rows).1
unfolding claim
claim-RowValid queue now timeout zero max rows h = h
claim-RowValid queue now timeout (suc n) max [] h = tt
claim-RowValid queue now timeout (suc n) max (row ∷ rows) h =
    elim (Bool-cases (eligible queue now row)) [
      | inl e ↦
          rw (e, claim)
            (
              lock-RowValid queue now timeout max row e h.0,
              claim-RowValid queue now timeout n max rows h.1,
            )
      | inr e ↦ rw (e, claim) (h.0, claim-RowValid queue now timeout (suc n) max rows h.1)
    ]

-- Fields of a row may change, but not its id.
settle-Ascends :
    (handle lo next : ℕ) (f : QueueMessage → QueueMessage) (rows : List QueueMessage)
    → ((row : QueueMessage) → (f row).id ≡ row.id)
    → Ascends lo next rows
    → Ascends lo next (settle handle f rows)
unfolding settle
settle-Ascends handle lo next f [] keeps h = h
settle-Ascends handle lo next f (row ∷ rows) keeps h =
    ground (arith, keeps row, settle-Ascends handle (suc row.id) next f rows keeps h.1)

settle-RowValid :
    (handle max : ℕ) (f : QueueMessage → QueueMessage) (rows : List QueueMessage)
    → ((row : QueueMessage) → RowValid max row → RowValid max (f row))
    → All (RowValid max) rows
    → All (RowValid max) (settle handle f rows)
unfolding settle
settle-RowValid handle max f [] keeps h = tt
settle-RowValid handle max f (row ∷ rows) keeps h = elim (Bool-cases (nat_eq row.id handle)) [
  | inl e ↦ rw e (keeps row h.0, h.1)
  | inr e ↦ rw e (h.0, settle-RowValid handle max f rows keeps h.1)
]

-- No status asks for more than the available one does.
count-le_max : (max count : ℕ) (status : Status) → CountValid max status count → count ≤ max
count-le_max max count available h = omega arith
count-le_max max count _ h = h

abandon_row-RowValid :
    (max now : ℕ) (row : QueueMessage) → RowValid max row → RowValid max (abandon_row max now row)
unfolding abandon_row
abandon_row-RowValid max now row v = elim (Bool-cases (leb max row.delivery_count)) [
  | inl e ↦ rw e (count-le_max max row.delivery_count row.status v)
  | inr e ↦ rw e (ground arith)
]

pub id-abandon_row : (max now : ℕ) (row : QueueMessage) → (abandon_row max now row).id ≡ row.id
unfolding abandon_row
id-abandon_row max now row = ground arith

-- Every call keeps the ids ascending and the deliveries within `max_delivery`, of a message that
-- was already settled and of an unknown handle too.
pub step-IsValid : (q : LocalQueue) (c : Call) → 0 < q.max_delivery → IsValid q → IsValid (step q c)
unfolding step publish receive complete abandon dead_letter
step-IsValid q (publishes body) pos v = record {
  ids = append-Ascends 0 q.next_id q.rows _ refl v.ids;
  counts = append-All q.max_delivery q.rows _ v.counts (omega arith);
}
step-IsValid q (receives n timeout) pos v = record {
  ids = claim-Ascends q.queue q.now timeout n 0 q.next_id q.rows v.ids;
  counts = claim-RowValid q.queue q.now timeout n q.max_delivery q.rows v.counts;
}
step-IsValid q (completes m) pos v = record {
  ids = settle-Ascends m.handle 0 q.next_id _ q.rows (λ row. refl) v.ids;
  counts =
      settle-RowValid m.handle q.max_delivery _ q.rows
        (λ row h. count-le_max q.max_delivery row.delivery_count row.status h) v.counts;
}
step-IsValid q (abandons m) pos v = record {
  ids = settle-Ascends m.handle 0 q.next_id _ q.rows (id-abandon_row q.max_delivery q.now) v.ids;
  counts =
      settle-RowValid m.handle q.max_delivery _ q.rows (abandon_row-RowValid q.max_delivery q.now)
        v.counts;
}
step-IsValid q (dead_letters m reason) pos v = record {
  ids = settle-Ascends m.handle 0 q.next_id _ q.rows (λ row. refl) v.ids;
  counts =
      settle-RowValid m.handle q.max_delivery _ q.rows
        (λ row h. count-le_max q.max_delivery row.delivery_count row.status h) v.counts;
}
step-IsValid q (waits n) pos v = record { ids = v.ids; counts = v.counts }

pub max_delivery-step : (q : LocalQueue) (c : Call) → (step q c).max_delivery ≡ q.max_delivery
unfolding step publish receive complete abandon dead_letter
max_delivery-step q (publishes body) = refl
max_delivery-step q _ = refl

pub run-IsValid :
    (q : LocalQueue) (cs : List Call) → 0 < q.max_delivery → IsValid q → IsValid (run q cs)
unfolding run
run-IsValid q [] pos v = v
run-IsValid q (c ∷ cs) pos v =
    run-IsValid (step q c) cs (rw max_delivery-step pos) (step-IsValid q c pos v)

-- After any calls on an empty queue with a positive `max_delivery`, with any handles and at any
-- times, the ids ascend and every row has had at most `max_delivery` deliveries, fewer while it
-- is available.
pub run-empty-IsValid :
    (queue : String) (max_delivery now : ℕ) (cs : List Call)
    → 0 < max_delivery
    → IsValid (run (empty queue max_delivery now) cs)
unfolding empty
run-empty-IsValid queue max_delivery now cs pos =
    run-IsValid (empty queue max_delivery now) cs pos (record { ids = omega arith; counts = tt })
