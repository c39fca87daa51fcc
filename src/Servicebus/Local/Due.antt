-- ===== src/Servicebus/Local/Due.antt =====
-- Which rows of packages/servicebus/local.py wait, as time passes.
use nervora.Base.{
  ℕ, zero, suc, ◌+◌, ◌≤◌, String, true, false, ◌&&◌, List, [], ◌∷◌, ◌++◌, ◌==◌, ◌≡◌, refl, arith,
  All, nat_eq, Bool-cases, inl, inr,
}
use nervora.Servicebus.Row.{is_available, QueueMessage}
use nervora.Servicebus.Local.{
  LocalQueue, publish, eligible, lock, claim, receive, settle, complete, abandon_row, abandon,
  dead_letter,
}
use nervora.Servicebus.Local.Calls.{
  Call, publishes, receives, completes, abandons, dead_letters, waits, step,
}

-- A row that is available is visible by now.
abbrev pub RowDue : ℕ → QueueMessage → Type 0
RowDue now row = is_available row.status ≡ true → row.visible_at ≤ now

abbrev pub AllDue : LocalQueue → Type 0
AllDue q = All (RowDue q.now) q.rows

append-AllDue :
    (now : ℕ) (rows : List QueueMessage) (row : QueueMessage)
    → All (RowDue now) rows
    → RowDue now row
    → All (RowDue now) (rows ++ row ∷ [])
append-AllDue now [] row h d = (d, tt)
append-AllDue now (r ∷ rows) row h d = (h.0, append-AllDue now rows row h.1 d)

claim-AllDue :
    (queue : String) (now timeout n : ℕ) (rows : List QueueMessage)
    → All (RowDue now) rows
    → All (RowDue now) (claim queue now timeout n rows).1
unfolding claim lock
claim-AllDue queue now timeout zero rows h = h
claim-AllDue queue now timeout (suc n) [] h = tt
claim-AllDue queue now timeout (suc n) (row ∷ rows) h = elim (Bool-cases (eligible queue now row)) [
  | inl e ↦ rw (e, claim) ((λ locked_row. cc locked_row), claim-AllDue queue now timeout n rows h.1)
  | inr e ↦ rw (e, claim) (h.0, claim-AllDue queue now timeout (suc n) rows h.1)
]

settle-AllDue :
    (now handle : ℕ) (f : QueueMessage → QueueMessage) (rows : List QueueMessage)
    → ((row : QueueMessage) → RowDue now row → RowDue now (f row))
    → All (RowDue now) rows
    → All (RowDue now) (settle handle f rows)
unfolding settle
settle-AllDue now handle f [] keeps h = tt
settle-AllDue now handle f (row ∷ rows) keeps h = elim (Bool-cases (nat_eq row.id handle)) [
  | inl e ↦ rw e (keeps row h.0, h.1)
  | inr e ↦ rw e (h.0, settle-AllDue now handle f rows keeps h.1)
]

later-AllDue :
    (now seconds : ℕ) (rows : List QueueMessage)
    → All (RowDue now) rows
    → All (RowDue (now + seconds)) rows
later-AllDue now seconds [] h = tt
later-AllDue now seconds (row ∷ rows) h =
    ((λ e. let d = h.0 e in omega (arith, d)), later-AllDue now seconds rows h.1)

abandon_row-RowDue :
    (max now : ℕ) (row : QueueMessage) → RowDue now row → RowDue now (abandon_row max now row)
unfolding abandon_row
abandon_row-RowDue max now row d = ground arith

-- Every call keeps the available rows due.
pub step-AllDue : (q : LocalQueue) (c : Call) → AllDue q → AllDue (step q c)
unfolding step publish receive complete abandon dead_letter
step-AllDue q (publishes body) h = append-AllDue q.now q.rows _ h (λ e. omega arith)
step-AllDue q (receives n timeout) h = claim-AllDue q.queue q.now timeout n q.rows h
step-AllDue q (completes m) h = settle-AllDue q.now m.handle _ q.rows (λ row d e. cc e) h
step-AllDue q (abandons m) h =
    settle-AllDue q.now m.handle (abandon_row q.max_delivery q.now) q.rows
      (abandon_row-RowDue q.max_delivery q.now) h
step-AllDue q (dead_letters m reason) h = settle-AllDue q.now m.handle _ q.rows (λ row d e. cc e) h
step-AllDue q (waits seconds) h = later-AllDue q.now seconds q.rows h

-- No row of the queue is available.
abbrev pub NoneWaits : LocalQueue → Type 0
NoneWaits q = All (λ row. (row.queue_name == q.queue && is_available row.status) ≡ false) q.rows

claim-NoneWaits :
    (queue : String) (now timeout n : ℕ) (rows : List QueueMessage)
    → All (RowDue now) rows
    → (claim queue now timeout (suc n) rows).0 ≡ []
    → All (λ row. (row.queue_name == queue && is_available row.status) ≡ false) rows
unfolding claim eligible
claim-NoneWaits queue now timeout n [] h e = tt
claim-NoneWaits queue now timeout n (row ∷ rows) h e =
    ground (arith, h.0, e, claim-NoneWaits queue now timeout n rows h.1)

-- A call that finds nothing shows that none waits.
pub receive-NoneWaits :
    (n timeout : ℕ) (q : LocalQueue) → AllDue q → (receive (suc n) timeout q).0 ≡ [] → NoneWaits q
unfolding receive
receive-NoneWaits n timeout q h e = claim-NoneWaits q.queue q.now timeout n q.rows h e

claim-nothing :
    (queue : String) (now timeout n : ℕ) (rows : List QueueMessage)
    → All (λ row. (row.queue_name == queue && is_available row.status) ≡ false) rows
    → (claim queue now timeout n rows).0 ≡ []
unfolding claim eligible
claim-nothing queue now timeout zero rows h = refl
claim-nothing queue now timeout (suc n) [] h = refl
claim-nothing queue now timeout (suc n) (row ∷ rows) h =
    ground (arith, h.0, claim-nothing queue now timeout (suc n) rows h.1)

-- Where none waits, a call finds nothing, at any time.
pub receive-nothing : (n timeout : ℕ) (q : LocalQueue) → NoneWaits q → (receive n timeout q).0 ≡ []
unfolding receive
receive-nothing n timeout q h = claim-nothing q.queue q.now timeout n q.rows h
