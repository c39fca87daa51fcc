-- ===== src/Servicebus/Local/Delivery.antt =====
-- Which rows `receive` of packages/servicebus/local.py claims, and what becomes of a claimed row.
use nervora.Base.{
  ℕ, zero, suc, ◌≤◌, ◌==◌, ◌&&◌, leb, ◌<◌, String, true, List, [], ◌∷◌, ◌≡◌, refl, arith,
  Bool-cases, inl, inr, ◌⊎◌, nat_eq, if◌then◌else◌, Option, none, some, map, take, Member, ◌∙◌,
}
use nervora.Servicebus.Interface.{Message}
use nervora.Servicebus.Row.{
  QueueMessage, Status, available, locked, completed, status_value, is_available,
}
use nervora.Servicebus.Local.{LocalQueue, eligible, lock, to_message, claim, receive}
use nervora.Servicebus.Local.Invariant.{Ascends}

-- `s.get(QueueMessage, handle)`
unfoldable pub row_at : ℕ → List QueueMessage → Option QueueMessage
row_at handle [] = none
row_at handle (row ∷ rows) = if nat_eq row.id handle then some row else row_at handle rows

-- The rows of a queue that wait and whose time has come.
abbrev pub due : String → ℕ → List QueueMessage → List QueueMessage
due queue now [] = []
due queue now (row ∷ rows) =
    let rest = due queue now rows in
    if (row.queue_name == queue && status_value row.status == "available") && leb row.visible_at now
    then row ∷ rest
    else rest

-- A message of a row, delivered once more.
abbrev pub delivered : QueueMessage → Message
delivered row = record { body = row.body; delivery_count = suc row.delivery_count; handle = row.id }

abbrev pub handles : List Message → List ℕ
handles = map (λ m. m.handle)

status_test : (s : Status) → (status_value s == "available") ≡ is_available s
status_test available = refl
status_test locked = refl
status_test completed = refl
status_test Status.dead_letter = refl

messages-claim :
    (queue : String) (now timeout n : ℕ) (rows : List QueueMessage)
    → (claim queue now timeout n rows).0 ≡ map delivered (take n (due queue now rows))
unfolding claim lock to_message eligible
messages-claim queue now timeout zero rows = refl
messages-claim queue now timeout (suc n) [] = refl
messages-claim queue now timeout (suc n) (row ∷ rows) = ground (
  arith,
  status_test row.status,
  messages-claim queue now timeout n rows,
  messages-claim queue now timeout (suc n) rows,
)

-- `receive` returns the messages of the first `max_messages` rows of its queue that have the status
-- "available" and are visible by now, in the order of their ids, each with the row's body and id
-- and one more delivery than the row had.
pub messages-receive :
    (n timeout : ℕ) (q : LocalQueue)
    → (receive n timeout q).0 ≡ map delivered (take n (due q.queue q.now q.rows))
unfolding receive
messages-receive n timeout q = messages-claim q.queue q.now timeout n q.rows

le-row_at :
    (handle lo next : ℕ) (rows : List QueueMessage) (r : QueueMessage)
    → Ascends lo next rows
    → row_at handle rows ≡ some r
    → lo ≤ handle
unfolding row_at
le-row_at handle lo next [] r h e = cc
le-row_at handle lo next (row ∷ rows) r h e =
    ground (arith, le-row_at handle (suc row.id) next rows r h.1)

row_at-cons_ne :
    (handle : ℕ) (row : QueueMessage) (rows : List QueueMessage)
    → row.id < handle
    → row_at handle (row ∷ rows) ≡ row_at handle rows
unfolding row_at
row_at-cons_ne handle row rows h = ground arith

row_at-cons_self :
    (handle : ℕ) (row : QueueMessage) (rows : List QueueMessage)
    → row.id ≡ handle
    → row_at handle (row ∷ rows) ≡ some row
unfolding row_at
row_at-cons_self handle row rows h = ground arith

-- The row under `handle` was eligible, and stands locked in what `claimed` left.
abbrev pub IsClaimed : String → ℕ → ℕ → ℕ → List QueueMessage → List QueueMessage → Type 0
IsClaimed queue now timeout handle before after =
    (r : QueueMessage) × (row_at handle before ≡ some r)
    × (eligible queue now r ≡ true)
    × (row_at handle after ≡ some (lock now timeout r))

IsClaimed-cons :
    (queue : String) (now timeout lo next handle : ℕ) (row row' : QueueMessage)
    (before after : List QueueMessage)
    → Ascends lo next (row ∷ before)
    → row'.id ≡ row.id
    → IsClaimed queue now timeout handle before after
    → IsClaimed queue now timeout handle (row ∷ before) (row' ∷ after)
IsClaimed-cons queue now timeout lo next handle row row' before after h same (r, e, el, st) =
    let above : row.id < handle = le-row_at handle (suc row.id) next before r h.1 e in
    (
      r,
      row_at-cons_ne handle row before above ∙ e,
      el,
      row_at-cons_ne handle row' after (omega arith) ∙ st,
    )

pub row_at-claim :
    (queue : String) (now timeout n lo next handle : ℕ) (rows : List QueueMessage)
    → Ascends lo next rows
    → Member handle (handles (claim queue now timeout n rows).0)
    → IsClaimed queue now timeout handle rows (claim queue now timeout n rows).1
unfolding claim to_message lock
row_at-claim queue now timeout zero lo next handle rows h m = absurd m
row_at-claim queue now timeout (suc n) lo next handle [] h m = absurd m
row_at-claim queue now timeout (suc n) lo next handle (row ∷ rows) h m =
    elim (Bool-cases (eligible queue now row)) [
      | inl e ↦
          rw (e, claim)
            (first e (claim queue now timeout n rows).1
              (row_at-claim queue now timeout n (suc row.id) next handle rows h.1)
              (rw (e, claim) at m))
      | inr e ↦
          rw (e, claim)
            (IsClaimed-cons queue now timeout lo next handle row row rows
              (claim queue now timeout (suc n) rows).1 h refl
              (row_at-claim queue now timeout (suc n) (suc row.id) next handle rows h.1
                (rw (e, claim) at m)))
    ]
  where
    first :
        eligible queue now row ≡ true
        → (after : List QueueMessage)
        → (Member handle (handles (claim queue now timeout n rows).0)
            → IsClaimed queue now timeout handle rows after)
        → (row.id ≡ handle) ⊎ Member handle (handles (claim queue now timeout n rows).0)
        → IsClaimed queue now timeout handle (row ∷ rows) (lock now timeout row ∷ after)
    first e after rest (inl same) =
        (row, row_at-cons_self handle row rows same, e, row_at-cons_self handle _ after same)
    first e after rest (inr later) =
        IsClaimed-cons queue now timeout lo next handle row (lock now timeout row) rows after h refl
          (rest later)
