-- ===== src/Servicebus/Local/Deliveries.antt =====
-- The deliveries that the rows of packages/servicebus/local.py have left, and what spends them.
use nervora.Base.{
  ℕ, zero, suc, ◌+◌, ◌-◌, String, true, List, [], ◌∷◌, ◌≡◌, refl, arith, All, Bool-cases, inl, inr,
  nat_eq, length, ap,
}
use nervora.Servicebus.Row.{QueueMessage}
use nervora.Servicebus.Local.{LocalQueue, eligible, lock, claim, receive, settle, abandon_row}
use nervora.Servicebus.Local.Invariant.{RowValid, lock-RowValid, IsValid}

abbrev pub left_in : ℕ → List QueueMessage → ℕ
left_in max [] = 0
left_in max (row ∷ rows) = (max - row.delivery_count) + left_in max rows

abbrev pub left : LocalQueue → ℕ
left q = left_in q.max_delivery q.rows

lock-spends :
    (queue : String) (now timeout max : ℕ) (row : QueueMessage)
    → eligible queue now row ≡ true
    → RowValid max row
    → suc (max - (lock now timeout row).delivery_count) ≡ max - row.delivery_count
unfolding lock
lock-spends queue now timeout max row e v =
    omega (arith, lock-RowValid queue now timeout max row e v)

claim-spends :
    (queue : String) (now timeout n max : ℕ) (rows : List QueueMessage)
    → All (RowValid max) rows
    → length (claim queue now timeout n rows).0 + left_in max (claim queue now timeout n rows).1
      ≡ left_in max rows
unfolding claim
claim-spends queue now timeout zero max rows h = omega arith
claim-spends queue now timeout (suc n) max [] h = omega arith
claim-spends queue now timeout (suc n) max (row ∷ rows) h =
    elim (Bool-cases (eligible queue now row)) [
      | inl e ↦
          rw (e, claim)
            (omega (
              arith,
              lock-spends queue now timeout max row e h.0,
              claim-spends queue now timeout n max rows h.1,
            ))
      | inr e ↦ rw (e, claim) (omega (arith, claim-spends queue now timeout (suc n) max rows h.1))
    ]

-- Each message that `receive` returns spends one delivery.
pub receive-spends :
    (n timeout : ℕ) (q : LocalQueue)
    → IsValid q
    → length (receive n timeout q).0 + left (receive n timeout q).1 ≡ left q
unfolding receive
receive-spends n timeout q v = claim-spends q.queue q.now timeout n q.max_delivery q.rows v.counts

-- To settle a row spends none.
pub left_in-settle :
    (handle max : ℕ) (f : QueueMessage → QueueMessage) (rows : List QueueMessage)
    → ((row : QueueMessage) → (f row).delivery_count ≡ row.delivery_count)
    → left_in max (settle handle f rows) ≡ left_in max rows
unfolding settle
left_in-settle handle max f [] keeps = refl
left_in-settle handle max f (row ∷ rows) keeps = elim (Bool-cases (nat_eq row.id handle)) [
  | inl e ↦ rw (e, keeps row) refl
  | inr e ↦ rw e (omega (arith, left_in-settle handle max f rows keeps))
]

pub count-abandon_row :
    (max now : ℕ) (row : QueueMessage)
    → (abandon_row max now row).delivery_count ≡ row.delivery_count
unfolding abandon_row
count-abandon_row max now row = ground arith

claim-none :
    (queue : String) (now timeout n : ℕ) (rows : List QueueMessage)
    → (claim queue now timeout n rows).0 ≡ []
    → (claim queue now timeout n rows).1 ≡ rows
unfolding claim
claim-none queue now timeout zero rows e = refl
claim-none queue now timeout (suc n) [] e = refl
claim-none queue now timeout (suc n) (row ∷ rows) e =
    ground (arith, claim-none queue now timeout (suc n) rows)

-- A call that finds nothing changes nothing.
pub receive-none :
    (n timeout : ℕ) (q : LocalQueue) → (receive n timeout q).0 ≡ [] → (receive n timeout q).1 ≡ q
unfolding receive
receive-none n timeout q e =
    ap (λ rows. record q { rows = rows }) (claim-none q.queue q.now timeout n q.rows e)
