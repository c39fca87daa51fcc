-- ===== src/Servicebus/Local/Overlap.antt =====
-- That two calls of `receive` of packages/servicebus/local.py may overlap on a database with row locks.
use nervora.Base.{
  ℕ, zero, suc, String, Bool, true, false, ◌&&◌, List, [], ◌∷◌, ◌≡◌, refl, sym, ap, ◌∙◌, arith,
  subst, Member, ◌<◌,
}
use nervora.Servicebus.Interface.{Message}
use nervora.Servicebus.Row.{QueueMessage}
use nervora.Servicebus.Local.{LocalQueue, eligible, lock, claim, receive}
use nervora.Servicebus.Local.Calls.{receives, step}
use nervora.Servicebus.Local.Invariant.{IsValid, step-IsValid}
use nervora.Servicebus.Local.Delivery.{handles, row_at-claim}
use nervora.Servicebus.Local.Locks.{not-received_locked}
use nervora.Servicebus.Local.RowLocks.{marked, behind, select, update_rows, receive_overlapping}

-- The select and the update one after the other are the claim.
update_rows-select :
    (queue : String) (now timeout n : ℕ) (rows : List QueueMessage)
    → update_rows now timeout (select queue now n [] rows) rows ≡ claim queue now timeout n rows
unfolding update_rows select claim
update_rows-select queue now timeout zero [] = refl
update_rows-select queue now timeout (suc n) [] = refl
update_rows-select queue now timeout zero (row ∷ rows) =
    ground (arith, update_rows-select queue now timeout zero rows)
update_rows-select queue now timeout (suc n) (row ∷ rows) = ground (
  arith,
  update_rows-select queue now timeout n rows,
  update_rows-select queue now timeout (suc n) rows,
)

-- No row has both marks.
Apart : List Bool → List Bool → Type 0
Apart [] ns = Unit
Apart (m ∷ ms) [] = Unit
Apart (m ∷ ms) (n ∷ ns) = ((m && n) ≡ false) × Apart ms ns

Apart-empty : (ms : List Bool) → Apart ms []
unfolding Apart
Apart-empty [] = tt
Apart-empty (m ∷ ms) = tt

-- A locked row is not eligible.
not_eligible :
    (queue : String) (now now' timeout : ℕ) (row : QueueMessage)
    → eligible queue now' (lock now timeout row) ≡ false
unfolding eligible lock
not_eligible queue now now' timeout row = ground arith

module _ (queue : String) (now now' timeout : ℕ) where
  -- A select that skips the rows of another one selects what it would behind its update.
  select-update_rows :
      (n : ℕ) (held : List Bool) (rows : List QueueMessage)
      → select queue now' n held rows ≡ select queue now' n [] (update_rows now timeout held rows).1
  unfolding select update_rows
  select-update_rows n held [] = refl
  select-update_rows zero held (row ∷ rows) =
      ground (arith, select-update_rows zero (behind held) rows)
  select-update_rows (suc n) held (row ∷ rows) = ground (
    arith,
    not_eligible queue now now' timeout row,
    select-update_rows n (behind held) rows,
    select-update_rows (suc n) (behind held) rows,
  )

Apart-behind :
    (ms ns : List Bool)
    → Apart ms ns
    → ((marked ms && marked ns) ≡ false) × Apart (behind ms) (behind ns)
unfolding Apart
Apart-behind [] ns apart = (refl, tt)
Apart-behind (m ∷ ms) [] apart = (ground arith, Apart-empty ms)
Apart-behind (m ∷ ms) (n ∷ ns) apart = apart

-- What an update returns is not changed by another one of rows that it has not marked.
messages-update_rows :
    (now timeout now' timeout' : ℕ) (ms ns : List Bool) (rows : List QueueMessage)
    → Apart ms ns
    → (update_rows now timeout ms (update_rows now' timeout' ns rows).1).0
      ≡ (update_rows now timeout ms rows).0
unfolding update_rows
messages-update_rows now timeout now' timeout' ms ns [] apart = refl
messages-update_rows now timeout now' timeout' ms ns (row ∷ rows) apart =
    let (differ, apart') = Apart-behind ms ns apart in
    ground (
      arith,
      differ,
      messages-update_rows now timeout now' timeout' (behind ms) (behind ns) rows apart',
    )

-- Two updates of different rows leave the same table in either order.
update_rows_comm :
    (now timeout now' timeout' : ℕ) (ms ns : List Bool) (rows : List QueueMessage)
    → Apart ms ns
    → (update_rows now timeout ms (update_rows now' timeout' ns rows).1).1
      ≡ (update_rows now' timeout' ns (update_rows now timeout ms rows).1).1
unfolding update_rows
update_rows_comm now timeout now' timeout' ms ns [] apart = refl
update_rows_comm now timeout now' timeout' ms ns (row ∷ rows) apart =
    let (differ, apart') = Apart-behind ms ns apart in
    ground (
      arith,
      differ,
      update_rows_comm now timeout now' timeout' (behind ms) (behind ns) rows apart',
    )

-- A select leaves the rows that are locked.
select-Apart :
    (queue : String) (now n : ℕ) (held : List Bool) (rows : List QueueMessage)
    → Apart held (select queue now n held rows)
unfolding select Apart
select-Apart queue now n [] rows = tt
select-Apart queue now n (m ∷ held) [] = tt
select-Apart queue now zero (m ∷ held) (row ∷ rows) =
    (ground arith, select-Apart queue now zero held rows)
select-Apart queue now (suc n) (m ∷ held) (row ∷ rows) =
    ground (arith, select-Apart queue now n held rows, select-Apart queue now (suc n) held rows)

Apart-sym : (ms ns : List Bool) → Apart ms ns → Apart ns ms
unfolding Apart
Apart-sym [] [] apart = tt
Apart-sym [] (n ∷ ns) apart = tt
Apart-sym (m ∷ ms) [] apart = tt
Apart-sym (m ∷ ms) (n ∷ ns) (differ, apart) = (ground (arith, differ), Apart-sym ms ns apart)

-- The second of two claims is the update of what the second select takes beside the first one.
claim-claim :
    (queue : String) (now timeout n now' timeout' n' : ℕ) (rows : List QueueMessage)
    → claim queue now' timeout' n' (claim queue now timeout n rows).1
      ≡ update_rows now' timeout'
          (select queue now' n' (select queue now n [] rows) rows)
          (update_rows now timeout (select queue now n [] rows) rows).1
claim-claim queue now timeout n now' timeout' n' rows =
    let marks = select queue now n [] rows in
    let updated = (update_rows now timeout marks rows).1 in
    ap (λ taken. claim queue now' timeout' n' taken.1)
      (sym (update_rows-select queue now timeout n rows))
    ∙ sym (update_rows-select queue now' timeout' n' updated)
    ∙ ap (λ marks'. update_rows now' timeout' marks' updated)
        (sym (select-update_rows queue now now' timeout n' marks rows))

abbrev answer :
    ℕ
    → LocalQueue
    → List Message
    → List Message
    → List QueueMessage
    → List Message × List Message × LocalQueue
answer now q first second rows = (first, second, record q { rows = rows; now = now })

-- Two answers with the same messages and the same table.
same_answer :
    (now : ℕ) (q : LocalQueue) {first first' second second' : List Message}
    {rows rows' : List QueueMessage}
    → first ≡ first'
    → second ≡ second'
    → rows ≡ rows'
    → answer now q first second rows ≡ answer now q first' second' rows'
same_answer now q firsts seconds tables i = answer now q (firsts i) (seconds i) (tables i)

-- A second call finds nothing that the first one has claimed, whatever its clock.
not_twice :
    (q : LocalQueue) (n timeout n' timeout' now' handle : ℕ)
    → 0 < q.max_delivery
    → IsValid q
    → Member handle (handles (receive n timeout q).0)
    → ¬ Member handle
        (handles (receive n' timeout' (record (receive n timeout q).1 { now = now' })).0)
unfolding receive step lock
not_twice q n timeout n' timeout' now' handle pos v first =
    let (r, _, _, at) =
      row_at-claim q.queue q.now timeout n 0 q.next_id handle q.rows v.ids first in
    let after = step-IsValid q (receives n timeout) pos v in
    not-received_locked handle (record (receive n timeout q).1 { now = now' }) n' timeout'
      (lock q.now timeout r) (record { ids = after.ids; counts = after.counts }) refl at

-- The two calls are one call after the other.
in_turn :
    (second_commits_first : Bool) (n timeout n' timeout' now' : ℕ) (q : LocalQueue)
    → receive_overlapping second_commits_first n timeout n' timeout' now' q ≡ (
      (receive n timeout q).0,
      (receive n' timeout' (record (receive n timeout q).1 { now = now' })).0,
      (receive n' timeout' (record (receive n timeout q).1 { now = now' })).1,
    )
unfolding receive_overlapping receive
in_turn true n timeout n' timeout' now' q =
    let marks = select q.queue q.now n [] q.rows in
    let marks' = select q.queue now' n' marks q.rows in
    let apart = select-Apart q.queue now' n' marks q.rows in
    let second = claim-claim q.queue q.now timeout n now' timeout' n' q.rows in
    same_answer now' q
      (messages-update_rows q.now timeout now' timeout' marks marks' q.rows apart
        ∙ ap (λ taken. taken.0) (update_rows-select q.queue q.now timeout n q.rows))
      (sym (
          messages-update_rows now' timeout' q.now timeout marks' marks q.rows
            (Apart-sym marks marks' apart))
        ∙ sym (ap (λ taken. taken.0) second))
      (update_rows_comm q.now timeout now' timeout' marks marks' q.rows apart
        ∙ sym (ap (λ taken. taken.1) second))
in_turn false n timeout n' timeout' now' q =
    let second = claim-claim q.queue q.now timeout n now' timeout' n' q.rows in
    same_answer now' q (ap (λ taken. taken.0) (update_rows-select q.queue q.now timeout n q.rows))
      (sym (ap (λ taken. taken.0) second)) (sym (ap (λ taken. taken.1) second))

-- Over a valid queue with a positive `max_delivery`, two workers whose calls of `receive` overlap on a
-- database with row locks, the second one selecting while the rows of the first are locked and either
-- one committing first, are answered, and leave the table, as by two calls one after the other, the
-- second at its own clock; and no handle is in both answers.
pub receive_overlapping-receive :
    (second_commits_first : Bool) (n timeout n' timeout' now' : ℕ) (q : LocalQueue) (handle : ℕ)
    → 0 < q.max_delivery
    → IsValid q
    → (receive_overlapping second_commits_first n timeout n' timeout' now' q ≡ (
      (receive n timeout q).0,
      (receive n' timeout' (record (receive n timeout q).1 { now = now' })).0,
      (receive n' timeout' (record (receive n timeout q).1 { now = now' })).1,
    ))
      × (¬ (
          Member handle
            (handles (receive_overlapping second_commits_first n timeout n' timeout' now' q).0)
          × Member handle
              (handles (receive_overlapping second_commits_first n timeout n' timeout' now' q).1)))
receive_overlapping-receive second_commits_first n timeout n' timeout' now' q handle pos v =
    let same = in_turn second_commits_first n timeout n' timeout' now' q in
    (
      same,
      λ both.
          not_twice q n timeout n' timeout' now' handle pos v
            (subst (λ answers. Member handle (handles answers.0)) same both.0)
            (subst (λ answers. Member handle (handles answers.1)) same both.1),
    )
