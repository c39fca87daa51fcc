-- ===== src/Servicebus/Local/RowLocks.antt =====
-- The two statements of `receive` in packages/servicebus/local.py, where another transaction may come
-- between them: the select with its row locks, and the update of the rows that it has returned.
use nervora.Base.{ℕ, zero, suc, String, Bool, true, false, not, ◌&&◌, List, [], ◌∷◌, if◌then◌else◌}
use nervora.Servicebus.Interface.{Message}
use nervora.Servicebus.Row.{QueueMessage}
use nervora.Servicebus.Local.{LocalQueue, eligible, lock, to_message}

-- A mark for each row of the table, in its order; the rows beyond the marks are unmarked.
abbrev pub marked : List Bool → Bool
marked [] = false
marked (m ∷ ms) = m

abbrev pub behind : List Bool → List Bool
behind [] = []
behind (m ∷ ms) = ms

-- The select `with_for_update(skip_locked=True)`: it marks the first `max_messages` eligible rows that
-- no other transaction has locked, and so locks them.
unfoldable pub select : String → ℕ → ℕ → List Bool → List QueueMessage → List Bool
select queue now n held [] = []
select queue now zero held (row ∷ rows) = false ∷ select queue now zero (behind held) rows
select queue now (suc n) held (row ∷ rows) =
    let taken = select queue now n (behind held) rows in
    let passed = select queue now (suc n) (behind held) rows in
    if eligible queue now row && not (marked held) then true ∷ taken else false ∷ passed

-- The loop over the selected rows, which the commit writes back.
unfoldable pub update_rows :
    ℕ → ℕ → List Bool → List QueueMessage → List Message × List QueueMessage
update_rows now visibility_timeout marks [] = ([], [])
update_rows now visibility_timeout marks (row ∷ rows) =
    let (messages, rest) = update_rows now visibility_timeout (behind marks) rows in
    let locked_row = lock now visibility_timeout row in
    if marked marks
    then (to_message locked_row ∷ messages, locked_row ∷ rest)
    else (messages, row ∷ rest)

-- Two calls of `receive` by two workers, whose transactions overlap: the second one selects, at its own
-- clock, while the rows of the first one are locked, and either of them may commit before the other.
unfoldable pub receive_overlapping :
    Bool
    → (max_messages visibility_timeout max_messages' visibility_timeout' now' : ℕ) → LocalQueue
    → List Message × List Message × LocalQueue
receive_overlapping true n timeout n' timeout' now' q =
    let marks = select q.queue q.now n [] q.rows in
    let marks' = select q.queue now' n' marks q.rows in
    let (second, rows') = update_rows now' timeout' marks' q.rows in
    let (first, rows) = update_rows q.now timeout marks rows' in
    (first, second, record q { rows = rows; now = now' })
receive_overlapping false n timeout n' timeout' now' q =
    let marks = select q.queue q.now n [] q.rows in
    let marks' = select q.queue now' n' marks q.rows in
    let (first, rows') = update_rows q.now timeout marks q.rows in
    let (second, rows) = update_rows now' timeout' marks' rows' in
    (first, second, record q { rows = rows; now = now' })
