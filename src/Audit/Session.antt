-- ===== src/Audit/Session.antt =====
-- packages/audit/db.py: `session_scope` around the pending rows of a session. A commit that meets
-- a UNIQUE or PRIMARY KEY constraint (packages/audit/models.py) raises, and is rolled back.
use nervora.Base.{Bool, ◌&&◌, if◌then◌else◌}
use nervora.Base.Table.{unique}
use nervora.Audit.Models.{Db}

-- The constraints of the tables.
unfoldable pub integrity : Db → Bool
integrity db =
    unique (λ c. c.request_id) db.tool_calls
    && (unique (λ p. p.tool_name) db.policies
        && (unique (λ j. j.job_id) db.jobs
            && (unique (λ a. a.approval_id) db.approvals
                && unique (λ k. k.idempotency_key) db.keys)))

-- How a session ends: committed, with the new database, or rolled back to the old one. A rollback
-- raises in place of the value, which is kept for the effects that it holds outside the database.
pub data Session (A : Type 0) : Type 0 where
  committed : A → Db → Session A
  rolled_back : A → Db → Session A

unfoldable pub session_scope : {A : Type 0} → (Db → A × Db) → Db → Session A
session_scope body db =
    let (value, pending) = body db in
    if integrity pending then committed value pending else rolled_back value db
