-- ===== src/Servicebus/Interface.antt =====
-- packages/servicebus/interface.py: a queued message, and the operations that every queue backend
-- has.
use nervora.Base.{ℕ, String, List, Option}
use nervora.Json.{Dict, get, as_text}

-- `handle` is the backend's own: a row id of the local queue, a lock token elsewhere.
pub record Message : Type 0 where
  pub body : Dict
  pub delivery_count : ℕ
  pub handle : ℕ

-- `Message.job_id` and `Message.idempotency_key`
unfoldable pub job_id : Message → Option String
job_id m = as_text (get m.body "job_id")

unfoldable pub idempotency_key : Message → Option String
idempotency_key m = as_text (get m.body "idempotency_key")

-- A call that may raise: `raised` holds the exception's text.
pub data Attempt {ℓ} (A : Type ℓ) : Type ℓ where
  done : A → Attempt A
  raised : String → Attempt A

-- The abstract methods, each as a function of the backend's state. Any of them may raise, and leaves
-- a state also then.
pub record MessageQueue (Q : Type 0) : Type 0 where
  pub publish : Dict → Q → Attempt (Unit {0}) × Q
  pub receive : ℕ → ℕ → Q → Attempt (List Message) × Q
  pub complete : Message → Q → Attempt (Unit {0}) × Q
  pub abandon : Message → Q → Attempt (Unit {0}) × Q
  pub dead_letter : Message → String → Q → Attempt (Unit {0}) × Q

-- A backend whose calls return, but for `publish`: the local queue on a database that answers.
pub record ReturningQueue (Q : Type 0) : Type 0 where
  pub publish : Dict → Q → Attempt Q
  pub receive : ℕ → ℕ → Q → List Message × Q
  pub complete : Message → Q → Q
  pub abandon : Message → Q → Q
  pub dead_letter : Message → String → Q → Q

abbrev published : {Q : Type 0} → Q → Attempt Q → Attempt (Unit {0}) × Q
published q (done q') = (done tt, q')
published q (raised text) = (raised text, q)

-- Such a backend behind the interface.
abbrev pub returning : {Q : Type 0} → ReturningQueue Q → MessageQueue Q
returning r = record {
  publish = λ body q. published q (r.publish body q);
  receive = λ n timeout q. (done (r.receive n timeout q).0, (r.receive n timeout q).1);
  complete = λ m q. (done tt, r.complete m q);
  abandon = λ m q. (done tt, r.abandon m q);
  dead_letter = λ m reason q. (done tt, r.dead_letter m reason q);
}
