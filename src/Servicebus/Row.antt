-- ===== src/Servicebus/Row.antt =====
-- The table `queue_messages` of packages/servicebus/local.py. `created_at` and `updated_at`, which
-- no code reads, are left out.
use nervora.Base.{ℕ, String, Bool, true, false, Option}
use nervora.Json.{Dict}

pub data Status : Type 0 where
  available locked completed dead_letter : Status

abbrev pub status_value : Status → String
status_value available = "available"
status_value locked = "locked"
status_value completed = "completed"
status_value Status.dead_letter = "dead_letter"

abbrev pub is_available : Status → Bool
is_available available = true
is_available _ = false

pub record QueueMessage : Type 0 where
  pub id : ℕ
  pub queue_name : String
  pub body : Dict
  pub status : Status
  pub delivery_count : ℕ
  pub visible_at : ℕ
  pub dead_letter_reason : Option String
