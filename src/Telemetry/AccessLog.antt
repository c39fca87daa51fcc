-- ===== src/Telemetry/AccessLog.antt =====
-- apps/mcp-gateway/app/logging_mw.py: the set-up of the access log and the middleware that writes it.
use nervora.Base.{ℕ, String, Bool, true, false, Option, List, [], ◌∷◌, ◌++◌, if◌then◌else◌}
use nervora.Json.{Dict}
use nervora.Servicebus.Interface.{Attempt, done, raised}
use nervora.Telemetry.{access_record}

-- The logger `nervora.access`: the formats of its handlers, its level and its links.
pub record Logger : Type 0 where
  pub configured : Bool
  pub handlers : List String
  pub level : ℕ
  pub propagate : Bool

-- logging.INFO
abbrev info : ℕ
info = 20

unfoldable pub configure_json_logging : Logger → Logger
configure_json_logging l = if l.configured then l else record {
  configured = true;
  handlers = l.handlers ++ "%(message)s" ∷ [];
  level = info;
  propagate = false;
}

pub record Response : Type 0 where
  pub status_code : ℕ
  pub headers : String → Option String

-- The records that are logged, newest first, beside the rest of the program's state.
pub record Logged (S : Type 0) : Type 0 where
  pub rest : S
  pub records : List Dict

module _ {S : Type 0} (current_trace_id : S → Option String) (elapsed : S → S → ℕ) where
  -- `elapsed` is the time between two states on `perf_counter`, rounded to hundredths of a
  -- millisecond.
  unfoldable pub dispatch :
      (S → Attempt Response × S) → String → String → Logged S → Attempt Response × Logged S
  unfolding access_record
  dispatch call_next method path s =
      let (answer, after) = call_next s.rest in
      elim answer [
        | done response ↦ (
          done response,
          record {
            rest = after;
            records =
                access_record method path response.status_code (elapsed s.rest after)
                  (response.headers "X-Trace-Id") (current_trace_id after)
                  (response.headers "X-Request-Id")
                ∷ s.records;
          },
        )
        | raised e ↦ (raised e, record s { rest = after })
      ]
