-- ===== src/Telemetry/Logs.antt =====
-- What the access log of apps/mcp-gateway/app/logging_mw.py keeps of each request.
use nervora.Base.{ℕ, String, Option, ◌∷◌, ◌≡◌, arith}
use nervora.Servicebus.Interface.{Attempt, done, raised}
use nervora.Telemetry.{access_record}
use nervora.Telemetry.AccessLog.{Logger, configure_json_logging, Response, Logged, dispatch}

-- A second set-up of the logger changes nothing.
configure_json_logging_twice :
    (l : Logger) → configure_json_logging (configure_json_logging l) ≡ configure_json_logging l
unfolding configure_json_logging
configure_json_logging_twice l = ground arith

module _ {S : Type 0} (current_trace_id : S → Option String) (elapsed : S → S → ℕ)
    (call_next : S → Attempt Response × S) (method path : String) (s : Logged S) where
  -- The middleware changes neither the answer nor the rest of the state.
  dispatch_passes :
      ((dispatch current_trace_id elapsed call_next method path s).0 ≡ (call_next s.rest).0)
      × ((dispatch current_trace_id elapsed call_next method path s).1.rest ≡ (call_next s.rest).1)
  unfolding dispatch
  dispatch_passes = ground arith

  -- An answer adds one record, with the trace id and the request id of the answer.
  dispatch_logs :
      (answer : Response)
      → (call_next s.rest).0 ≡ done answer
      → (dispatch current_trace_id elapsed call_next method path s).1.records
        ≡ access_record method path answer.status_code
            (elapsed s.rest (call_next s.rest).1)
            (answer.headers "X-Trace-Id")
            (current_trace_id (call_next s.rest).1)
            (answer.headers "X-Request-Id")
          ∷ s.records
  unfolding dispatch
  dispatch_logs answer h = ground (arith, h)

  -- A request whose handler raises is not logged.
  dispatch_silent :
      (error : String)
      → (call_next s.rest).0 ≡ raised error
      → (dispatch current_trace_id elapsed call_next method path s).1.records ≡ s.records
  unfolding dispatch
  dispatch_silent error h = ground (arith, h)
