-- ===== src/Common/Ids.antt =====
-- packages/common/ids.py, and the ids that packages/telemetry/otel.py and the gateway draw. What
-- `uuid.uuid4().hex` returns, the span's trace id and the clock are read from the environment.
use nervora.Base.{ℕ, String, Option, [], ◌∷◌, fstring, slice_to, or_else}

-- What one call of the gateway reads from its environment: a fresh hex id for each place that may
-- draw one, the trace id of the active span if there is one, and the elapsed time in hundredths of
-- a millisecond.
pub record Ambient : Type 0 where
  pub request_uuid : String
  pub trace_uuid : String
  pub key_uuid : String
  pub job_uuid : String
  pub approval_uuid : String
  pub span_trace_id : Option String
  pub elapsed : ℕ

-- `gen_idempotency_key`
unfoldable pub gen_idempotency_key : Ambient → String
gen_idempotency_key a = fstring ("idk_" ∷ a.key_uuid ∷ [])

-- `"job_" + uuid.uuid4().hex[:16]`
unfoldable pub gen_job_id : Ambient → String
gen_job_id a = fstring ("job_" ∷ slice_to 16 a.job_uuid ∷ [])

-- `"apr_" + uuid.uuid4().hex[:16]`
unfoldable pub gen_approval_id : Ambient → String
gen_approval_id a = fstring ("apr_" ∷ slice_to 16 a.approval_uuid ∷ [])

-- `current_trace_id() or uuid.uuid4().hex`
unfoldable pub trace_id_of : Ambient → String
trace_id_of a = or_else a.span_trace_id a.trace_uuid
