-- ===== src/Telemetry.antt =====
-- packages/telemetry/otel.py: the set-up of the tracer and the active trace id, and the record of the
-- access log (apps/mcp-gateway/app/logging_mw.py), which AccessLog writes. Spans are in Spans.
pub mod TraceId
pub mod Spans
pub mod AccessLog
pub mod Logs
pub mod Transparent
mod Tests
use Prim.Native.Nat.{◌/◌}
use nervora.Base.{
  ℕ, zero, suc, ◌+◌, ◌-◌, ◌≤◌, ◌<◌, String, Bool, true, false, not, ◌&&◌, ◌||◌, List, [], ◌∷◌, ◌++◌,
  Option, none, some, arith, if◌then◌else◌, truthy, or_else, length,
}
use nervora.Json.{Json, str, int, pos, Dict, end, entry}
use nervora.Numbers.Positional.{digits, text_of}
use nervora.Numbers.Doubles.{nearest, positive_double}

-- A span processor of the provider, by its exporter: one with an endpoint, or the console.
pub data Processor : Type 0 where
  otlp : String → Processor
  console : Processor

-- `_INITIALISED`, and the provider that is set, by its service name and processors.
pub record Otel : Type 0 where
  pub initialised : Bool
  pub service_name : String
  pub processors : List Processor

-- The processors that `setup_telemetry` adds. `exports` tells whether the exporter can be made for an
-- endpoint: what it raises is suppressed.
unfoldable pub processors_for : (String → Bool) → String → Bool → List Processor
processors_for exports otlp_endpoint console_fallback =
    if truthy otlp_endpoint && exports otlp_endpoint
    then otlp otlp_endpoint ∷ []
    else if console_fallback
    then console ∷ []
    else []

-- `setup_telemetry`; `available` is `_OTEL_AVAILABLE`.
unfoldable pub setup_telemetry :
    Bool → (String → Bool) → String → String → Bool → Bool → Otel → Otel
unfolding processors_for
setup_telemetry available exports service_name otlp_endpoint enabled console_fallback t =
    if t.initialised || (not available || not enabled) then t else record {
      initialised = true;
      service_name = service_name;
      processors = processors_for exports otlp_endpoint console_fallback;
    }

sixteenth_lt : (n : ℕ) → 16 ≤ n → n / 16 < n
sixteenth_lt n h = omega arith

unfoldable pub hex_digits : ℕ → List ℕ
unfolding sixteenth_lt
hex_digits = digits 16 sixteenth_lt

abbrev pub zeros : ℕ → List ℕ
zeros zero = []
zeros (suc n) = 0 ∷ zeros n

-- `format(n, "032x")`
unfoldable pub format_032x : ℕ → String
unfolding hex_digits
format_032x n = text_of (zeros (32 - length (hex_digits n)) ++ hex_digits n)

-- `current_trace_id`, from the id of the active span's context, if there is one.
unfoldable pub current_trace_id : Bool → Option ℕ → Option String
unfolding format_032x
current_trace_id available none = none
current_trace_id available (some zero) = none
current_trace_id available (some (suc n)) = if available then some (format_032x (suc n)) else none

-- `a or b or c` of a header, the trace id and the empty text.
abbrev header_or : Option String → Option String → String
header_or header trace = or_else header (or_else trace "")

-- The record that `JSONAccessLogMiddleware.dispatch` logs. `elapsed` counts hundredths of a
-- millisecond, to which the latency is rounded.
unfoldable pub access_record :
    String → String → ℕ → ℕ → Option String → Option String → Option String → Dict
unfolding nearest
access_record method path status elapsed trace_header trace request_header =
    entry "event" (str "http_request") (
      entry "method" (str method) (
        entry "path" (str path) (
          entry "status" (int (pos status)) (
            entry "latency_ms" (positive_double (nearest elapsed 100)) (
              entry "trace_id" (str (header_or trace_header trace))
                (entry "request_id" (str (or_else request_header "")) end))))))
