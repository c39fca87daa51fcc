-- ===== src/Telemetry/Tests.antt =====
-- Concrete trace ids and set-ups for packages/telemetry/otel.py and the access log.
use native.Mathlib.Decide.{dec_lt}
use nervora.Base.{String, true, false, [], ◌∷◌, ◌≡◌, refl, arith, some, none}
use nervora.Json.{float, pos, get}
use nervora.Numbers.Positional.{chars, digits, text_of}
use nervora.Numbers.Doubles.{nearest}
use nervora.Telemetry.{
  Otel, console, setup_telemetry, processors_for, current_trace_id, format_032x, hex_digits,
  access_record,
}
use nervora.Telemetry.TraceId.{current_trace_id-chars}

padded : current_trace_id true (some 48879) ≡ some "0000000000000000000000000000beef"
unfolding current_trace_id format_032x hex_digits digits text_of dec_lt
padded = refl

current_trace_id-chars_example :
    ((t : String) × (current_trace_id true (some 48879) ≡ some t) × (chars t ≡ 32))
    × (current_trace_id false (some 48879) ≡ none)
    × (current_trace_id true (some 0) ≡ none)
current_trace_id-chars_example = current_trace_id-chars 48879 (omega arith) (λ e. ground arith)

abbrev off : Otel
off = record { initialised = false; service_name = ""; processors = [] }

-- An exporter that cannot be made leaves the console, and a second set-up changes nothing.
set_up_twice :
    setup_telemetry true
      (λ e. true)
      "worker"
      "http://collector"
      true
      true
      (setup_telemetry true (λ e. false) "gateway" "http://collector" true true off)
    ≡ record { initialised = true; service_name = "gateway"; processors = console ∷ [] }
unfolding setup_telemetry processors_for
set_up_twice = refl

logged :
    get (access_record "GET" "/health" 200 150 none (some "t1") none) "latency_ms"
    ≡ some (float (pos 3) 1)
unfolding access_record nearest get
logged = refl
