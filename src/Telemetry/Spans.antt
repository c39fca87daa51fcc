-- ===== src/Telemetry/Spans.antt =====
-- packages/telemetry/otel.py: `tracer` and `span`. OpenTelemetry's tracer is a parameter.
use nervora.Base.{String, Bool, true, false, Option, none, some, if◌then◌else◌}
use nervora.Json.{Json, Dict, end, entry}
use nervora.Servicebus.Interface.{Attempt}

-- A tracer on the state that it shares with the program: a span is opened under a name, and ended; to
-- set an attribute may raise.
pub record Tracer (S : Type 0) : Type 0 where
  pub start_span : String → S → S
  pub set_attribute : String → Json → S → Attempt (Unit {0}) × S
  pub end_span : S → S

-- `tracer`; `get_tracer` gives one for a name.
unfoldable pub tracer : {S : Type 0} → Bool → (String → Tracer S) → String → Option (Tracer S)
tracer available get_tracer name = if available then some (get_tracer name) else none

-- `attributes or {}`: a missing dict sets nothing.
abbrev pub attributes_of : Option Dict → Dict
attributes_of none = end
attributes_of (some d) = d

module _ {S : Type 0} where
  -- The loop over the attributes: what `set_attribute` raises is suppressed.
  unfoldable pub set_all : Tracer S → Dict → S → S
  set_all t end s = s
  set_all t (entry k v d) s = set_all t d (t.set_attribute k v s).1

  -- `with span(name, attributes): body`. The body's result may be an exception, which ends the span too.
  unfoldable pub span :
      {A : Type 0} → Bool → (String → Tracer S) → String → Option Dict → (S → A × S) → S → A × S
  unfolding set_all
  span false get_tracer name attributes body s = body s
  span true get_tracer name attributes body s =
      let t = get_tracer "secure-mcp-gateway" in
      let (a, s') = body (set_all t (attributes_of attributes) (t.start_span name s)) in
      (a, t.end_span s')
