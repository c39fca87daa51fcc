-- ===== src/Telemetry/Transparent.antt =====
-- That the spans of packages/telemetry/otel.py do not show in what the program does.
use nervora.Base.{String, Bool, true, false, Option, ◌≡◌, refl, ◌∙◌}
use nervora.Json.{Json, Dict, end, entry}
use nervora.Telemetry.Spans.{Tracer, set_all, attributes_of, span}

-- The state as the program sees it, which OpenTelemetry leaves alone.
pub record LeavesAlone {S W : Type 0} (seen : S → W) (t : Tracer S) : Type 0 where
  pub starts : (name : String) (s : S) → seen (t.start_span name s) ≡ seen s
  pub sets : (k : String) (v : Json) (s : S) → seen (t.set_attribute k v s).1 ≡ seen s
  pub ends : (s : S) → seen (t.end_span s) ≡ seen s

module _ {S W : Type 0} (seen : S → W) (get_tracer : String → Tracer S)
    (alone : (name : String) → LeavesAlone seen (get_tracer name)) where
  set_all-seen : (name : String) (d : Dict) (s : S) → seen (set_all (get_tracer name) d s) ≡ seen s
  unfolding set_all
  set_all-seen name end s = refl
  set_all-seen name (entry k v d) s =
      set_all-seen name d ((get_tracer name).set_attribute k v s).1 ∙ (alone name).sets k v s

  -- A body that goes by the program's own state only does under a span what it does without one:
  -- its result and the state that it leaves are the same, whether OpenTelemetry is there or not,
  -- whatever the attributes are, and also where `set_attribute` raises.
  pub span-transparent :
      {A : Type 0} (available : Bool) (name : String) (attributes : Option Dict) (body : S → A × S)
      (s : S)
      → ((s1 s2 : S)
          → seen s1 ≡ seen s2
          → ((body s1).0 ≡ (body s2).0) × (seen (body s1).1 ≡ seen (body s2).1))
      → ((span available get_tracer name attributes body s).0 ≡ (body s).0)
        × (seen (span available get_tracer name attributes body s).1 ≡ seen (body s).1)
  unfolding span
  span-transparent false name attributes body s own = (refl, refl)
  span-transparent true name attributes body s own =
      let t = get_tracer "secure-mcp-gateway" in
      let same =
        set_all-seen "secure-mcp-gateway" (attributes_of attributes) (t.start_span name s)
        ∙ (alone "secure-mcp-gateway").starts name s in
      let result = own _ s same in (result.0, (alone "secure-mcp-gateway").ends _ ∙ result.1)
