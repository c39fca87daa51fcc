-- ===== src/Worker/Main.antt =====
-- apps/worker/worker.py: `main`, the process of a worker. The tables are there already.
use nervora.Base.{ℕ, String, Bool, List}
use nervora.Common.Settings.{Settings}
use nervora.ToolRegistry.Spec.{Result, ok, raise}
use nervora.Telemetry.{Otel, setup_telemetry}
use nervora.World.{World}
use nervora.Api.Startup.{Outside}
use nervora.Worker.Startup.{make_worker}
use nervora.Worker.Loop.{run_forever, poll_of}

-- `main`: the telemetry, and how often the loop slept with the world that it leaves, or what the
-- constructor of the worker raises. `sleep` is what
-- happens during `time.sleep`. The list has what `_running` is at each test of the loop.
unfoldable pub main :
    {Q : Type 0}
    → Outside Q
    → Bool
    → (String → Bool)
    → Settings
    → (World Q → World Q)
    → List Bool
    → Otel × World Q
    → Otel × Result (ℕ × World Q)
unfolding make_worker run_forever setup_telemetry
main o available exports settings sleep running (t, w) = (
  setup_telemetry available exports "mcp-worker" settings.otel_exporter_otlp_endpoint
      settings.otel_enabled settings.otel_console_fallback t,
  elim (make_worker o settings) [
    | raise e ↦ raise e
    | ok x ↦ ok (run_forever (poll_of x) sleep running 0 w)
  ],
)
