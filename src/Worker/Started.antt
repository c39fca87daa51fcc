-- ===== src/Worker/Started.antt =====
-- That gateway and worker (apps/mcp-gateway/app/main.py and apps/worker/worker.py) are built alike.
use nervora.Base.{◌≡◌, arith}
use nervora.Common.Settings.{Settings, local}
use nervora.Servicebus.Factory.{build_queue, local_database}
use nervora.Audit.Models.{Db}
use nervora.ToolRegistry.Spec.{ok}
use nervora.Api.Startup.{Outside, App, lifespan, wire, make_executor}
use nervora.Worker.Startup.{make_worker}
use nervora.Worker.Main.{main}
use nervora.Worker.Loop.{run_forever, poll_of}
use nervora.World.{World}
use nervora.Telemetry.{Otel}
use nervora.Base.{String, Bool, List, refl}

-- If the gateway starts, with the local queue as its backend, then a worker with the same settings
-- starts too. It has the gateway's tools, tool context and queue, which is the one of the settings,
-- and counts deliveries up to that queue's maximum.
pub make_worker-lifespan :
    {Q : Type 0} (o : Outside Q) (settings : Settings) (db db' : Db) (app : App Q)
    → settings.queue_backend ≡ local
    → lifespan o settings db ≡ (ok app, db')
    → (make_worker o settings
        ≡ ok (record {
          registry = app.registry;
          queue = app.queue;
          tool_ctx = app.executor.tool_ctx;
          max_delivery = settings.queue_max_delivery_count;
        }))
      × (app.queue
          ≡ o.open_queue (
              local_database settings.database_url settings.servicebus_queue_name
                settings.queue_max_delivery_count))
unfolding make_worker lifespan wire build_queue make_executor
make_worker-lifespan o settings db db' app l h = ground (arith, h, l)

-- Where the gateway starts on the local queue, the process of a worker with the same settings does
-- not fail at its start: whatever its loop then does, it does with the gateway's tools.
main-lifespan :
    {Q : Type 0} (o : Outside Q) (settings : Settings) (db db' : Db) (app : App Q)
    (available : Bool) (exports : String → Bool) (sleep : World Q → World Q) (running : List Bool)
    (t : Otel) (w : World Q)
    → settings.queue_backend ≡ local
    → lifespan o settings db ≡ (ok app, db')
    → (main o available exports settings sleep running (t, w)).1
      ≡ ok (
          run_forever
            (poll_of (record {
              registry = app.registry;
              queue = app.queue;
              tool_ctx = app.executor.tool_ctx;
              max_delivery = settings.queue_max_delivery_count;
            }))
            sleep
            running
            0
            w)
unfolding main
main-lifespan o settings db db' app available exports sleep running t w l h =
    rw (main, (make_worker-lifespan o settings db db' app l h).0) refl
