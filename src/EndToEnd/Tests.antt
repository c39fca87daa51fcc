-- ===== src/EndToEnd/Tests.antt =====
-- A concrete asynchronous call, from the gateway to the worker.
use nervora.Base.{refl}
use nervora.Base.Table.{find}
use nervora.Json.{str, end, entry}
use nervora.Audit.Repository.{get_idempotency}
use nervora.ToolRegistry.Registry.{get_tool}
use nervora.Gateway.Queueing.{handle_async}
use nervora.Gateway.Samples.{executor, report_call, ambient, report, world, named}
use nervora.Worker.{poll_once}
use nervora.EndToEnd.{Ran, worker, handle_async-Ran}

handle_async-Ran_example :
    Ran executor report_call ambient report named refl
      (entry "ssn" (str "123-45-6789") end)
      (poll_once
        (worker executor report_call ambient report named refl 5)
        10
        30
        (handle_async executor report_call ambient report named world).1).1.db
unfolding get_idempotency find get_tool
handle_async-Ran_example =
    handle_async-Ran executor report_call ambient report named refl 5 world
      (record { output = entry "ssn" (str "123-45-6789") end; metadata = end }) refl refl refl refl
      refl
