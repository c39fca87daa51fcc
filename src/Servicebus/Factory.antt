-- ===== src/Servicebus/Factory.antt =====
-- packages/servicebus/factory.py: which backend the settings choose. The one for Azure
-- (azure_bus.py) is named by what its constructor takes.
use nervora.Base.{ℕ, String, if◌then◌else◌, truthy}
use nervora.Common.Settings.{Settings, local, azure}
use nervora.Servicebus.Interface.{Attempt, done, raised}

-- A backend with the arguments of its constructor: the connection string and the queue's name, or the
-- database's address, the queue's name and the maximum of deliveries.
pub data Backend : Type 0 where
  azure_service_bus : String → String → Backend
  local_database : String → String → ℕ → Backend

-- `AzureServiceBusQueue.__init__`
unfoldable pub azure_backend : String → String → Attempt Backend
azure_backend connection_string queue_name =
    if truthy connection_string
    then done (azure_service_bus connection_string queue_name)
    else raised "AzureServiceBusQueue requires SERVICEBUS_CONNECTION_STRING"

-- `build_queue`
unfoldable pub build_queue : Settings → Attempt Backend
unfolding azure_backend
build_queue s = elim s.queue_backend [
  | azure ↦ azure_backend s.servicebus_connection_string s.servicebus_queue_name
  | local ↦ done (local_database s.database_url s.servicebus_queue_name s.queue_max_delivery_count)
]
