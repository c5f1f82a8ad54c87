-- ===== src/Client/Samples.antt =====
-- A client, a server and a user for the runs.
use emserver.Base.{List, [], ◌∷◌, Option, none, some, true, false, done, pos, negsuc}
use emserver.Sensors.Server.{SensorBase}
use emserver.Server.{CServer, TcpSession, Application}
use emserver.Client.{
  EmserverAdapter, MethodCallbackCode, ClientCallback, Session, User, no_point,
  connected_state_changed, response_capabilities, sensor_activated, response_server_error,
  connected_state_changing, response_of_capabilities, response_of_sensor_activation,
  server_runtime_notification,
}

-- A user who does nothing.
unfoldable pub idle : User
idle = record {
  on_connected_state = λ f st a. done a;
  on_capabilities = λ f sensors id a. done a;
  on_sensor_activation = λ f state id a. done a;
  on_runtime_notification = λ f error a. done a;
}

-- An application that answers 0 to each request.
unfoldable pub ready : Application
ready = record {
  client_connected = λ cb ip port s. done s;
  caps_request = λ cb id s. done (pos 0, s);
  sensors_control = λ cb id sensors s. done (pos 0, s);
}

abbrev pub peer : TcpSession
peer = record { is_open = true; address = 49 ∷ []; port = 9000 }

abbrev pub server : CServer
server = record {
  server = none;
  session = some peer;
  on_client_connected = none;
  on_client_caps_request = some 1;
  on_sensor_control_request = some 2;
  on_log = none;
  sent = [];
}

abbrev pub open_session : Session
open_session = record {
  is_open = true;
  local_socket = no_point;
  connected_socket = no_point;
  reading = true;
}

abbrev pub all_callbacks : MethodCallbackCode → Option ClientCallback
all_callbacks connected_state_changed = some (connected_state_changing 1)
all_callbacks response_server_error = some (server_runtime_notification 2)
all_callbacks response_capabilities = some (response_of_capabilities 3)
all_callbacks sensor_activated = some (response_of_sensor_activation 4)

abbrev pub client : EmserverAdapter
client = record {
  method_counter = 7;
  transport = record { conf = no_point; resolving = 0; connecting = 1; timer = false };
  session = some open_session;
  client_callbacks = all_callbacks;
  sent = [];
}

abbrev pub silent : EmserverAdapter
silent = record client { client_callbacks = λ c. none }

abbrev pub house : List SensorBase
house =
    SensorBase.dry_contact (pos 1) true false
    ∷ SensorBase.temperature (pos 2) (pos 40) (negsuc 4)
    ∷ []
