-- ===== src/NativeServer.antt =====
-- examples/native_cserver/main.cpp: a program on top of the C interface, with a contact and a
-- thermometer. What it prints, and the event loop of Qt, are left out. Its calls of the interface
-- inside a callback are calls on the server that has called it.
pub mod Main
mod Runs
use emserver.Base.{
  take, length, leb, if◌then◌else◌, ℕ, zero, suc, List, [], ◌∷◌, Option, none, some, Bool, true,
  false, codes, Run, done, crash, null_pointer, out_of_bounds, ◌>>=◌, Bytes, ℤ, pos, negsuc,
}
use emserver.Emserver.Proto.{EmserverCodec}
use emserver.Sensors.Server.{Sensors, SensorBase}
use emserver.Server.{
  CServer, Application, error_one, send_capabilities, send_activated_sensor_state,
}
use emserver.Server.Transport.{Network}
use emserver.Api.{
  Global, server_create, server_register_callback_client_connected,
  server_register_callback_capabilities_request, server_register_callback_logging, server_listen,
  server_close,
}
use emserver.Logging.{Root, CnString, server_update_loglevel, server_update_logpath}

-- The global variables that change: the thermometer's currentValue, and sendId.
pub record Program : Type 0 where
  pub current_value : ℤ
  pub send_id : ℕ

unfoldable pub initial_system : Program
initial_system = record { current_value = pos 0; send_id = 0 }

abbrev pub contact : SensorBase
contact = SensorBase.dry_contact (pos 1) true false

abbrev pub thermometer : ℤ → SensorBase
thermometer value = SensorBase.temperature (pos 2) (pos 30) value

-- systemSensors
unfoldable pub system_sensors : Program → Sensors
system_sensors g = record {
  sensors_count = 2;
  hardware = some (some contact ∷ some (thermometer g.current_value) ∷ []);
}

module _ (codec : EmserverCodec) where
  -- onClientCapabilitiesRequest.
  unfoldable pub on_client_capabilities_request :
      Program → ℤ → CServer → Run ((ℤ × Program) × CServer)
  unfolding system_sensors
  on_client_capabilities_request g id s =
      send_capabilities codec id (system_sensors g) s >>= λ (ret, s').
      let (_, s'') =
        send_activated_sensor_state codec (pos g.send_id) (some (thermometer (pos 30))) s' in
      done ((ret, record { current_value = pos 30; send_id = suc g.send_id }), s'')

-- onServerSensorsControlRequest: what it prints of a sensor it reads through the array's pointer.
read_sensors : ℕ → List (Option SensorBase) → Run ℤ
read_sensors zero entries = done (pos 0)
read_sensors (suc n) [] = crash out_of_bounds
read_sensors (suc n) (none ∷ entries) = crash null_pointer
read_sensors (suc n) (some sensor ∷ entries) = read_sensors n entries

read_hardware : ℕ → Option (List (Option SensorBase)) → Run ℤ
unfolding read_sensors
read_hardware zero hardware = done (pos 0)
read_hardware (suc n) none = crash null_pointer
read_hardware (suc n) (some entries) = read_sensors (suc n) entries

unfoldable pub on_server_sensors_control_request : ℤ → Option Sensors → Run ℤ
unfolding read_hardware
on_server_sensors_control_request id none = done error_one
on_server_sensors_control_request id (some sensors) =
    read_hardware sensors.sensors_count sensors.hardware

-- onLogging, up to the string that it prints.
unfoldable pub on_logging : CnString → Run Bytes
on_logging str = elim str.string_data [
  | none ↦ crash null_pointer
  | some bytes ↦
      if leb str.size (length bytes) then done (take str.size bytes) else crash out_of_bounds
]

-- The program as the server's application, with its variables before a call.
unfoldable pub application : EmserverCodec → Program → Application
unfolding on_client_capabilities_request on_server_sensors_control_request
application codec g = record {
  client_connected = λ cb ip port s. done s;
  caps_request =
      λ cb id s. on_client_capabilities_request codec g id s >>= λ ((ret, g'), s'). done (ret, s');
  sensors_control = λ cb id sensors s.
      on_server_sensors_control_request id (some sensors) >>= λ ret. done (ret, s);
}

-- The functions that main registers, by numbers.
abbrev pub on_client_connected : ℕ
on_client_connected = 1

abbrev pub capabilities_request : ℕ
capabilities_request = 2

abbrev pub logging_callback : ℕ
logging_callback = 3

abbrev pub ip : Bytes
ip = codes "127.0.0.1"

abbrev pub port : ℕ
port = 35452

abbrev pub log_path : CnString
log_path = record { string_data = some (codes "C:/CodeProjects"); size = 15 }

-- The end of main: `err` is what server_listen has returned, and `exec` is Qt's event loop, in which
-- the callbacks are called.
unfoldable pub serve : (Global → Run (ℤ × Global)) → ℤ → Global → Run (ℤ × Global)
serve exec (pos zero) g = exec g >>= λ (ret, g'). done (ret, server_close g')
serve exec err g = done (error_one, g)

-- main: what it returns, the global server, and the log.
unfoldable pub main :
    Network → (Global → Run (ℤ × Global)) → Global → Root → Run ((ℤ × Global) × Root)
unfolding serve
main net exec g root =
    let (_, created) = server_create g in
    let (_, levelled) = server_update_loglevel 0 created root in
    server_update_logpath (some log_path) created levelled >>= λ logged.
    let (_, connected) =
      server_register_callback_client_connected (some on_client_connected) created in
    let (_, registered) =
      server_register_callback_capabilities_request (some capabilities_request) connected in
    let with_log = server_register_callback_logging (some logging_callback) registered in
    server_listen net (some ip) (pos port) with_log >>= λ (err, listening).
    serve exec err listening >>= λ served. done (served, logged)
