-- ===== src/Api.antt =====
-- cserver/api_server.h and the first part of cserver/cserver.cpp: the C functions on the global
-- `server`, which is `none` if it is null. The level and the file of the log are in Logging.
pub mod Lifetime
mod Runs
use emserver.Base.{
  ℕ, ◌+◌, List, [], ◌∷◌, Option, none, some, Bool, true, Run, done, ◌>>=◌, Bytes, ℤ, pos, negsuc,
}
use emserver.Emserver.Proto.{EmserverCodec}
use emserver.Sensors.Server.{Sensors, SensorBase}
use emserver.Server.{
  CServer, listen, close, runtime_error, set_client_connected_callback, set_caps_request_callback,
  set_sensors_control_callback, set_logging_callback, error_one,
}
use emserver.Server
use emserver.Server.Transport.{Network}

abbrev pub Global : Type 0
Global = Option CServer

-- If there is a server, its destructor runs in server_create and in server_release
-- (Server.Lifetime); what they leave is what is left once it has returned.
unfoldable pub server_create : Global → Bool × Global
server_create g = (true, some Server.create)

-- The three functions that register a callback, by what they call on the server.
abbrev pub with_server : (CServer → CServer) → Global → ℤ × Global
with_server f none = (error_one, none)
with_server f (some s) = (pos 0, some (f s))

unfoldable pub server_register_callback_client_connected : Option ℕ → Global → ℤ × Global
unfolding set_client_connected_callback
server_register_callback_client_connected cb = with_server (λ s. set_client_connected_callback s cb)

unfoldable pub server_register_callback_capabilities_request : Option ℕ → Global → ℤ × Global
unfolding set_caps_request_callback
server_register_callback_capabilities_request cb = with_server (λ s. set_caps_request_callback s cb)

-- The definition takes its argument by reference: it is an overload of C++ next to the function that
-- api_server.h declares, which has no definition.
unfoldable pub server_register_callback_sensors_control_request : Option ℕ → Global → ℤ × Global
unfolding set_sensors_control_callback
server_register_callback_sensors_control_request cb =
    with_server (λ s. set_sensors_control_callback s cb)

unfoldable pub server_register_callback_logging : Option ℕ → Global → Global
unfolding set_logging_callback
server_register_callback_logging cb none = none
server_register_callback_logging cb (some s) = some (set_logging_callback s cb)

-- A call of a function of the server that returns a code, or -1.
pub call_server : (CServer → Run (ℤ × CServer)) → Global → Run (ℤ × Global)
call_server f none = done (error_one, none)
call_server f (some s) = f s >>= λ (ret, s'). done (ret, some s')

unfoldable pub server_listen : Network → Option Bytes → ℤ → Global → Run (ℤ × Global)
unfolding call_server
server_listen net address port = call_server (λ s. listen net s address port)

unfoldable pub server_close : Global → Global
server_close none = none
server_close (some s) = some (close s)

unfoldable pub server_release : Global → Global
server_release g = none

module _ (codec : EmserverCodec) where
  unfoldable pub server_runtime_error : ℤ → Bytes → Global → Global
  server_runtime_error code description none = none
  server_runtime_error code description (some s) = some (runtime_error codec code description s)

  unfoldable pub send_capabilities : ℤ → Sensors → Global → Run (ℤ × Global)
  unfolding call_server
  send_capabilities id caps = call_server (Server.send_capabilities codec id caps)

  unfoldable pub send_activesensor : ℤ → Option SensorBase → Global → Run (ℤ × Global)
  unfolding call_server
  send_activesensor id sensor =
      call_server (λ s. done (Server.send_activated_sensor_state codec id sensor s))
