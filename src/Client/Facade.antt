-- ===== src/Client/Facade.antt =====
-- client/src/emserverfacade.cpp and client/hdr/emserverfacade.h: what a user of the client calls. The
-- facade's adapter is the one that is passed along; the other calls are the adapter's own.
pub mod Typed
mod Runs
use emserver.Base.{ℕ, List, [], ◌∷◌, Option, none, some, Run, done, ◌>>=◌, Bytes, ℤ, ErrorCode}
use emserver.Common.{CommonMessage}
use emserver.Emserver.Proto.{EmserverCodec}
use emserver.Emserver.{receive_common_message}
use emserver.Sensors.Client.{Sensor}
use emserver.Client.Transport.{on_reconnect_timer_timeout}
use emserver.Client.{
  EmserverAdapter, Session, User, MethodCallbackCode, connected_state_changed,
  response_server_error, response_capabilities, sensor_activated, ClientCallback,
  connected_state_changing, response_of_capabilities, response_of_sensor_activation,
  server_runtime_notification, register_client_callback, connection_open, connection_close,
  send_request_capabilities, send_sensors_control, on_handler_resolved, on_handler_accepted,
  on_session_error, parser_protocol,
}

-- The four registrations, each of a function of the user's.
unfoldable pub register_callback_connected_state_changed : ℕ → EmserverAdapter → EmserverAdapter
unfolding register_client_callback
register_callback_connected_state_changed f a =
    register_client_callback a connected_state_changed (connected_state_changing f)

unfoldable pub register_callback_capabilities : ℕ → EmserverAdapter → EmserverAdapter
unfolding register_client_callback
register_callback_capabilities f a =
    register_client_callback a response_capabilities (response_of_capabilities f)

unfoldable pub register_callback_sensor_activated : ℕ → EmserverAdapter → EmserverAdapter
unfolding register_client_callback
register_callback_sensor_activated f a =
    register_client_callback a sensor_activated (response_of_sensor_activation f)

unfoldable pub register_callback_server_runtime_notifications :
    ℕ → EmserverAdapter → EmserverAdapter
unfolding register_client_callback
register_callback_server_runtime_notifications f a =
    register_client_callback a response_server_error (server_runtime_notification f)

-- EmserverAdapter::~EmserverAdapter, when the facade is destroyed.
unfoldable pub destroy_adapter : EmserverCodec → User → EmserverAdapter → Run EmserverAdapter
unfolding connection_close
destroy_adapter codec user a =
    connection_close codec user (record a { client_callbacks = λ c. none })

-- What can happen to a client: a call of the facade, the completion of an operation of its
-- transport, the end of a session, or a message of the server.
pub data ClientEvent : Type 0 where
  opens : Bytes → ℕ → ClientEvent
  closes asks : ClientEvent
  controls : List (Option Sensor) → ClientEvent
  on_connected on_capabilities on_activation on_notification : ℕ → ClientEvent
  resolves : Option ErrorCode → ClientEvent
  connects : Option ErrorCode → Session → ClientEvent
  loses : ErrorCode → ClientEvent
  expires : Option ErrorCode → ClientEvent
  receives : CommonMessage → ClientEvent

module _ (codec : EmserverCodec) (user : User) where
  unfoldable pub client_step : ClientEvent → EmserverAdapter → Run EmserverAdapter
  client_step (opens remote_ip port) a = done (connection_open a remote_ip port)
  client_step closes a = connection_close codec user a
  client_step asks a = done (send_request_capabilities codec a).1
  client_step (controls sensors) a = send_sensors_control codec a sensors >>= λ (ret, a'). done a'
  client_step (on_connected f) a = done (register_callback_connected_state_changed f a)
  client_step (on_capabilities f) a = done (register_callback_capabilities f a)
  client_step (on_activation f) a = done (register_callback_sensor_activated f a)
  client_step (on_notification f) a = done (register_callback_server_runtime_notifications f a)
  client_step (resolves er_code) a = on_handler_resolved codec user er_code a
  client_step (connects er_code session) a = on_handler_accepted codec user er_code session a
  client_step (loses code) a = on_session_error codec user code a
  client_step (expires code) a =
      done (record a { transport = on_reconnect_timer_timeout code a.transport })
  client_step (receives message) a =
      receive_common_message codec (parser_protocol codec user) message a >>= λ (ret, a'). done a'

  unfoldable pub client_run : List ClientEvent → EmserverAdapter → Run EmserverAdapter
  client_run [] a = done a
  client_run (e ∷ es) a = client_step e a >>= client_run es
