-- ===== src/Client.antt =====
-- client/hdr/emserveradapter.h, client/src/emserveradapter.cpp and client/src/emserverfacade.cpp:
-- the client. The facade passes each call on to the adapter. The logging, and the counters of a
-- build option, are left out.
pub mod Samples
mod Runs
pub mod Transport
pub mod State
pub mod Sent
pub mod Exchange
pub mod Connection
pub mod Alive
pub mod Typed
pub mod Facade
pub mod Lifetime
use emserver.Base.{
  ℕ, suc, ◌-◌, ◌≡◌, List, [], ◌∷◌, ◌++◌, Option, none, some, Bool, true, false, Run, done, crash,
  bad_any_cast, ◌>>=◌, Bytes, ℤ, pos, negsuc, to_i32, if◌then◌else◌, ◌==◌, ErrorCode,
  operation_aborted, operation_not_supported, connection_aborted, other_error,
}
use emserver.Emserver.Proto.{
  EmserverCodec, request, control, Capabilities, RequestCapabilities, SensorsControl,
  SensorActivated, ServerRuntimeNotification,
}
use emserver.Emserver.{
  EmserverProcessor, MethodCode, capability_response, runtime_notification, sensor_activation,
  request_capabilites, sensors_configuration_control, make_message, register_callback,
  number_or_zero,
}
use emserver.Emserver
use emserver.Sensors.Client.{
  Sensor, SensorState, from_caps, sensors_to_proto, native_activated_sensor,
}
use emserver.Sensors.Server.{int_or_zero, bytes_of}
use Transport.{
  TransportClient, ConnectionPoint, create_transport, open_connection, close_connection,
}
pub use State.{
  MethodCallbackCode, connected_state_changed, response_server_error, response_capabilities,
  sensor_activated, callback_number, ClientCallback, connected_state_changing,
  response_of_capabilities, response_of_sensor_activation, server_runtime_notification,
  ConnectedState, ErrorDescriptor, Session, EmserverAdapter, User, no_point, not_connected,
}
unfoldable pub use State.{
  cast_connected_state, cast_capabilities, cast_activation, cast_runtime_notification, call_found,
  call_cast,
}

unfoldable pub create : EmserverAdapter
unfolding create_transport
create = record {
  method_counter = 1;
  transport = create_transport;
  session = none;
  client_callbacks = λ _. none;
  sent = [];
}

unfoldable pub register_client_callback :
    EmserverAdapter → MethodCallbackCode → ClientCallback → EmserverAdapter
register_client_callback a code callback = record a {
  client_callbacks = λ c.
      if callback_number c == callback_number code then some callback else a.client_callbacks c;
}

-- EmserverFacade::WrongCallCode and InvalidSessionError.
abbrev pub wrong_call_code : ℤ
wrong_call_code = negsuc 0

abbrev pub invalid_session_error : ℤ
invalid_session_error = negsuc 1

-- callCode, with the counter after it.
unfoldable pub call_code : EmserverAdapter → ℤ × EmserverAdapter
call_code a = (to_i32 a.method_counter, record a { method_counter = suc a.method_counter })

-- TcpSession::sendData, which drops the string if the socket is closed.
unfoldable pub send_data : Session → Bytes → EmserverAdapter → EmserverAdapter
send_data session msg a = if session.is_open then record a { sent = a.sent ++ (msg ∷ []) } else a

abbrev code_of : Bytes → ℤ → ℤ
code_of [] ret = wrong_call_code
code_of (b ∷ bs) ret = ret

-- The two ways to end of a send: an empty message is sent too, with its own code returned.
pub send_or_fail : Option Session → Bytes → ℤ → EmserverAdapter → ℤ × EmserverAdapter
unfolding send_data
send_or_fail none msg ret a = (invalid_session_error, a)
send_or_fail (some session) msg ret a = (code_of msg ret, send_data session msg a)

-- What openConnection and the others do to m_transport.
abbrev with_transport : (TransportClient → TransportClient) → EmserverAdapter → EmserverAdapter
with_transport f a = record a { transport = f a.transport }

-- EmserverFacade::connectionOpen.
unfoldable pub connection_open : EmserverAdapter → Bytes → ℕ → EmserverAdapter
connection_open a remote_ip port =
    with_transport (open_connection (some (record { interface = remote_ip; port = port }))) a

-- waitReading of the session that there is by now, if there is one.
pub wait_reading : EmserverAdapter → EmserverAdapter
wait_reading a = elim a.session [
  | none ↦ a
  | some session ↦ record a { session = some (record session { reading = true }) }
]

module _ (codec : EmserverCodec) where
  unfoldable pub send_request_capabilities : EmserverAdapter → ℤ × EmserverAdapter
  unfolding call_code send_or_fail
  send_request_capabilities a =
      let (ret, a') = call_code a in
      send_or_fail a'.session
        (make_message codec request_capabilites (some (request (record { dummy = none }))) ret) ret
        a'

  -- The control message is made of the sensors by DataConverter::sensorsToProto.
  unfoldable pub send_sensors_control :
      EmserverAdapter → List (Option Sensor) → Run (ℤ × EmserverAdapter)
  unfolding call_code send_or_fail
  send_sensors_control a sensors =
      let (ret, a') = call_code a in
      sensors_to_proto codec sensors >>= λ req. done (
        send_or_fail a'.session
          (make_message codec sensors_configuration_control (some (control req)) ret) ret a')

  module _ (user : User) where
    unfoldable pub connection_close : EmserverAdapter → Run EmserverAdapter
    unfolding call_found cast_connected_state
    connection_close a =
        let closed = record a { transport = close_connection a.transport; session = none } in
        call_found cast_connected_state (a.client_callbacks connected_state_changed)
          (λ f. user.on_connected_state f not_connected) closed

    unfoldable pub on_client_connected : Session → EmserverAdapter → Run EmserverAdapter
    unfolding call_found cast_connected_state wait_reading
    on_client_connected session a =
        let st : ConnectedState = record {
          local_point = session.local_socket;
          remote_point = session.connected_socket;
        } in
        call_found cast_connected_state (a.client_callbacks connected_state_changed)
          (λ f. user.on_connected_state f st) (record a { session = some session })
        >>= λ a'. done (wait_reading a')

    -- The part of onSessionError for the codes that are not singled out.
    pub session_lost : EmserverAdapter → Run EmserverAdapter
    unfolding call_found cast_connected_state
    session_lost a =
        call_found cast_connected_state (a.client_callbacks connected_state_changed)
          (λ f. user.on_connected_state f not_connected) a
        >>= λ a'. done (with_transport (open_connection none) a')

    unfoldable pub on_session_error : ErrorCode → EmserverAdapter → Run EmserverAdapter
    unfolding session_lost
    on_session_error operation_aborted a = done (record a { session = none })
    on_session_error operation_not_supported a = done (record a { session = none })
    on_session_error connection_aborted a = done (record a { session = none })
    on_session_error (other_error n) a = session_lost (record a { session = none })

    unfoldable pub on_capabilities_response :
        Capabilities → ℤ → EmserverAdapter → Run EmserverAdapter
    unfolding call_found cast_capabilities
    on_capabilities_response caps id a =
        call_found cast_capabilities (a.client_callbacks response_capabilities)
          (λ f. user.on_capabilities f (from_caps codec caps) id) a

    unfoldable pub on_sensor_activated_response :
        SensorActivated → ℤ → EmserverAdapter → Run EmserverAdapter
    unfolding call_found cast_activation
    on_sensor_activated_response sensor id a =
        call_found cast_activation (a.client_callbacks sensor_activated)
          (λ f. user.on_sensor_activation f (native_activated_sensor codec sensor) id) a

    unfoldable pub on_server_runtime_notification :
        ServerRuntimeNotification → ℤ → EmserverAdapter → Run EmserverAdapter
    unfolding call_found cast_runtime_notification
    on_server_runtime_notification error id a =
        let er_descr : ErrorDescriptor = record {
          method_code = number_or_zero error.method_id;
          error_code = int_or_zero error.code;
          description = bytes_of error.description;
        } in
        call_found cast_runtime_notification (a.client_callbacks response_server_error)
          (λ f. user.on_runtime_notification f er_descr) a

    -- m_parserProtocol, with the callbacks that the constructor of EmserverAdapter registers.
    unfoldable pub parser_protocol : EmserverProcessor EmserverAdapter
    parser_protocol =
        register_callback
          (register_callback
            (register_callback (Emserver.create 1) Emserver.response_capabilities
              (capability_response on_capabilities_response))
            Emserver.sensor_activated (sensor_activation on_sensor_activated_response))
          Emserver.server_runtime_notification (runtime_notification on_server_runtime_notification)

    -- TransportClient::onHandlerResolved. Its error callback is the adapter's.
    unfoldable pub on_handler_resolved : Option ErrorCode → EmserverAdapter → Run EmserverAdapter
    on_handler_resolved er_code a =
        let resolved = record a.transport { resolving = a.transport.resolving - 1 } in
        elim er_code [
          | some code ↦ on_session_error code (record a { transport = resolved })
          | none ↦
              done (record a {
                transport = record resolved { connecting = suc a.transport.connecting };
              })
        ]

    -- TransportClient::onHandlerAccepted. Its callback for a connection is the adapter's.
    unfoldable pub on_handler_accepted :
        Option ErrorCode → Session → EmserverAdapter → Run EmserverAdapter
    on_handler_accepted er_code session a =
        let ended = record a.transport { connecting = a.transport.connecting - 1 } in
        elim er_code [
          | some code ↦ done (record a { transport = ended })
          | none ↦
              on_client_connected session (record a { transport = record ended { timer = false } })
        ]
