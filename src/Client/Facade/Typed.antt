-- ===== src/Client/Facade/Typed.antt =====
-- boost::any_cast never fails in a client.
use emserver.Base.{
  ◌-◌, subst, List, [], ◌∷◌, none, some, returns, Post-bind, some-injective, ErrorCode,
  operation_aborted, operation_not_supported, connection_aborted, other_error,
}
use emserver.Emserver.Proto.{EmserverCodec}
use emserver.Emserver.{
  Callback, MethodCode, capability_response, runtime_notification, sensor_activation,
  register_callback,
}
use emserver.Emserver
use emserver.Emserver.Typed.{Fits, FitsEach, receive-Kept}
use emserver.Client
use emserver.Client.Transport.{close_connection}
use emserver.Sensors.Client.{from_caps, native_activated_sensor, sensors_to_proto}
use emserver.Client.{
  not_connected, EmserverAdapter, Session, User, ConnectedState, ErrorDescriptor,
  MethodCallbackCode, connected_state_changed, response_server_error, response_capabilities,
  sensor_activated, ClientCallback, connected_state_changing, response_of_capabilities,
  response_of_sensor_activation, server_runtime_notification, callback_number,
  register_client_callback, cast_connected_state, cast_capabilities, cast_activation,
  cast_runtime_notification, call_found, call_cast, connection_open, connection_close,
  send_request_capabilities, send_sensors_control, send_or_fail, send_data, call_code,
  on_client_connected, on_session_error, session_lost, wait_reading, on_capabilities_response,
  on_sensor_activated_response, on_server_runtime_notification, on_handler_resolved,
  on_handler_accepted, parser_protocol,
}
use emserver.Client.Facade.{
  ClientEvent, opens, closes, asks, controls, on_connected, on_capabilities, on_activation,
  on_notification, resolves, connects, loses, expires, receives, client_step, client_run,
  register_callback_connected_state_changed, register_callback_capabilities,
  register_callback_sensor_activated, register_callback_server_runtime_notifications,
}
use emserver.Client.Typed.{
  IsTyped, NotCast, Typed, IsTame, found-Typed, connected_state-cast, capabilities-cast,
  activation-cast, notification-cast, fill-NotCast, send_or_fail-IsTyped, wait_reading-IsTyped,
  register-IsTyped,
}

module _ (codec : EmserverCodec) (user : User) (tame : IsTame user) where
  notified-Typed :
      (st : ConnectedState) (a : EmserverAdapter)
      → IsTyped a
      → Typed (
          call_found cast_connected_state
            (a.client_callbacks connected_state_changed)
            (λ f. user.on_connected_state f st)
            a)
  notified-Typed st a h =
      found-Typed cast_connected_state (a.client_callbacks connected_state_changed)
        (λ f. user.on_connected_state f st) a
        (λ cb e. connected_state-cast cb (h connected_state_changed cb e)) (λ f. tame.0 f st a h) h

  connected-Typed :
      (session : Session) (a : EmserverAdapter)
      → IsTyped a
      → Typed (on_client_connected codec user session a)
  unfolding on_client_connected
  connected-Typed session a h =
      Post-bind
        (notified-Typed
          (record { local_point = session.local_socket; remote_point = session.connected_socket })
          (record a { session = some session }) h)
        λ a' h'. returns (wait_reading-IsTyped a' h')

  error-Typed :
      (code : ErrorCode) (a : EmserverAdapter)
      → IsTyped a
      → Typed (on_session_error codec user code a)
  unfolding on_session_error session_lost
  error-Typed operation_aborted a h = returns h
  error-Typed operation_not_supported a h = returns h
  error-Typed connection_aborted a h = returns h
  error-Typed (other_error n) a h =
      Post-bind (notified-Typed not_connected (record a { session = none }) h) λ a' h'. returns h'

  parser-FitsEach : FitsEach IsTyped NotCast (parser_protocol codec user)
  unfolding parser_protocol register_callback Emserver.create
  parser-FitsEach Emserver.response_capabilities callback e =
      subst (Fits IsTyped NotCast Emserver.response_capabilities) (some-injective e) λ msg id a h.
        unfold on_capabilities_response in
        found-Typed cast_capabilities (a.client_callbacks response_capabilities)
          (λ f. user.on_capabilities f (from_caps codec msg) id) a
          (λ cb e'. capabilities-cast cb (h response_capabilities cb e'))
          (λ f. tame.1 f (from_caps codec msg) id a h) h
  parser-FitsEach Emserver.sensor_activated callback e =
      subst (Fits IsTyped NotCast Emserver.sensor_activated) (some-injective e) λ msg id a h.
        unfold on_sensor_activated_response in
        found-Typed cast_activation (a.client_callbacks sensor_activated)
          (λ f. user.on_sensor_activation f (native_activated_sensor codec msg) id) a
          (λ cb e'. activation-cast cb (h sensor_activated cb e'))
          (λ f. tame.2 f (native_activated_sensor codec msg) id a h) h
  parser-FitsEach Emserver.server_runtime_notification callback e =
      subst (Fits IsTyped NotCast Emserver.server_runtime_notification) (some-injective e)
        λ msg id a h.
          unfold on_server_runtime_notification in
          found-Typed cast_runtime_notification (a.client_callbacks response_server_error)
            (λ f. user.on_runtime_notification f _) a
            (λ cb e'. notification-cast cb (h response_server_error cb e')) (λ f. tame.3 f _ a h) h
  parser-FitsEach Emserver.request_capabilites callback e = absurd (cc e)
  parser-FitsEach Emserver.sensors_configuration_control callback e = absurd (cc e)
  parser-FitsEach Emserver.sensor_control callback e = absurd (cc e)

  client_step-Typed :
      (e : ClientEvent) (a : EmserverAdapter) → IsTyped a → Typed (client_step codec user e a)
  unfolding client_step connection_open connection_close send_request_capabilities
      send_sensors_control call_code sensors_to_proto on_handler_resolved on_handler_accepted
      register_callback_connected_state_changed register_callback_capabilities
      register_callback_sensor_activated register_callback_server_runtime_notifications
  client_step-Typed (opens remote_ip port) a h = returns h
  client_step-Typed closes a h =
      notified-Typed not_connected
        (record a { transport = close_connection a.transport; session = none }) h
  client_step-Typed asks a h = returns (send_or_fail-IsTyped a.session _ _ _ h)
  client_step-Typed (controls sensors) a h =
      Post-bind
        (Post-bind (fill-NotCast codec sensors (record { config = [] }))
          λ req u. returns (send_or_fail-IsTyped a.session _ _ _ h))
        λ r h'. returns h'
  client_step-Typed (on_connected f) a h =
      returns (register-IsTyped a connected_state_changed (connected_state_changing f) tt h)
  client_step-Typed (on_capabilities f) a h =
      returns (register-IsTyped a response_capabilities (response_of_capabilities f) tt h)
  client_step-Typed (on_activation f) a h =
      returns (register-IsTyped a sensor_activated (response_of_sensor_activation f) tt h)
  client_step-Typed (on_notification f) a h =
      returns (register-IsTyped a response_server_error (server_runtime_notification f) tt h)
  client_step-Typed (resolves none) a h = returns h
  client_step-Typed (resolves (some code)) a h =
      error-Typed code
        (record a { transport = record a.transport { resolving = a.transport.resolving - 1 } }) h
  client_step-Typed (connects none session) a h = connected-Typed session _ h
  client_step-Typed (connects (some code) session) a h = returns h
  client_step-Typed (loses code) a h = error-Typed code a h
  client_step-Typed (expires code) a h = returns h
  client_step-Typed (receives message) a h =
      Post-bind
        (receive-Kept IsTyped NotCast codec (parser_protocol codec user) message a parser-FitsEach
          h)
        λ r h'. returns h'

  run-Typed :
      (es : List ClientEvent) (a : EmserverAdapter) → IsTyped a → Typed (client_run codec user es a)
  unfolding client_run
  run-Typed [] a h = returns h
  run-Typed (e ∷ es) a h = Post-bind (client_step-Typed e a h) (run-Typed es)

-- Whatever happens to a new client, in whatever order: its user registers and calls what he likes,
-- the server sends any messages, connections are made and lost. It finds under each code a function
-- of the code's type, and never ends with boost::bad_any_cast; the functions of its user, if they
-- return or throw, do so themselves.
pub client_run-Typed :
    (codec : EmserverCodec) (user : User) (es : List ClientEvent)
    → IsTame user
    → Typed (client_run codec user es Client.create)
client_run-Typed codec user es tame =
    run-Typed codec user tame es Client.create (unfold Client.create in λ code cb e. absurd (cc e))
