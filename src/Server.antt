-- ===== src/Server.antt =====
-- cserver/cserver.h, cserver/cserver.cpp and server/src/transport.cpp: the server behind the C
-- interface. The logging of text, and the counters of a build option, are left out.
mod Runs
pub mod Transport
pub mod State
pub mod Lifetime
pub mod Accepted
pub mod Replies
pub mod Listening
use emserver.Base.{
  ℕ, ◌-◌, ◌%◌, ◌^◌, ltb, ◌≡◌, List, [], ◌∷◌, ◌++◌, Option, none, some, Bool, true, false, not, ◌&&◌,
  Run, done, crash, null_pointer, ◌>>=◌, Bytes, ℤ, pos, negsuc, to_u32, ErrorCode,
  operation_aborted, operation_not_supported, connection_aborted, other_error, if◌then◌else◌,
}
use emserver.Common.{has}
use emserver.Emserver.Proto.{
  EmserverCodec, ProtoMessage, capabilities, notification, activated, Capabilities,
  RequestCapabilities, SensorsControl, SensorActivated, ServerRuntimeNotification, all_initialized,
  activated_is_initialized,
}
use emserver.Emserver.{
  EmserverProcessor, Callback, capability_request, sensor_controls, MethodCode, request_capabilites,
  response_capabilities, server_runtime_notification, sensor_control, sensor_activated, no_id,
  make_message, register_callback, receive_common_message,
}
use emserver.Emserver
use emserver.Sensors.Server.{
  Sensors, SensorBase, proto_sensors, native_sensors, free_sensors, active_sensor_from_native,
}
use Transport.{TransportServer, Network, listen_transport, stop_listening, accept_new_connection}
pub use State.{TcpSession, CServer, Application, error_one, error_two, is_nil}
unfoldable pub use State.{
  create, set_client_connected_callback, set_caps_request_callback, set_sensors_control_callback,
  set_logging_callback, send_data, send_to_session,
}

module _ (net : Network) where
  -- CServer::listen. `ip` may be null, and the port becomes a uint16_t. If there is a transport, its
  -- destructor runs (Server.Lifetime); what is left is what is left once it has returned.
  unfoldable pub listen : CServer → Option Bytes → ℤ → Run (ℤ × CServer)
  listen s none port = crash null_pointer
  listen s (some ip) port =
      let fresh : TransportServer = record {
        interface = ip;
        port = to_u32 port % 2 ^ 16;
        acceptor = false;
        pending_accepts = 0;
      } in
      let (is_listen, server) = listen_transport net fresh in
      if is_listen
      then done (pos 0, record s { server = some (accept_new_connection server) })
      else done (error_two, record s { server = some server })

  -- `if(m_server->listen(true)) m_server->acceptNewConnection();`
  pub relisten : Option TransportServer → CServer → Run CServer
  relisten none s = crash null_pointer
  relisten (some server) s =
      let (is_listen, server') = listen_transport net server in
      done
        (record s { server = some (if is_listen then accept_new_connection server' else server') })

  -- The part of CServer::callbackSessionError for the codes that are not singled out.
  pub session_lost : Application → Option ℕ → CServer → Run CServer
  unfolding relisten
  session_lost app none s = relisten s.server s
  session_lost app (some cb) s = app.client_connected cb none 0 s >>= λ s'. relisten s'.server s'

  unfoldable pub callback_session_error : Application → ErrorCode → CServer → Run CServer
  unfolding session_lost
  callback_session_error app operation_aborted s = done (record s { session = none })
  callback_session_error app operation_not_supported s = done (record s { session = none })
  callback_session_error app connection_aborted s = done (record s { session = none })
  callback_session_error app (other_error n) s =
      session_lost app s.on_client_connected (record s { session = none })

unfoldable pub close : CServer → CServer
close s = record s {
  server = elim s.server [ none ↦ none | some server ↦ some (stop_listening server) ];
  session = none;
}

-- `m_server->listen(false)`
pub stop : Option TransportServer → Run (Option TransportServer)
stop none = crash null_pointer
stop (some server) = done (some (stop_listening server))

pub notify_connected : Application → Option ℕ → TcpSession → CServer → Run CServer
notify_connected app none session s = done s
notify_connected app (some cb) session s =
    app.client_connected cb (some session.address) session.port s

-- CServer::transportClientConnectedCallback. The session starts to read, with this server's
-- processor for what it reads.
unfoldable pub transport_client_connected_callback :
    Application → TcpSession → CServer → Run CServer
unfolding stop notify_connected
transport_client_connected_callback app session s = stop s.server >>= λ server.
    notify_connected app s.on_client_connected session
      (record s { session = some session; server = server })

abbrev accept_completed : Option TransportServer → Option TransportServer
accept_completed none = none
accept_completed (some t) = some (record t { pending_accepts = t.pending_accepts - 1 })

-- TransportServer::handlerAccept, the completion of async_accept. Its callback is this server's. An
-- accept that is aborted has been dropped with its acceptor.
unfoldable pub handler_accept : Application → Option ErrorCode → TcpSession → CServer → Run CServer
handler_accept app (some operation_aborted) session s = done s
handler_accept app _ session s =
    transport_client_connected_callback app session
      (record s { server = accept_completed s.server })

module _ (codec : EmserverCodec) where
  -- CServer::runtimeError, with the error's text.
  unfoldable pub runtime_error : ℤ → Bytes → CServer → CServer
  unfolding send_to_session
  runtime_error code description s =
      let msg : ServerRuntimeNotification = record {
        method_id = some 0;
        code = some code;
        description = some description;
      } in
      send_to_session s.session
        (make_message codec server_runtime_notification (some (notification msg)) no_id) s

  -- CServer::sendMethodCallResult. The id of the call is a uint32_t.
  unfoldable pub send_method_call_result : ℕ → ℤ → CServer → CServer
  unfolding send_to_session
  send_method_call_result call_id code s =
      let srn : ServerRuntimeNotification = record {
        method_id = some call_id;
        code = some code;
        description = none;
      } in
      let resp = make_message codec server_runtime_notification (some (notification srn)) no_id in
      if is_nil resp then s else send_to_session s.session resp s

  -- The two ways to end of sendCapabilities and sendActivatedSensorState, which answer a request
  -- `id` with `message` or, if that is not complete, with a result -1.
  pub answer : MethodCode → ProtoMessage → Bool → ℤ → Option TcpSession → CServer → ℤ × CServer
  unfolding send_data send_method_call_result
  answer code message is_initialized id none s = (error_one, s)
  answer code message is_initialized id (some session) s =
      if is_initialized
      then (pos 0, send_data session (make_message codec code (some message) id) s)
      else (error_one, send_method_call_result (to_u32 id) error_one s)

  unfoldable pub send_capabilities : ℤ → Sensors → CServer → Run (ℤ × CServer)
  unfolding answer
  send_capabilities id caps s = proto_sensors codec caps >>= λ s_caps. done (
      answer response_capabilities (capabilities s_caps)
        (all_initialized s_caps.system_configuration) id s.session s)

  unfoldable pub send_activated_sensor_state : ℤ → Option SensorBase → CServer → ℤ × CServer
  unfolding answer
  send_activated_sensor_state id sensor s =
      let msg = active_sensor_from_native codec sensor in
      answer sensor_activated (activated msg) (activated_is_initialized msg) id s.session s

  module _ (app : Application) where
    pub ask_caps : Option ℕ → ℤ → CServer → Run (ℤ × CServer)
    ask_caps none id s = done (error_one, s)
    ask_caps (some cb) id s = app.caps_request cb id s

    -- CServer::callbackEmserverCapsRequest. Each such request has its required fields: it has none.
    unfoldable pub callback_emserver_caps_request : RequestCapabilities → ℤ → CServer → Run CServer
    unfolding ask_caps send_method_call_result
    callback_emserver_caps_request req id s =
        ask_caps s.on_client_caps_request id s >>= λ (code, s').
        done (send_method_call_result (to_u32 id) code s')

    pub ask_control : Option ℕ → SensorsControl → ℤ → CServer → Run (ℤ × CServer)
    ask_control none req id s = done (error_two, s)
    ask_control (some cb) req id s = native_sensors codec req >>= λ native_config.
        app.sensors_control cb id native_config s >>= λ (code, s').
        free_sensors (some native_config) >>= λ _. done (code, s')

    -- CServer::callbackEmserverSensorControlRequest.
    unfoldable pub callback_emserver_sensor_control_request :
        SensorsControl → ℤ → CServer → Run CServer
    unfolding ask_control send_method_call_result
    callback_emserver_sensor_control_request req id s =
        if not (all_initialized req.config)
        then done (send_method_call_result (to_u32 id) error_two s)
        else (ask_control s.on_sensor_control_request req id s >>= λ (code, s').
            done (send_method_call_result (to_u32 id) code s'))

    -- m_processor, with the callbacks that the constructor of CServer registers.
    unfoldable pub processor : EmserverProcessor CServer
    processor =
        register_callback
          (register_callback (Emserver.create 1) request_capabilites
            (capability_request callback_emserver_caps_request))
          sensor_control (sensor_controls callback_emserver_sensor_control_request)
