-- ===== src/Client/Exchange.antt =====
-- What becomes of the client's requests at the server, and of the server's answers at the client's
-- user. The strings travel in the common messages of the mode of both sides.
use emserver.Base.{
  ℕ, suc, ◌^◌, ◌<◌, ◌≡◌, refl, ◌∙◌, List, [], ◌∷◌, ◌++◌, map, none, some, true, false, done, ◌>>=◌,
  All, Bytes, ℤ, pos,
}
use emserver.Emserver.Proto.{
  EmserverCodec, request, notification, control, activated, RequestCapabilities, SensorsControl,
}
use emserver.Emserver.{
  MethodCode, EmserverProcessor, no_id, capability_response, runtime_notification,
  sensor_activation, request_capabilites, sensors_configuration_control, make_message,
  register_callback, receive_common_message,
}
use emserver.Emserver
use emserver.Emserver.Dispatch.{in_mode, receive_calls, receive-sensors_configuration_control}
use emserver.Sensors.Server.{SensorBase, active_sensor_from_native}
use emserver.Sensors.Client.{Sensor}
use emserver.Sensors.Exchange.{
  IsKnown, seen, seen_state, array_of, activation_exchange, sensors_to_proto_empty,
}
use emserver.Server.{
  CServer, TcpSession, Application, send_capabilities, send_activated_sensor_state,
  send_method_call_result, processor,
}
use emserver.Server.Replies.{caps_request_answered, capabilities_answered}
use emserver.Client.{
  EmserverAdapter, Session, User, send_request_capabilities, send_sensors_control, parser_protocol,
  on_capabilities_response, on_sensor_activated_response, on_server_runtime_notification,
  response_capabilities, sensor_activated, response_server_error, response_of_capabilities,
  response_of_sensor_activation, server_runtime_notification,
}
use emserver.Base.{to_i32-small, to_u32-small}
use emserver.Client.Sent.{
  active_sensor_is_initialized, make_message-not_empty, all_initialized-empty, code_of-not_empty,
  request_sent, activation_string, send_activated-sensor, result_of, result_string,
  send_method_call_result-sent,
}

module _ (codec : EmserverCodec) (user : User) where
  -- The user's function that is registered for capabilities is called with the sensors whose array
  -- the server sends, in their order, and with the id of the request that they answer.
  pub capabilities_reach_user :
      (s : CServer) (session : TcpSession) (ss : List SensorBase) (id : ℤ)
      (client : EmserverAdapter) (f : ℕ)
      → s.session ≡ some session
      → session.is_open ≡ true
      → All IsKnown ss
      → client.client_callbacks response_capabilities ≡ some (response_of_capabilities f)
      → (str : Bytes) × (send_capabilities codec id (array_of ss) s
          ≡ done (pos 0, record s { sent = s.sent ++ (str ∷ []) }))
        × (receive_common_message codec
              (parser_protocol codec user)
              (in_mode codec (parser_protocol codec user) str)
              client
            ≡ (user.on_capabilities f (map seen ss) id client >>= λ c. done (true, c)))
  unfolding on_capabilities_response
  capabilities_reach_user s session ss id client f e opened known registered =
      let (caps, str, sent, received, same) =
        capabilities_answered codec s session ss id (parser_protocol codec user)
          (on_capabilities_response codec user) client e opened known
          (unfold parser_protocol register_callback Emserver.create in refl) in
      (str, sent, received ∙ rw (registered, same))

  -- The user's function that is registered for activations is called with the current state of the
  -- sensor whose activation the server sends.
  pub activation_reaches_user :
      (s : CServer) (session : TcpSession) (sensor : SensorBase) (id : ℤ) (client : EmserverAdapter)
      (f : ℕ)
      → s.session ≡ some session
      → session.is_open ≡ true
      → IsKnown sensor
      → client.client_callbacks sensor_activated ≡ some (response_of_sensor_activation f)
      → (str : Bytes) × (send_activated_sensor_state codec id (some sensor) s
          ≡ (pos 0, record s { sent = s.sent ++ (str ∷ []) }))
        × (receive_common_message codec
              (parser_protocol codec user)
              (in_mode codec (parser_protocol codec user) str)
              client
            ≡ (user.on_sensor_activation f (seen_state sensor) id client >>= λ c. done (true, c)))
  unfolding on_sensor_activated_response
  activation_reaches_user s session sensor id client f e opened known registered =
      let msg = active_sensor_from_native codec (some sensor) in
      let received =
        receive_calls codec (parser_protocol codec user) (activated msg) id client
          (sensor_activation (on_sensor_activated_response codec user))
          (on_sensor_activated_response codec user msg)
          (active_sensor_is_initialized codec sensor known)
          (unfold parser_protocol register_callback Emserver.create in refl) refl in
      (
        activation_string codec sensor id,
        send_activated-sensor codec s session sensor id e opened known,
        received ∙ rw (registered, activation_exchange codec sensor),
      )

  -- The user's function that is registered for results is called with the call's id and the code
  -- that the server sends as the call's result, and an empty description.
  pub result_reaches_user :
      (s : CServer) (session : TcpSession) (call_id : ℕ) (code : ℤ) (client : EmserverAdapter)
      (f : ℕ)
      → s.session ≡ some session
      → session.is_open ≡ true
      → client.client_callbacks response_server_error ≡ some (server_runtime_notification f)
      → (str : Bytes) × (send_method_call_result codec call_id code s
          ≡ record s { sent = s.sent ++ (str ∷ []) })
        × (receive_common_message codec
              (parser_protocol codec user)
              (in_mode codec (parser_protocol codec user) str)
              client
            ≡ (user.on_runtime_notification f
                  (record { method_code = call_id; error_code = code; description = [] })
                  client
                >>= λ c. done (true, c)))
  unfolding on_server_runtime_notification
  result_reaches_user s session call_id code client f e opened registered =
      let srn = result_of call_id code in
      let received =
        receive_calls codec (parser_protocol codec user) (notification srn) no_id client
          (runtime_notification (on_server_runtime_notification codec user))
          (on_server_runtime_notification codec user srn) refl
          (unfold parser_protocol register_callback Emserver.create in refl) refl in
      (
        result_string codec call_id code,
        send_method_call_result-sent codec s session call_id code e opened,
        received ∙ rw registered,
      )

module _ (codec : EmserverCodec) (app : Application) where
  pub request_reaches_server :
      (a : EmserverAdapter) (session : Session) (s s' : CServer) (cb : ℕ) (code : ℤ)
      → a.session ≡ some session
      → session.is_open ≡ true
      → a.method_counter < 2 ^ 31
      → s.on_client_caps_request ≡ some cb
      → app.caps_request cb (pos a.method_counter) s ≡ done (code, s')
      → (str : Bytes) × (send_request_capabilities codec a ≡ (
        pos a.method_counter,
        record a { method_counter = suc a.method_counter; sent = a.sent ++ (str ∷ []) },
      ))
        × (receive_common_message codec
              (processor codec app)
              (in_mode codec (processor codec app) str)
              s
            ≡ done (true, send_method_call_result codec a.method_counter code s'))
  request_reaches_server a session s s' cb code e opened small registered asked =
      let req : RequestCapabilities = record { dummy = none } in
      let id = pos a.method_counter in
      (
        make_message codec request_capabilites (some (request req)) id,
        request_sent codec a session e opened small,
        caps_request_answered codec app req id code cb s s' registered asked
            ∙ rw (to_u32-small a.method_counter small),
      )

  -- Whatever sensors the user gives to sendSensorsControl, the string that the client sends calls
  -- no callback at the server, and leaves the server as it is; and it is the string that the
  -- client sends for no sensors at all.
  pub control_ignored :
      (a : EmserverAdapter) (session : Session) (sensors : List Sensor) (s : CServer)
      → a.session ≡ some session
      → session.is_open ≡ true
      → a.method_counter < 2 ^ 31
      → (str : Bytes) × (send_sensors_control codec a (map some sensors)
          ≡ done (
            pos a.method_counter,
            record a { method_counter = suc a.method_counter; sent = a.sent ++ (str ∷ []) },
          ))
        × (send_sensors_control codec a (map some sensors) ≡ send_sensors_control codec a [])
        × (receive_common_message codec
              (processor codec app)
              (in_mode codec (processor codec app) str)
              s
            ≡ done (false, s))
  unfolding send_sensors_control
  control_ignored a session sensors s e opened small =
      let req : SensorsControl = record { config = [] } in
      let id = pos a.method_counter in
      (
        make_message codec sensors_configuration_control (some (control req)) id,
        rw (
          sensors_to_proto_empty codec sensors,
          to_i32-small a.method_counter small,
          e,
          opened,
          code_of-not_empty _ id (
              make_message-not_empty codec sensors_configuration_control (control req) id
                all_initialized-empty),
        ),
        rw (sensors_to_proto_empty codec sensors, sensors_to_proto_empty codec []),
        receive-sensors_configuration_control codec (processor codec app) (control req) id s
            all_initialized-empty,
      )
