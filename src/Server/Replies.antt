-- ===== src/Server/Replies.antt =====
-- What the two sides get of a request and its answer.
use emserver.Base.{
  ℕ, ◌≡◌, refl, ◌∙◌, List, [], ◌∷◌, ◌++◌, map, some, true, Run, done, crash, null_pointer, ◌>>=◌,
  All, Bytes, ℤ, pos, to_u32,
}
use emserver.Emserver.Proto.{
  EmserverCodec, request, capabilities, control, Capabilities, RequestCapabilities, SensorsControl,
}
use emserver.Emserver.{
  EmserverProcessor, capability_response, capability_request, sensor_controls, request_capabilites,
  response_capabilities, sensors_configuration_control, sensor_control, make_message,
  register_callback, receive_common_message, method_number,
}
use emserver.Emserver
use emserver.Emserver.Dispatch.{in_mode, receive_calls}
use emserver.Sensors.Server.{SensorBase, configuration_of}
use emserver.Sensors.Client.{Sensor, from_caps, configuration}
use emserver.Sensors.Exchange.{
  IsKnown, seen, array_of, proto_sensors-array, native_all-map, all_initialized-map,
  native_sensors_crash, all_initialized-configuration,
}
use emserver.Server.{
  CServer, TcpSession, Application, send_capabilities, send_method_call_result, processor,
  callback_emserver_caps_request, ask_caps, ask_control, callback_emserver_sensor_control_request,
}

module _ (codec : EmserverCodec) where
  -- The string of a request's answer, for an array of sensors of known types.
  abbrev pub capabilities_string : List SensorBase → ℤ → Bytes
  capabilities_string ss id =
      make_message codec response_capabilities
        (some (capabilities (record { system_configuration = map (configuration_of codec) ss }))) id

  pub send_capabilities-array :
      (s : CServer) (session : TcpSession) (ss : List SensorBase) (id : ℤ)
      → s.session ≡ some session
      → session.is_open ≡ true
      → All IsKnown ss
      → send_capabilities codec id (array_of ss) s
        ≡ done (pos 0, record s { sent = s.sent ++ (capabilities_string ss id ∷ []) })
  unfolding send_capabilities
  send_capabilities-array s session ss id e opened known =
      rw (proto_sensors-array codec ss, all_initialized-map codec ss known, e, opened)

  -- With an open session and sensors of known types, the server answers a request for the
  -- capabilities with 0 and one string more to send; and that string, in the mode of the client,
  -- calls the client's callback with the request's id and with capabilities that the client
  -- converts to the same sensors in the same order.
  pub capabilities_answered :
      (s : CServer) (session : TcpSession) (ss : List SensorBase) (id : ℤ) {C : Type 0}
      (p : EmserverProcessor C) (f : Capabilities → ℤ → C → Run C) (client : C)
      → s.session ≡ some session
      → session.is_open ≡ true
      → All IsKnown ss
      → p.callbacks response_capabilities ≡ some (capability_response f)
      → (caps : Capabilities) × (str : Bytes) × (send_capabilities codec id (array_of ss) s
          ≡ done (pos 0, record s { sent = s.sent ++ (str ∷ []) }))
        × (receive_common_message codec p (in_mode codec p str) client
            ≡ (f caps id client >>= λ c. done (true, c)))
        × (from_caps codec caps ≡ map seen ss)
  capabilities_answered s session ss id p f client e opened known registered =
      let caps : Capabilities = record { system_configuration = map (configuration_of codec) ss } in
      (
        caps,
        capabilities_string ss id,
        send_capabilities-array s session ss id e opened known,
        receive_calls codec p (capabilities caps) id client (capability_response f) (f caps)
            (all_initialized-map codec ss known) registered refl,
        unfold from_caps in native_all-map codec ss known,
      )

  module _ (app : Application) where
    -- A client's request for the capabilities calls the application's callback with its id, and the
    -- server sends what the callback returns as the call's result, under the id as a uint32_t.
    pub caps_request_answered :
        (req : RequestCapabilities) (id code : ℤ) (cb : ℕ) (s s' : CServer)
        → s.on_client_caps_request ≡ some cb
        → app.caps_request cb id s ≡ done (code, s')
        → receive_common_message codec
            (processor codec app)
            (in_mode codec
              (processor codec app)
              (make_message codec request_capabilites (some (request req)) id))
            s
          ≡ done (true, send_method_call_result codec (to_u32 id) code s')
    unfolding callback_emserver_caps_request ask_caps
    caps_request_answered req id code cb s s' e asked =
        receive_calls codec (processor codec app) (request req) id s
          (capability_request (callback_emserver_caps_request codec app))
          (callback_emserver_caps_request codec app req) refl
          (unfold processor register_callback Emserver.create in refl) refl
        ∙ simp (e, asked)

    -- A control message under the code that the server listens to, with the configuration of one
    -- sensor at least, ends the server by a write through a null pointer, if a callback is
    -- registered for it.
    pub control_crashes :
        (sensor : Sensor) (sensors : List Sensor) (id : ℤ) (cb : ℕ) (s : CServer)
        → s.on_sensor_control_request ≡ some cb
        → (let req : SensorsControl = record {
          config = map (configuration codec) (sensor ∷ sensors);
        } in
            receive_common_message codec
              (processor codec app)
              (in_mode codec
                (processor codec app)
                (make_message codec sensor_control (some (control req)) id))
              s
            ≡ crash null_pointer)
    unfolding callback_emserver_sensor_control_request ask_control
    control_crashes sensor sensors id cb s e =
        let req : SensorsControl = record {
          config = map (configuration codec) (sensor ∷ sensors);
        } in
        let complete = all_initialized-configuration codec (sensor ∷ sensors) in
        receive_calls codec (processor codec app) (control req) id s
          (sensor_controls (callback_emserver_sensor_control_request codec app))
          (callback_emserver_sensor_control_request codec app req) complete
          (unfold processor register_callback Emserver.create in refl) refl
        ∙ rw (complete, e, ask_control, native_sensors_crash codec sensor sensors)
