-- ===== src/System/Conversation.antt =====
-- A client asks the example's program for its capabilities.
use emserver.Base.{
  ℕ, suc, ◌^◌, ◌<◌, ◌≡◌, ap, ◌∙◌, [], ◌∷◌, ◌++◌, append_assoc, map, some, true, done, Bytes, pos,
}
use emserver.Emserver.Proto.{EmserverCodec}
use emserver.Emserver.{receive_common_message}
use emserver.Emserver.Dispatch.{in_mode}
use emserver.Sensors.Exchange.{seen, seen_state}
use emserver.Server.{CServer, TcpSession, processor}
use emserver.Client.{
  EmserverAdapter, Session, User, send_request_capabilities, parser_protocol, response_capabilities,
  sensor_activated, response_server_error, response_of_capabilities, response_of_sensor_activation,
  server_runtime_notification,
}
use emserver.Client.Exchange.{
  capabilities_reach_user, activation_reaches_user, result_reaches_user, request_reaches_server,
}
use emserver.NativeServer.{
  Program, contact, thermometer, system_sensors, on_client_capabilities_request, application,
}
use emserver.System.{receive_all}

module _ (codec : EmserverCodec) (user : User) (g : Program) where
  -- The client's string for a request has the server of the example's program send three strings,
  -- and these have the client call its user three times: with the contact and the thermometer under
  -- the request's id, with the thermometer's new value under the program's own id, and with the
  -- result 0 under the request's id. The user's functions return, and leave the others registered.
  pub conversation :
      (a client a1 a2 a3 : EmserverAdapter) (mine : Session) (s : CServer) (theirs : TcpSession)
      (cb f1 f2 f3 : ℕ)
      → a.session ≡ some mine
      → mine.is_open ≡ true
      → a.method_counter < 2 ^ 31
      → s.session ≡ some theirs
      → theirs.is_open ≡ true
      → s.on_client_caps_request ≡ some cb
      → client.client_callbacks response_capabilities ≡ some (response_of_capabilities f1)
      → user.on_capabilities f1
          (map seen (contact ∷ thermometer g.current_value ∷ []))
          (pos a.method_counter)
          client
        ≡ done a1
      → a1.client_callbacks sensor_activated ≡ some (response_of_sensor_activation f2)
      → user.on_sensor_activation f2 (seen_state (thermometer (pos 30))) (pos g.send_id) a1
        ≡ done a2
      → a2.client_callbacks response_server_error ≡ some (server_runtime_notification f3)
      → user.on_runtime_notification f3
          (record { method_code = a.method_counter; error_code = pos 0; description = [] })
          a2
        ≡ done a3
      → (str one two three : Bytes) × (send_request_capabilities codec a ≡ (
        pos a.method_counter,
        record a { method_counter = suc a.method_counter; sent = a.sent ++ (str ∷ []) },
      ))
        × (receive_common_message codec
              (processor codec (application codec g))
              (in_mode codec (processor codec (application codec g)) str)
              s
            ≡ done (true, record s { sent = s.sent ++ (one ∷ two ∷ three ∷ []) }))
        × (receive_all codec
              (parser_protocol codec user)
              (map (in_mode codec (parser_protocol codec user)) (one ∷ two ∷ three ∷ []))
              client
            ≡ done a3)
  unfolding receive_all application on_client_capabilities_request system_sensors
  conversation a client a1 a2 a3 mine s theirs cb f1 f2 f3 e opened small e' opened' asked r1 u1 r2
        u2 r3 u3 =
      let id = pos a.method_counter in
      let (one, sent1, got1) =
        capabilities_reach_user codec user s theirs (contact ∷ thermometer g.current_value ∷ []) id
          client f1 e' opened' (tt, (tt, tt)) r1 in
      let s1 = record s { sent = s.sent ++ (one ∷ []) } in
      let (two, sent2, got2) =
        activation_reaches_user codec user s1 theirs (thermometer (pos 30)) (pos g.send_id) a1 f2 e'
          opened' tt r2 in
      let s2 = record s1 { sent = s1.sent ++ (two ∷ []) } in
      let (three, sent3, got3) =
        result_reaches_user codec user s2 theirs a.method_counter (pos 0) a2 f3 e' opened' r3 in
      let (str, asks, answered) =
        request_reaches_server codec (application codec g) a mine s s2 cb (pos 0) e opened small
          asked (rw (sent1, sent2)) in
      let in_order : (s2.sent ++ (three ∷ [])) ≡ s.sent ++ (one ∷ two ∷ three ∷ []) =
        append_assoc s1.sent (two ∷ []) (three ∷ [])
        ∙ append_assoc s.sent (one ∷ []) (two ∷ three ∷ []) in
      (
        str,
        one,
        two,
        three,
        asks,
        answered ∙ ap (λ t. done (true, t)) (sent3 ∙ ap (λ t. record s { sent = t }) in_order),
        rw (got1, u1) (rw (got2, u2) (rw (got3, u3))),
      )
