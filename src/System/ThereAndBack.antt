-- ===== src/System/ThereAndBack.antt =====
-- A client asks the example's program for its capabilities, over a connection, and is answered.
mod Runs
use emserver.Base.{
  ℕ, suc, ◌^◌, ◌<◌, ◌≡◌, refl, sym, ap, ◌∙◌, List, [], ◌∷◌, ◌++◌, map, some, Bool, true, done,
  done-injective, Bytes, pos,
}
use mathlib.Core.List.{append_cancel_left}
use emserver.Protocol.{Checksum}
use emserver.Common.{CommonCodec, CommonProcessor, init, run}
use emserver.Session.Send.Progress.{strings}
use emserver.Emserver.Proto.{EmserverCodec}
use emserver.Emserver.{register_callback, receive_common_message}
use emserver.Emserver
use emserver.Emserver.Dispatch.{in_mode}
use emserver.Sensors.Exchange.{seen, seen_state}
use emserver.Server.{CServer, TcpSession, processor}
use emserver.Client.{
  EmserverAdapter, Session, User, send_request_capabilities, parser_protocol, response_capabilities,
  sensor_activated, response_server_error, response_of_capabilities, response_of_sensor_activation,
  server_runtime_notification,
}
use emserver.NativeServer.{Program, contact, thermometer, application}
use emserver.System.{receive_all}
use emserver.Common.{CommonMessage}
use emserver.System.Carrier.{Carrier, carried_processes}
use emserver.System.Journey.{Journey, Arrives, processor_events, over_sessions}
use emserver.System.Conversation.{conversation}

module _ (carrier : Carrier) (messages : EmserverCodec) (user : User) (g : Program) where
  -- The conversation over a connection that carries the strings of the two sides.
  pub conversation_carried :
      (a client a1 a2 a3 : EmserverAdapter) (mine : Session) (s : CServer) (theirs : TcpSession)
      (cb f1 f2 f3 : ℕ) (there back : carrier.Trip)
      → a.session ≡ some mine
      → mine.is_open ≡ true
      → a.method_counter < 2 ^ 31
      → s.session ≡ some theirs
      → theirs.is_open ≡ true
      → s.on_client_caps_request ≡ some cb
      → client.client_callbacks response_capabilities ≡ some (response_of_capabilities f1)
      → user.on_capabilities f1
          (map seen (contact ∷ thermometer g.current_value ∷ []))
          (pos a.method_counter)
          client
        ≡ done a1
      → a1.client_callbacks sensor_activated ≡ some (response_of_sensor_activation f2)
      → user.on_sensor_activation f2 (seen_state (thermometer (pos 30))) (pos g.send_id) a1
        ≡ done a2
      → a2.client_callbacks response_server_error ≡ some (server_runtime_notification f3)
      → user.on_runtime_notification f3
          (record { method_code = a.method_counter; error_code = pos 0; description = [] })
          a2
        ≡ done a3
      → (send_request_capabilities messages a).1.sent ≡ a.sent ++ carrier.given there
      → ((s' : CServer)
          → receive_all messages
              (processor messages (application messages g))
              (map
                (in_mode messages (processor messages (application messages g)))
                (carrier.given there))
              s
            ≡ done s'
          → s'.sent ≡ s.sent ++ carrier.given back)
      → (ms ms' : List CommonMessage) × (s' : CServer) × carrier.Gets there ms
        × (receive_all messages (processor messages (application messages g)) ms s ≡ done s')
        × carrier.Gets back ms'
        × (receive_all messages (parser_protocol messages user) ms' client ≡ done a3)
  unfolding receive_all processor parser_protocol register_callback Emserver.create
  conversation_carried a client a1 a2 a3 mine s theirs cb f1 f2 f3 there back e opened small e'
        opened' asked r1 u1 r2 u2 r3 u3 given given' =
      let server = processor messages (application messages g) in
      let (str, one, two, three, asks, answers, told) =
        conversation messages user g a client a1 a2 a3 mine s theirs cb f1 f2 f3 e opened small e'
          opened' asked r1 u1 r2 u2 r3 u3 in
      let asked_for : carrier.given there ≡ str ∷ [] =
        append_cancel_left a.sent (carrier.given there) (str ∷ [])
          (sym given ∙ ap (λ x. x.1.sent) asks) in
      let s' = record s { sent = s.sent ++ (one ∷ two ∷ three ∷ []) } in
      let answered : receive_all messages server
            (map (in_mode messages server) (carrier.given there)) s
          ≡ done s' =
        rw (asked_for, answers) in
      let returned : carrier.given back ≡ one ∷ two ∷ three ∷ [] =
        append_cancel_left s.sent (carrier.given back) (one ∷ two ∷ three ∷ [])
          (sym (given' s' answered)) in
      let (ms, got, received) = carried_processes carrier messages server s there refl in
      let (ms', got', received') =
        carried_processes carrier messages (parser_protocol messages user) client back refl in
      (ms, ms', s', got, received ∙ answered, got', received' ∙ rw (returned, told))

module _ (consumes : Bool) (c : Checksum) (codec : CommonCodec) (messages : EmserverCodec)
    (user : User) (g : Program) where
  -- The client asks for the capabilities over the connection, and what the server gives its session
  -- when it processes the request goes back over it. Whatever way the threads, the sockets and the
  -- network of the two directions go, until they are at rest: the server has answered, and the
  -- client calls its user three times, with the sensors under the request's id, with the
  -- thermometer's new value under the program's own id, and with the result 0 under the request's
  -- id. The client has made less than 2 ^ 31 calls, its user's functions return, and leave the others registered; in both directions no write
  -- fails, no wait ends for no reason, the frames are clean, and the processor is not destroyed.
  pub conversation_over_wire :
      (a client a1 a2 a3 : EmserverAdapter) (mine : Session) (s : CServer) (theirs : TcpSession)
      (cb f1 f2 f3 : ℕ) (there back : Journey)
      → a.session ≡ some mine
      → mine.is_open ≡ true
      → a.method_counter < 2 ^ 31
      → s.session ≡ some theirs
      → theirs.is_open ≡ true
      → s.on_client_caps_request ≡ some cb
      → client.client_callbacks response_capabilities ≡ some (response_of_capabilities f1)
      → user.on_capabilities f1
          (map seen (contact ∷ thermometer g.current_value ∷ []))
          (pos a.method_counter)
          client
        ≡ done a1
      → a1.client_callbacks sensor_activated ≡ some (response_of_sensor_activation f2)
      → user.on_sensor_activation f2 (seen_state (thermometer (pos 30))) (pos g.send_id) a1
        ≡ done a2
      → a2.client_callbacks response_server_error ≡ some (server_runtime_notification f3)
      → user.on_runtime_notification f3
          (record { method_code = a.method_counter; error_code = pos 0; description = [] })
          a2
        ≡ done a3
      → Arrives consumes c codec there
      → (send_request_capabilities messages a).1.sent ≡ a.sent ++ strings there.sent
      → Arrives consumes c codec back
      → ((s' : CServer)
          → receive_all messages
              (processor messages (application messages g))
              (map
                (in_mode messages (processor messages (application messages g)))
                (strings there.sent))
              s
            ≡ done s'
          → s'.sent ≡ s.sent ++ strings back.sent)
      → (q q' : CommonProcessor) × (s' : CServer) × (run c codec
            (processor_events consumes c codec there)
            init
          ≡ done q)
        × (receive_all messages (processor messages (application messages g)) q.delivered s
            ≡ done s')
        × (run c codec (processor_events consumes c codec back) init ≡ done q')
        × (receive_all messages (parser_protocol messages user) q'.delivered client ≡ done a3)
  conversation_over_wire a client a1 a2 a3 mine s theirs cb f1 f2 f3 there back e opened small e'
        opened' asked r1 u1 r2 u2 r3 u3 goes given comes given' =
      let (ms, ms', s', (q, ran, same), answered, (q', ran', same'), told) =
        conversation_carried (over_sessions consumes c codec) messages user g a client a1 a2 a3 mine
          s theirs cb f1 f2 f3 (there, goes) (back, comes) e opened small e' opened' asked r1 u1 r2
          u2 r3 u3 given given' in
      (q, q', s', ran, rw same answered, ran', rw same' told)
