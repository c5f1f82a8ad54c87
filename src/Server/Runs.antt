-- ===== src/Server/Runs.antt =====
-- Requests to the server and its answers.
use emserver.Base.{
  other_error, ◌≡◌, refl, List, [], ◌∷◌, map, none, some, true, false, Run, done, crash,
  null_pointer, use_after_free, ℤ, pos, negsuc,
}
use emserver.Samples.Messages.{field_codec}
use emserver.Emserver.Proto.{Capabilities, RequestCapabilities, control}
use emserver.Emserver.{
  EmserverProcessor, capability_response, register_callback, request_capabilites,
  response_capabilities, sensor_control, make_message, receive_common_message,
}
use emserver.Emserver
use emserver.Emserver.Dispatch.{in_mode}
use emserver.Sensors.Server.{SensorBase}
use emserver.Sensors.Client.{Sensor, configuration}
use emserver.Server.{
  CServer, TcpSession, Application, create, processor, error_two, callback_session_error,
  handler_accept, transport_client_connected_callback, stop, notify_connected,
}
use emserver.Server.Listening.{
  IsExclusive, IsQuiet, here, then, accept, Reach-IsExclusive, lost_listens, told,
}
use emserver.Server.Transport.{TransportServer, Network, stop_listening}
use emserver.Server.Accepted.{session_of, with_session, failed_accept_is_told}
use emserver.Session.Address.{Socket}
use emserver.Base.{operation_aborted, arith}
use emserver.Server.Lifetime.{
  Ends, alone, destroy_server, join_accepts, accept_step, accept_handled, released_server,
}
use emserver.Server.Replies.{control_crashes}

-- An application that reports -2 for each request, and does nothing else.
quiet : Application
quiet = record {
  client_connected = λ cb ip port s. done s;
  caps_request = λ cb id s. done (error_two, s);
  sensors_control = λ cb id sensors s. done (error_two, s);
}

abbrev peer : TcpSession
peer = record { is_open = true; address = 49 ∷ []; port = 9000 }

connected : CServer
connected = record create {
  session = some peer;
  on_client_caps_request = some 1;
  on_sensor_control_request = some 2;
  on_log = none;
}

abbrev house : List SensorBase
house =
    SensorBase.dry_contact (pos 1) true false
    ∷ SensorBase.temperature (pos 2) (pos 40) (negsuc 4)
    ∷ []

keep_id : Capabilities → ℤ → List ℤ → Run (List ℤ)
keep_id m id ids = done (id ∷ ids)

client : EmserverProcessor (List ℤ)
client = register_callback (Emserver.create 1) response_capabilities (capability_response keep_id)

abbrev any_capabilities : RequestCapabilities
any_capabilities = record { dummy = none }

abbrev wanted : Sensor
wanted = Sensor.temperature (pos 2) (pos 50) none

control_crashes_example :
    receive_common_message field_codec
      (processor field_codec quiet)
      (in_mode field_codec (processor field_codec quiet) (
        make_message field_codec sensor_control
          (some (control (record { config = map (configuration field_codec) (wanted ∷ []) })))
          (pos 5)))
      connected
    ≡ crash null_pointer
control_crashes_example =
    control_crashes field_codec quiet wanted [] (pos 5) 2 connected (unfold connected in refl)

quiet-IsQuiet : IsQuiet quiet
unfolding quiet
quiet-IsQuiet cb ip port s = (s, refl, refl, refl)

-- A network where each address is good.
open_network : Network
open_network = record { is_address = λ address. true; can_bind = λ address port. true }

abbrev stopped : TransportServer
stopped = record { interface = 49 ∷ []; port = 9000; acceptor = false; pending_accepts = 0 }

abbrev fresh : CServer
fresh = record {
  server = some stopped;
  session = none;
  on_client_connected = none;
  on_client_caps_request = none;
  on_sensor_control_request = none;
  on_log = none;
  sent = [];
}

abbrev busy : CServer
busy = record fresh { session = some peer }

accept_peer : handler_accept quiet none peer fresh ≡ done busy
unfolding handler_accept transport_client_connected_callback stop notify_connected stop_listening
accept_peer = refl

Reach-IsExclusive_example : IsExclusive busy
Reach-IsExclusive_example =
    Reach-IsExclusive open_network quiet quiet-IsQuiet fresh busy refl
      (then here (accept none peer accept_peer))

lost_listens_example :
    (c : CServer) × (told quiet busy.on_client_connected (record busy { session = none }) ≡ done c)
    × (c.session ≡ none)
    × (callback_session_error open_network quiet (other_error 2) busy
        ≡ done
            (record c { server = some (record stopped { acceptor = true; pending_accepts = 1 }) }))
lost_listens_example =
    lost_listens open_network quiet quiet-IsQuiet busy stopped 2 refl (unfold open_network in refl)
      (unfold open_network in refl)

abbrev closed_socket : Socket
closed_socket = record { is_open = false; remote_endpoint = none; local_endpoint = none }

abbrev listening : TransportServer
listening = record { interface = 49 ∷ []; port = 9000; acceptor = true; pending_accepts = 1 }

abbrev listening_server : CServer
listening_server = record {
  server = some listening;
  session = none;
  on_client_connected = some 4;
  on_client_caps_request = none;
  on_sensor_control_request = none;
  on_log = none;
  sent = [];
}

failed_accept_is_told_example :
    handler_accept quiet (some (other_error 24)) (session_of closed_socket) listening_server
    ≡ quiet.client_connected 4 (some []) 0 (
        with_session
          (record { is_open = false; address = []; port = 0 })
          listening
          listening_server)
failed_accept_is_told_example =
    failed_accept_is_told quiet (other_error 24) closed_socket listening 4 listening_server
      (λ e. cc e) refl refl refl

released_server_example :
    Ends
      ((some operation_aborted, peer) ∷ [])
      (done (alone (record listening { acceptor = false; pending_accepts = 0 })))
    × (destroy_server quiet ((none, peer) ∷ []) listening ≡ some (crash use_after_free))
released_server_example =
    released_server quiet listening ((some operation_aborted, peer) ∷ []) _ peer
      (unfold destroy_server in
        unfold join_accepts in unfold accept_step in unfold accept_handled in refl)
      (omega arith)
