-- ===== src/Client/Runs.antt =====
-- Runs of the client.
use emserver.Client.Samples.{idle, ready, peer, server, open_session, client, silent, house}
use emserver.Base.{
  ◌≡◌, ap, refl, List, [], ◌∷◌, ◌++◌, map, none, some, true, false, done, ◌>>=◌, Bytes, pos,
  other_error, arith,
}
use emserver.Samples.Messages.{field_codec}
use emserver.Emserver.{receive_common_message}
use emserver.Emserver.Dispatch.{in_mode}
use emserver.Sensors.Client.{Sensor}
use emserver.Sensors.Exchange.{seen, array_of}
use emserver.Server.{send_capabilities, processor}
use emserver.Client.{
  EmserverAdapter, send_sensors_control, parser_protocol, connection_close, on_session_error,
  on_handler_accepted,
}
use emserver.Client.Exchange.{capabilities_reach_user, control_ignored}
use emserver.Client.Alive.{IsAlive, IsCalm, here, then, lost, Reach-IsAlive}
use emserver.Client.{connection_open}
use emserver.Client.Transport.{open_connection}
use emserver.Client.Connection.{close_then_connected}

capabilities_reach_user_example :
    (str : Bytes) × (send_capabilities field_codec (pos 5) (array_of house) server
      ≡ done (pos 0, record server { sent = [] ++ (str ∷ []) }))
    × (receive_common_message field_codec
          (parser_protocol field_codec idle)
          (in_mode field_codec (parser_protocol field_codec idle) str)
          client
        ≡ (idle.on_capabilities 3 (map seen house) (pos 5) client >>= λ c. done (true, c)))
capabilities_reach_user_example =
    capabilities_reach_user field_codec idle server peer house (pos 5) client 3 refl refl
      (tt, (tt, tt)) refl

abbrev wanted : List Sensor
wanted = Sensor.temperature (pos 2) (pos 50) none ∷ []

control_ignored_example :
    (str : Bytes) × (send_sensors_control field_codec client (map some wanted)
      ≡ done (pos 7, record client { method_counter = 8; sent = [] ++ (str ∷ []) }))
    × (send_sensors_control field_codec client (map some wanted)
        ≡ send_sensors_control field_codec client [])
    × (receive_common_message field_codec
          (processor field_codec ready)
          (in_mode field_codec (processor field_codec ready) str)
          server
        ≡ done (false, server))
control_ignored_example =
    control_ignored field_codec ready client open_session wanted server refl refl (omega arith)

close_then_connected_example :
    (closed connected : EmserverAdapter) × (connection_close field_codec idle silent ≡ done closed)
    × (closed.session ≡ none)
    × (closed.transport.connecting ≡ 1)
    × (on_handler_accepted field_codec idle none open_session closed ≡ done connected)
    × (connected.session ≡ some open_session)
close_then_connected_example =
    close_then_connected field_codec idle silent open_session refl (omega arith)

idle-IsCalm : IsCalm idle
unfolding idle
idle-IsCalm f st a b e =
    let same : b ≡ a = cc e in (ap (λ x. x.session) same, ap (λ x. x.transport) same)

-- The session is lost while the client connects elsewhere.
abbrev after_loss : EmserverAdapter
after_loss = record client {
  transport = record {
    conf = record { interface = 49 ∷ []; port = 80 };
    resolving = 2;
    connecting = 1;
    timer = true;
  };
  session = none;
}

session_loses :
    on_session_error field_codec idle (other_error 2) (connection_open client (49 ∷ []) 80)
    ≡ done after_loss
unfolding on_session_error connection_open open_connection idle
session_loses = refl

Reach-IsAlive_example : IsAlive after_loss
Reach-IsAlive_example =
    Reach-IsAlive field_codec idle idle-IsCalm client after_loss (49 ∷ []) 80
      (then here (lost 2 session_loses))
