-- ===== src/Client/Facade/Runs.antt =====
-- A run of a client with the calls of its user.
use emserver.Client.Samples.{idle, open_session, house}
use emserver.Base.{List, [], ◌∷◌, map, none, some, pos, other_error}
use emserver.Samples.Messages.{field_codec}
use emserver.Emserver.{receive_common_message}
use emserver.Emserver.Dispatch.{in_mode}
use emserver.Client.{
  EmserverAdapter, MethodCallbackCode, ClientCallback, Session, User, no_point,
  send_request_capabilities, send_sensors_control, parser_protocol, connection_close,
  on_session_error, on_handler_accepted, connected_state_changed, response_capabilities,
  sensor_activated, response_server_error, connected_state_changing, response_of_capabilities,
  response_of_sensor_activation, server_runtime_notification,
}
use emserver.Client.{connection_open}
use emserver.Client
use emserver.Common.{CommonMessage}
use emserver.Base.{returns}
use emserver.Emserver.{make_message}
use emserver.Emserver
use emserver.Emserver.Proto.{capabilities}
use emserver.Sensors.Server.{configuration_of}
use emserver.Client.Facade.{
  ClientEvent, opens, closes, asks, on_connected, on_capabilities, on_notification, resolves,
  connects, loses, receives, client_run,
}
use emserver.Client.Typed.{Typed, IsTame}
use emserver.Client.Facade.Typed.{client_run-Typed}

idle-IsTame : IsTame idle
unfolding idle
idle-IsTame = (
  λ f st a h. returns h,
  λ f sensors id a h. returns h,
  λ f state id a h. returns h,
  λ f error a h. returns h,
)

-- A server's description of two sensors, before and after the user asks, around a lost session.
abbrev description : CommonMessage
description = in_mode field_codec (parser_protocol field_codec idle) (
    make_message field_codec Emserver.response_capabilities
      (some
        (capabilities (record { system_configuration = map (configuration_of field_codec) house })))
      (pos 7))

abbrev day : List ClientEvent
day =
    on_connected 1
    ∷ on_capabilities 3
    ∷ opens (49 ∷ []) 80
    ∷ resolves none
    ∷ connects none open_session
    ∷ asks
    ∷ receives description
    ∷ loses (other_error 2)
    ∷ resolves (some (other_error 1))
    ∷ on_notification 2
    ∷ receives description
    ∷ closes
    ∷ []

client_run-Typed_example : Typed (client_run field_codec idle day Client.create)
client_run-Typed_example = client_run-Typed field_codec idle day idle-IsTame
