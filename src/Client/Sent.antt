-- ===== src/Client/Sent.antt =====
-- The strings that the two sides send are not empty, and a request is sent.
use emserver.Emserver
use emserver.Emserver.{no_id}
use emserver.Server.{CServer, TcpSession, send_activated_sensor_state, send_method_call_result}
use emserver.Base.{
  ℕ, suc, ◌^◌, ◌<◌, ◌≡◌, refl, ◌≢◌, [], ◌∷◌, ◌++◌, none, some, true, false, Bytes, ℤ, pos,
}
use emserver.Emserver.Proto.{
  EmserverCodec, ProtoMessage, activated, notification, ServerRuntimeNotification,
  message_is_initialized, request, RequestCapabilities, all_initialized, activated_is_initialized,
}
use emserver.Emserver.{MethodCode, request_capabilites, make_message}
use emserver.Sensors.Server.{SensorBase, active_sensor_from_native}
use emserver.Sensors.Exchange.{IsKnown}
use emserver.Server.{is_nil}
use emserver.Client.{EmserverAdapter, Session, send_request_capabilities, code_of}
use emserver.Base.{to_i32-small}

pub active_sensor_is_initialized :
    (codec : EmserverCodec) (sensor : SensorBase)
    → IsKnown sensor
    → activated_is_initialized (active_sensor_from_native codec (some sensor)) ≡ true
unfolding active_sensor_from_native
active_sensor_is_initialized codec (SensorBase.unknown id) h = absurd h
active_sensor_is_initialized codec (SensorBase.dry_contact id w v) h = refl
active_sensor_is_initialized codec (SensorBase.temperature id w v) h = refl

pub make_message-not_empty :
    (codec : EmserverCodec) (code : MethodCode) (m : ProtoMessage) (id : ℤ)
    → message_is_initialized m ≡ true
    → make_message codec code (some m) id ≢ []
unfolding make_message
make_message-not_empty codec code m id h = rw h (codec.server_common-not_empty _ refl)

pub all_initialized-empty : all_initialized [] ≡ true
unfolding all_initialized
all_initialized-empty = refl

-- A list that is not empty passes the servers' test for it, and keeps the clients' code.
pub is_nil-not_empty : (bs : Bytes) → bs ≢ [] → is_nil bs ≡ false
is_nil-not_empty [] h = absurd (h refl)
is_nil-not_empty (b ∷ bs) h = refl

pub code_of-not_empty : (bs : Bytes) (ret : ℤ) → bs ≢ [] → code_of bs ret ≡ ret
code_of-not_empty [] ret h = absurd (h refl)
code_of-not_empty (b ∷ bs) ret h = refl

-- A request on an open session is sent, and its id is the counter's.
pub request_sent :
    (codec : EmserverCodec) (a : EmserverAdapter) (session : Session)
    → a.session ≡ some session
    → session.is_open ≡ true
    → a.method_counter < 2 ^ 31
    → send_request_capabilities codec a ≡ (
      pos a.method_counter,
      record a {
        method_counter = suc a.method_counter;
        sent =
            a.sent
            ++ (make_message codec request_capabilites
                  (some (request (record { dummy = none })))
                  (pos a.method_counter)
                ∷ []);
      },
    )
unfolding send_request_capabilities
request_sent codec a session e opened small =
    let req : RequestCapabilities = record { dummy = none } in
    let id = pos a.method_counter in
    rw (
      to_i32-small a.method_counter small,
      e,
      opened,
      code_of-not_empty _ id
          (make_message-not_empty codec request_capabilites (request req) id refl),
    )

-- What a server sends as the result of a call.
abbrev pub result_of : ℕ → ℤ → ServerRuntimeNotification
result_of call_id code = record { method_id = some call_id; code = some code; description = none }

-- The strings that a server with an open session sends for the activation of a sensor of a known
-- type, and for the result of a call.
module _ (codec : EmserverCodec) where
  abbrev pub activation_string : SensorBase → ℤ → Bytes
  activation_string sensor id =
      make_message codec Emserver.sensor_activated
        (some (activated (active_sensor_from_native codec (some sensor)))) id

  pub send_activated-sensor :
      (s : CServer) (session : TcpSession) (sensor : SensorBase) (id : ℤ)
      → s.session ≡ some session
      → session.is_open ≡ true
      → IsKnown sensor
      → send_activated_sensor_state codec id (some sensor) s
        ≡ (pos 0, record s { sent = s.sent ++ (activation_string sensor id ∷ []) })
  unfolding send_activated_sensor_state
  send_activated-sensor s session sensor id e opened known =
      rw (active_sensor_is_initialized codec sensor known, e, opened)

  abbrev pub result_string : ℕ → ℤ → Bytes
  result_string call_id code =
      make_message codec Emserver.server_runtime_notification
        (some (notification (result_of call_id code))) no_id

  pub send_method_call_result-sent :
      (s : CServer) (session : TcpSession) (call_id : ℕ) (code : ℤ)
      → s.session ≡ some session
      → session.is_open ≡ true
      → send_method_call_result codec call_id code s
        ≡ record s { sent = s.sent ++ (result_string call_id code ∷ []) }
  unfolding send_method_call_result
  send_method_call_result-sent s session call_id code e opened = rw (
    is_nil-not_empty _ (
        make_message-not_empty codec Emserver.server_runtime_notification
          (notification (result_of call_id code)) no_id refl),
    e,
    opened,
  )
