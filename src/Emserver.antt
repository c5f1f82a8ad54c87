-- ===== src/Emserver.antt =====
-- common/hdr/processoremserver.h and common/src/processoremserver.cpp: the messages of the
-- emserver protocol and their dispatch to callbacks. The messages' types are those of
-- protocol/proto/{emserver,sensors,capabilities}.proto.
mod Runs
pub mod Proto
pub mod Dispatch
pub mod Typed
use emserver.Base.{
  ℕ, ◌≡◌, List, [], ◌∷◌, Option, none, some, Bool, true, false, not, Run, done, crash, bad_any_cast,
  ◌>>=◌, Bytes, ℤ, pos, negsuc, if◌then◌else◌, ◌==◌,
}
use emserver.Common.{CommonMessage, has, bytes_or_empty}
use Proto.{
  Codec, EmserverCodec, ServerCommonMessage, ProtoMessage, RequestCapabilities, Capabilities,
  ServerRuntimeNotification, SensorsControl, SensorActivated, message_is_initialized,
  message_serialize,
}

pub data MethodCode : Type 0 where
  request_capabilites response_capabilities server_runtime_notification
        sensors_configuration_control sensor_control sensor_activated :
      MethodCode

abbrev pub method_number : MethodCode → ℕ
method_number request_capabilites = 1
method_number response_capabilities = 2
method_number server_runtime_notification = 3
method_number sensors_configuration_control = 4
method_number sensor_control = 5
method_number sensor_activated = 6

-- What a boost::any of the callback table can hold: the five callback types, as functions that
-- change the state `S` of whoever has registered them.
pub data Callback (S : Type 0) : Type 0 where
  capability_request : (RequestCapabilities → ℤ → S → Run S) → Callback S
  capability_response : (Capabilities → ℤ → S → Run S) → Callback S
  runtime_notification : (ServerRuntimeNotification → ℤ → S → Run S) → Callback S
  sensor_controls : (SensorsControl → ℤ → S → Run S) → Callback S
  sensor_activation : (SensorActivated → ℤ → S → Run S) → Callback S

-- A missing key of the table is `none`.
pub record EmserverProcessor (S : Type 0) : Type 0 where
  pub work_mode_code : ℕ
  pub callbacks : MethodCode → Option (Callback S)

unfoldable pub create : {S : Type 0} → ℕ → EmserverProcessor S
create code = record { work_mode_code = code; callbacks = λ _. none }

unfoldable pub register_callback :
    {S : Type 0} → EmserverProcessor S → MethodCode → Callback S → EmserverProcessor S
register_callback p code callback = record p {
  callbacks = λ m. if method_number m == method_number code then some callback else p.callbacks m;
}

-- boost::any_cast to each of the callback types: `none` if something else is held.
pub cast_request : {S : Type 0} → Callback S → Option (RequestCapabilities → ℤ → S → Run S)
cast_request (capability_request f) = some f
cast_request _ = none

pub cast_response : {S : Type 0} → Callback S → Option (Capabilities → ℤ → S → Run S)
cast_response (capability_response f) = some f
cast_response _ = none

pub cast_notification :
    {S : Type 0} → Callback S → Option (ServerRuntimeNotification → ℤ → S → Run S)
cast_notification (runtime_notification f) = some f
cast_notification _ = none

pub cast_control : {S : Type 0} → Callback S → Option (SensorsControl → ℤ → S → Run S)
cast_control (sensor_controls f) = some f
cast_control _ = none

pub cast_activated : {S : Type 0} → Callback S → Option (SensorActivated → ℤ → S → Run S)
cast_activated (sensor_activation f) = some f
cast_activated _ = none

module _ {S M : Type 0} where
  pub call : Option (M → ℤ → S → Run S) → M → ℤ → S → Run (Bool × S)
  call none msg id s = crash bad_any_cast
  call (some f) msg id s = f msg id s >>= λ s'. done (true, s')

  pub find_and_call :
      (Callback S → Option (M → ℤ → S → Run S)) → Option (Callback S) → M → ℤ → S → Run (Bool × S)
  unfolding call
  find_and_call cast none msg id s = done (false, s)
  find_and_call cast (some callback) msg id s = call (cast callback) msg id s

  -- The message is parsed before the callback is looked up.
  pub common_callback_processing :
      (Bytes → M × Bool)
      → (Callback S → Option (M → ℤ → S → Run S))
      → Option (Callback S)
      → Bytes
      → ℤ
      → S
      → Run (Bool × S)
  unfolding find_and_call
  common_callback_processing parse cast entry response mcode s =
      let (msg, is_ok) = parse response in
      if not is_ok then done (false, s) else find_and_call cast entry msg mcode s

-- The id of a message that has none.
abbrev pub no_id : ℤ
no_id = negsuc 0

abbrev pub id_or_default : Option ℤ → ℤ
id_or_default none = no_id
id_or_default (some id) = id

abbrev pub number_or_zero : Option ℕ → ℕ
number_or_zero none = 0
number_or_zero (some n) = n

module _ (codec : EmserverCodec) where
  -- `pMessage` may be null.
  unfoldable pub make_message : MethodCode → Option ProtoMessage → ℤ → Bytes
  make_message code none id = []
  make_message code (some message) id =
      let msg : ServerCommonMessage = record {
        type = some (method_number code);
        payload = some (message_serialize codec message);
        id = some id;
      } in
      if not (message_is_initialized message) then [] else codec.server_common.serialize msg

  module _ {S : Type 0} where
    -- The switch over the type of the message. There is no case for 4.
    pub dispatch : EmserverProcessor S → ℕ → Bytes → ℤ → S → Run (Bool × S)
    unfolding common_callback_processing cast_request cast_response cast_notification cast_control
        cast_activated
    dispatch p type payload code s =
        if type == 1
        then common_callback_processing codec.request.parse cast_request
            (p.callbacks request_capabilites) payload code s
        else (if type == 2
            then common_callback_processing codec.capabilities.parse cast_response
                (p.callbacks response_capabilities) payload code s
            else (if type == 3
                then common_callback_processing codec.notification.parse cast_notification
                    (p.callbacks server_runtime_notification) payload code s
                else (if type == 5
                    then common_callback_processing codec.control.parse cast_control
                        (p.callbacks sensor_control) payload code s
                    else (if type == 6
                        then common_callback_processing codec.activated.parse cast_activated
                            (p.callbacks sensor_activated) payload code s
                        else done (false, s)))))

    -- callbackRecievedCommonMessage, behind the two tests of the code.
    receive_mode : EmserverProcessor S → CommonMessage → S → Run (Bool × S)
    unfolding dispatch
    receive_mode p message s =
        let (em_server_message, is_ok) =
          codec.server_common.parse (bytes_or_empty message.payload) in
        if not is_ok
        then done (false, s)
        else dispatch p (number_or_zero em_server_message.type)
            (bytes_or_empty em_server_message.payload) (id_or_default em_server_message.id) s

    receive_code : EmserverProcessor S → CommonMessage → Option ℕ → S → Run (Bool × S)
    unfolding receive_mode
    receive_code p message none s = done (false, s)
    receive_code p message (some code) s =
        if not (code == p.work_mode_code) then done (false, s) else receive_mode p message s

    unfoldable pub receive_common_message : EmserverProcessor S → CommonMessage → S → Run (Bool × S)
    unfolding receive_code
    receive_common_message p message s = receive_code p message message.code s
