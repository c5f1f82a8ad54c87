-- ===== src/Emserver/Proto.antt =====
-- The messages of protocol/proto/{emserver,sensors,capabilities}.proto. A field that is not set
-- is `none`. Serialising and parsing is the generated classes' work, and a parameter.
use emserver.Base.{ℕ, ◌≢◌, ◌≡◌, List, [], ◌∷◌, Option, Bool, true, ◌&&◌, Bytes, ℤ}
use emserver.Common.{has}

pub data SensorsType : Type 0 where
  st_unknown st_dry_contact st_temperature : SensorsType

pub record ServerRuntimeNotification : Type 0 where
  pub method_id : Option ℕ
  pub code : Option ℤ
  pub description : Option Bytes

pub record ServerCommonMessage : Type 0 where
  pub type : Option ℕ
  pub payload : Option Bytes
  pub id : Option ℤ

pub record ConfigurationDryContact : Type 0 where
  pub state : Option Bool

pub record SensorDryContactState : Type 0 where
  pub state : Option Bool

pub record ConfigurationTemperature : Type 0 where
  pub level : Option ℤ

pub record SensorTemperatureState : Type 0 where
  pub value : Option ℤ

pub record SensorConfiguration : Type 0 where
  pub id : Option ℤ
  pub type : Option SensorsType
  pub specific_configuration : Option Bytes

pub record SensorsControl : Type 0 where
  pub config : List SensorConfiguration

pub record SensorActivated : Type 0 where
  pub sensor_id : Option ℤ
  pub type : Option SensorsType
  pub sensor_value : Option Bytes

pub record Capabilities : Type 0 where
  pub system_configuration : List SensorConfiguration

pub record RequestCapabilities : Type 0 where
  pub dummy : Option ℤ

-- IsInitialized, for each message that has required fields or parts with such.
abbrev pub configuration_is_initialized : SensorConfiguration → Bool
configuration_is_initialized c = has c.id && (has c.type && has c.specific_configuration)

unfoldable pub all_initialized : List SensorConfiguration → Bool
all_initialized [] = true
all_initialized (c ∷ cs) = configuration_is_initialized c && all_initialized cs

abbrev pub notification_is_initialized : ServerRuntimeNotification → Bool
notification_is_initialized n = has n.method_id && has n.code

abbrev pub server_common_is_initialized : ServerCommonMessage → Bool
server_common_is_initialized m = has m.type && has m.payload

abbrev pub activated_is_initialized : SensorActivated → Bool
activated_is_initialized a = has a.sensor_id && has a.type

-- What the generated class of one message does: SerializeAsString, and ParseFromString with what it
-- has read and whether it succeeded. A message whose required fields are set is read back.
pub record Codec (M : Type 0) (is_initialized : M → Bool) : Type 0 where
  pub serialize : M → Bytes
  pub parse : Bytes → M × Bool
  pub parse-serialize : (m : M) → is_initialized m ≡ true → parse (serialize m) ≡ (m, true)

pub record EmserverCodec : Type 0 where
  pub server_common : Codec ServerCommonMessage server_common_is_initialized
  pub request : Codec RequestCapabilities (λ _. true)
  pub capabilities : Codec Capabilities (λ c. all_initialized c.system_configuration)
  pub notification : Codec ServerRuntimeNotification notification_is_initialized
  pub control : Codec SensorsControl (λ c. all_initialized c.config)
  pub activated : Codec SensorActivated activated_is_initialized
  pub dry_contact : Codec ConfigurationDryContact (λ c. has c.state)
  pub dry_contact_state : Codec SensorDryContactState (λ c. has c.state)
  pub temperature : Codec ConfigurationTemperature (λ c. has c.level)
  pub temperature_state : Codec SensorTemperatureState (λ c. has c.value)
  -- Required fields are always written.
  pub server_common-not_empty :
      (m : ServerCommonMessage)
      → server_common_is_initialized m ≡ true
      → server_common.serialize m ≢ []

-- google::protobuf::Message, with the messages that are sent as a method's payload.
pub data ProtoMessage : Type 0 where
  request : RequestCapabilities → ProtoMessage
  capabilities : Capabilities → ProtoMessage
  notification : ServerRuntimeNotification → ProtoMessage
  control : SensorsControl → ProtoMessage
  activated : SensorActivated → ProtoMessage

abbrev pub message_is_initialized : ProtoMessage → Bool
message_is_initialized (request m) = true
message_is_initialized (capabilities m) = all_initialized m.system_configuration
message_is_initialized (notification m) = notification_is_initialized m
message_is_initialized (control m) = all_initialized m.config
message_is_initialized (activated m) = activated_is_initialized m

abbrev pub message_serialize : EmserverCodec → ProtoMessage → Bytes
message_serialize codec (request m) = codec.request.serialize m
message_serialize codec (capabilities m) = codec.capabilities.serialize m
message_serialize codec (notification m) = codec.notification.serialize m
message_serialize codec (control m) = codec.control.serialize m
message_serialize codec (activated m) = codec.activated.serialize m
