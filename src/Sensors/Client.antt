-- ===== src/Sensors/Client.antt =====
-- client/hdr/interop_sensors.h and client/src/dataconverter.cpp.
use emserver.Base.{
  List, [], ◌∷◌, Option, none, some, Bool, false, not, Run, done, crash, null_pointer,
  bad_static_cast, ℤ, if◌then◌else◌,
}
use emserver.Emserver.Proto.{
  EmserverCodec, SensorsType, st_unknown, st_dry_contact, st_temperature, SensorConfiguration,
  SensorsControl, SensorActivated, Capabilities,
}
use emserver.Sensors.Server.{int_or_zero, type_or_unknown, bytes_of, contact_state}

-- ISensorState by its class.
pub data SensorState : Type 0 where
  -- m_id, m_state
  contact_is : ℤ → Bool → SensorState
  -- m_id, m_temperatureValue
  temperature_is : ℤ → ℤ → SensorState

-- SensorBase by its class; a sensor that has been made from a message has no state yet.
pub data Sensor : Type 0 where
  -- m_id, m_triggeredState, m_currentState
  dry_contact : ℤ → Bool → Option SensorState → Sensor
  -- m_id, m_tresholdLevel, m_currentState
  temperature : ℤ → ℤ → Option SensorState → Sensor

-- updateState casts the state to the sensor's own class of states, and does not check it.
unfoldable pub update_state : Sensor → Option SensorState → Run Sensor
update_state sensor none = done sensor
update_state (dry_contact id level current) (some (contact_is i v)) =
    done (dry_contact id level (some (contact_is i v)))
update_state (temperature id level current) (some (temperature_is i v)) =
    done (temperature id level (some (temperature_is i v)))
update_state _ (some _) = crash bad_static_cast

abbrev bool_or_false : Option Bool → Bool
bool_or_false none = false
bool_or_false (some b) = b

module _ (codec : EmserverCodec) where
  -- DataConverter::nativeSensor, behind the type. Whether the parse succeeds is not looked at.
  native_sensor_of : SensorConfiguration → SensorsType → Option Sensor
  native_sensor_of c st_unknown = none
  native_sensor_of c st_dry_contact =
      let (sens_conf, _) = codec.dry_contact.parse (bytes_of c.specific_configuration) in
      some (dry_contact (int_or_zero c.id) (contact_state sens_conf) none)
  native_sensor_of c st_temperature =
      let (sens_temp, _) = codec.temperature.parse (bytes_of c.specific_configuration) in
      some (temperature (int_or_zero c.id) (int_or_zero sens_temp.level) none)

  unfoldable pub native_sensor : SensorConfiguration → Option Sensor
  unfolding native_sensor_of
  native_sensor c = native_sensor_of c (type_or_unknown c.type)

  unfoldable pub push : Option Sensor → List Sensor → List Sensor
  push none sensors = sensors
  push (some s) sensors = s ∷ sensors

  -- The loop of fromCaps and of sensorsFromProto.
  unfoldable pub native_all : List SensorConfiguration → List Sensor
  unfolding push native_sensor
  native_all [] = []
  native_all (c ∷ cs) = push (native_sensor c) (native_all cs)

  unfoldable pub from_caps : Capabilities → List Sensor
  unfolding native_all
  from_caps caps = native_all caps.system_configuration

  unfoldable pub sensors_from_proto : SensorsControl → List Sensor
  unfolding native_all
  sensors_from_proto control = native_all control.config

  -- The local `conf` of one round.
  unfoldable pub configuration : Sensor → SensorConfiguration
  configuration (dry_contact id state current) = record {
    id = some id;
    type = some st_dry_contact;
    specific_configuration = some (codec.dry_contact.serialize (record { state = some state }));
  }
  configuration (temperature id level current) = record {
    id = some id;
    type = some st_temperature;
    specific_configuration = some (codec.temperature.serialize (record { level = some level }));
  }

  -- DataConverter::sensorsToProto, from a value `ret` on: each round fills its local `conf`, which
  -- ends with the round. A null pointer in the list is read through.
  unfoldable pub fill : SensorsControl → List (Option Sensor) → Run SensorsControl
  unfolding configuration
  fill ret [] = done ret
  fill ret (none ∷ sensors) = crash null_pointer
  fill ret (some sensor ∷ sensors) = let conf = configuration sensor in fill ret sensors

  unfoldable pub sensors_to_proto : List (Option Sensor) → Run SensorsControl
  unfolding fill
  sensors_to_proto sensors = fill (record { config = [] }) sensors

  unfoldable pub activated_of : SensorActivated → SensorsType → Option SensorState
  activated_of a st_unknown = none
  activated_of a st_dry_contact =
      let (dc_state, is_ok) = codec.dry_contact_state.parse (bytes_of a.sensor_value) in
      if not is_ok
      then none
      else some (contact_is (int_or_zero a.sensor_id) (bool_or_false dc_state.state))
  activated_of a st_temperature =
      let (temp_state, is_ok) = codec.temperature_state.parse (bytes_of a.sensor_value) in
      if not is_ok
      then none
      else some (temperature_is (int_or_zero a.sensor_id) (int_or_zero temp_state.value))

  -- DataConverter::nativeActivatedSensor.
  unfoldable pub native_activated_sensor : SensorActivated → Option SensorState
  unfolding activated_of
  native_activated_sensor a = activated_of a (type_or_unknown a.type)
