-- ===== src/Sensors/Server.antt =====
-- cserver/api_sensors.h, and the conversions of cserver/cserver.cpp. A hardware array is the list
-- of the pointers in it; the positions of the sensors are not read or written by this code.
use emserver.Base.{
  ℕ, zero, suc, List, [], ◌∷◌, length, Option, none, some, Bool, true, false, not, Run, done, crash,
  null_pointer, out_of_bounds, leb, ◌>>=◌, Bytes, ℤ, pos, if◌then◌else◌,
}
use emserver.Emserver.Proto.{
  EmserverCodec, SensorsType, st_unknown, st_dry_contact, st_temperature, SensorConfiguration,
  SensorsControl, SensorActivated, Capabilities, ConfigurationDryContact,
  configuration_is_initialized,
}

-- A SensorBase by its `type`.
pub data SensorBase : Type 0 where
  -- id
  unknown : ℤ → SensorBase
  -- id, watchState, currentState
  dry_contact : ℤ → Bool → Bool → SensorBase
  -- id, watchLevel, currentValue
  temperature : ℤ → ℤ → ℤ → SensorBase

-- `hardware` is none if the pointer to the array is null, and an entry is none if it is null.
pub record Sensors : Type 0 where
  pub sensors_count : ℕ
  pub hardware : Option (List (Option SensorBase))

-- The value of an unset field.
abbrev pub int_or_zero : Option ℤ → ℤ
int_or_zero none = pos 0
int_or_zero (some n) = n

abbrev pub type_or_unknown : Option SensorsType → SensorsType
type_or_unknown none = st_unknown
type_or_unknown (some t) = t

abbrev pub bytes_of : Option Bytes → Bytes
bytes_of none = []
bytes_of (some bs) = bs

-- ConfigurationDryContact.state is true by default.
abbrev pub contact_state : ConfigurationDryContact → Bool
contact_state c = elim c.state [ none ↦ true | some b ↦ b ]

pub unset_configuration : SensorConfiguration
unset_configuration = record { id = none; type = none; specific_configuration = none }

-- CServer::freeSensors: it reads an entry of the array for each sensor that is counted.
free_hardware : ℕ → Option (List (Option SensorBase)) → Run (Unit {0})
free_hardware zero hardware = done tt
free_hardware (suc n) none = crash null_pointer
free_hardware (suc n) (some entries) =
    if leb (suc n) (length entries) then done tt else crash out_of_bounds

unfoldable pub free_sensors : Option Sensors → Run (Unit {0})
unfolding free_hardware
free_sensors none = done tt
free_sensors (some sensors) = free_hardware sensors.sensors_count sensors.hardware

module _ (codec : EmserverCodec) where
  -- One entry of `caps.add_systemconfiguration()`. A sensor of no known type leaves it unset.
  unfoldable pub configuration_of : SensorBase → SensorConfiguration
  unfolding unset_configuration
  configuration_of (unknown id) = unset_configuration
  configuration_of (dry_contact id watch_state current_state) = record {
    id = some id;
    type = some st_dry_contact;
    specific_configuration =
        some (codec.dry_contact.serialize (record { state = some watch_state }));
  }
  configuration_of (temperature id watch_level current_value) = record {
    id = some id;
    type = some st_temperature;
    specific_configuration =
        some (codec.temperature.serialize (record { level = some watch_level }));
  }

  -- The loop of protoSensors over the first `n` entries.
  unfoldable pub proto_entries : ℕ → List (Option SensorBase) → Run (List SensorConfiguration)
  unfolding configuration_of
  proto_entries zero entries = done []
  proto_entries (suc n) [] = crash out_of_bounds
  proto_entries (suc n) (none ∷ entries) = crash null_pointer
  proto_entries (suc n) (some sensor ∷ entries) =
      proto_entries n entries >>= λ rest. done (configuration_of sensor ∷ rest)

  proto_hardware : ℕ → Option (List (Option SensorBase)) → Run (List SensorConfiguration)
  unfolding proto_entries
  proto_hardware zero hardware = done []
  proto_hardware (suc n) none = crash null_pointer
  proto_hardware (suc n) (some entries) = proto_entries (suc n) entries

  -- CServer::protoSensors.
  unfoldable pub proto_sensors : Sensors → Run Capabilities
  unfolding proto_hardware
  proto_sensors sensors =
      proto_hardware sensors.sensors_count sensors.hardware >>= λ configurations.
      done (record { system_configuration = configurations })

  -- The sensor that one configuration is turned into, if it has a known type and can be parsed.
  unfoldable pub native_of : SensorConfiguration → SensorsType → Option SensorBase
  native_of c st_unknown = none
  native_of c st_temperature =
      let (conf, is_ok) = codec.temperature.parse (bytes_of c.specific_configuration) in
      if is_ok then some (temperature (int_or_zero c.id) (int_or_zero conf.level) (pos 0)) else none
  native_of c st_dry_contact =
      let (conf, is_ok) = codec.dry_contact.parse (bytes_of c.specific_configuration) in
      if is_ok then some (dry_contact (int_or_zero c.id) (contact_state conf) false) else none

  -- The loop of nativeSensors. The array is never allocated: `hardware` is still null when the first
  -- sensor is written to it.
  unfoldable pub native_entries : List SensorConfiguration → Run (Unit {0})
  unfolding native_of
  native_entries [] = done tt
  native_entries (c ∷ cs) =
      let rest = native_entries cs in
      let written : Run (Unit {0}) = elim (native_of c (type_or_unknown c.type)) [
        | some sensor ↦ crash null_pointer
        | none ↦ rest
      ] in
      if not (configuration_is_initialized c) then rest else written

  -- CServer::nativeSensors.
  unfoldable pub native_sensors : SensorsControl → Run Sensors
  unfolding native_entries
  native_sensors proto_sensors = native_entries proto_sensors.config >>= λ _.
      done (record { sensors_count = length proto_sensors.config; hardware = none })

  -- CServer::activeSensorFromNative.
  unfoldable pub active_sensor_from_native : Option SensorBase → SensorActivated
  active_sensor_from_native none = record { sensor_id = none; type = none; sensor_value = none }
  active_sensor_from_native (some (unknown id)) = record {
    sensor_id = none;
    type = none;
    sensor_value = none;
  }
  active_sensor_from_native (some (temperature id watch_level current_value)) = record {
    sensor_id = some id;
    type = some st_temperature;
    sensor_value = some (codec.temperature_state.serialize (record { value = some current_value }));
  }
  active_sensor_from_native (some (dry_contact id watch_state current_state)) = record {
    sensor_id = some id;
    type = some st_dry_contact;
    sensor_value = some (codec.dry_contact_state.serialize (record { state = some current_state }));
  }
