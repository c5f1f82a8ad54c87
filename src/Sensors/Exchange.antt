-- ===== src/Sensors/Exchange.antt =====
-- What becomes of the sensors on their way between the two sides.
use emserver.Base.{
  ◌≡◌, refl, ap, List, [], ◌∷◌, map, length, Option, none, some, true, false, done, crash,
  null_pointer, All,
}
use emserver.Emserver.Proto.{EmserverCodec, SensorsControl, Capabilities, all_initialized}
use emserver.Sensors.Server.{
  SensorBase, Sensors, proto_sensors, proto_entries, configuration_of, native_sensors,
  native_entries, native_of, active_sensor_from_native,
}
use emserver.Sensors.Client.{
  Sensor, SensorState, contact_is, temperature_is, from_caps, native_all, sensors_to_proto, fill,
  configuration, native_activated_sensor, push,
}

-- The sensor is of one of the two types of the protocol.
abbrev pub IsKnown : SensorBase → Type 0
IsKnown (SensorBase.unknown id) = ⊥
IsKnown s = Unit {0}

-- What the client is to see of a sensor's configuration.
abbrev pub seen : SensorBase → Sensor
seen (SensorBase.unknown id) = Sensor.dry_contact id false none
seen (SensorBase.dry_contact id watch_state current_state) = Sensor.dry_contact id watch_state none
seen (SensorBase.temperature id watch_level current_value) = Sensor.temperature id watch_level none

-- What the client is to see of a sensor's current state.
abbrev pub seen_state : SensorBase → Option SensorState
seen_state (SensorBase.unknown id) = none
seen_state (SensorBase.dry_contact id watch_state current_state) =
    some (contact_is id current_state)
seen_state (SensorBase.temperature id watch_level current_value) =
    some (temperature_is id current_value)

-- The array of the sensors `ss`.
abbrev pub array_of : List SensorBase → Sensors
array_of ss = record { sensors_count = length ss; hardware = some (map some ss) }

module _ (codec : EmserverCodec) where
  proto_entries-map :
      (ss : List SensorBase)
      → proto_entries codec (length ss) (map some ss) ≡ done (map (configuration_of codec) ss)
  unfolding proto_entries
  proto_entries-map [] = refl
  proto_entries-map (s ∷ ss) = rw (proto_entries-map ss)

  pub proto_sensors-array :
      (ss : List SensorBase)
      → proto_sensors codec (array_of ss)
        ≡ done (record { system_configuration = map (configuration_of codec) ss })
  unfolding proto_sensors
  proto_sensors-array [] = refl
  proto_sensors-array (s ∷ ss) = rw (proto_entries-map (s ∷ ss))

  pub all_initialized-map :
      (ss : List SensorBase)
      → All IsKnown ss
      → all_initialized (map (configuration_of codec) ss) ≡ true
  unfolding all_initialized configuration_of
  all_initialized-map [] h = refl
  all_initialized-map (SensorBase.unknown id ∷ ss) h = absurd h.0
  all_initialized-map (SensorBase.dry_contact id w s ∷ ss) h = all_initialized-map ss h.1
  all_initialized-map (SensorBase.temperature id w s ∷ ss) h = all_initialized-map ss h.1

  pub native_all-map :
      (ss : List SensorBase)
      → All IsKnown ss
      → native_all codec (map (configuration_of codec) ss) ≡ map seen ss
  unfolding native_all configuration_of push
  native_all-map [] h = refl
  native_all-map (SensorBase.unknown id ∷ ss) h = absurd h.0
  native_all-map (SensorBase.dry_contact id w s ∷ ss) h =
      rw (codec.dry_contact.parse-serialize (record { state = some w }) refl)
        (ap (◌∷◌ (Sensor.dry_contact id w none)) (native_all-map ss h.1))
  native_all-map (SensorBase.temperature id w s ∷ ss) h =
      rw (codec.temperature.parse-serialize (record { level = some w }) refl)
        (ap (◌∷◌ (Sensor.temperature id w none)) (native_all-map ss h.1))

  -- The capabilities that the server makes of an array of sensors of known types are complete, and
  -- survive serialisation; the client makes of them the same sensors in the same order, with their
  -- ids, types and levels.
  pub capabilities_exchange :
      (ss : List SensorBase)
      → All IsKnown ss
      → (caps : Capabilities) × (proto_sensors codec (array_of ss) ≡ done caps)
        × (codec.capabilities.parse (codec.capabilities.serialize caps) ≡ (caps, true))
        × (from_caps codec caps ≡ map seen ss)
  unfolding from_caps
  capabilities_exchange ss h =
      let caps : Capabilities = record { system_configuration = map (configuration_of codec) ss } in
      (
        caps,
        proto_sensors-array ss,
        codec.capabilities.parse-serialize caps (all_initialized-map ss h),
        native_all-map ss h,
      )

  -- The message that the server makes of a sensor's activation gives the client the sensor's id and
  -- its current value; a sensor of no known type gives it none.
  pub activation_exchange :
      (s : SensorBase)
      → native_activated_sensor codec (active_sensor_from_native codec (some s)) ≡ seen_state s
  unfolding native_activated_sensor active_sensor_from_native
  activation_exchange (SensorBase.unknown id) = refl
  activation_exchange (SensorBase.dry_contact id w s) =
      rw (codec.dry_contact_state.parse-serialize (record { state = some s }) refl)
  activation_exchange (SensorBase.temperature id w s) =
      rw (codec.temperature_state.parse-serialize (record { value = some s }) refl)

  fill-some : (ret : SensorsControl) (ss : List Sensor) → fill codec ret (map some ss) ≡ done ret
  unfolding fill
  fill-some ret [] = refl
  fill-some ret (s ∷ ss) = fill-some ret ss

  -- Whatever sensors the client is given, the control message that it makes of them is empty.
  pub sensors_to_proto_empty :
      (ss : List Sensor) → sensors_to_proto codec (map some ss) ≡ done (record { config = [] })
  unfolding sensors_to_proto
  sensors_to_proto_empty ss = fill-some (record { config = [] }) ss

  -- On a control message with the configuration of one sensor at least, of a known type and
  -- complete, the server writes through a null pointer.
  pub native_sensors_crash :
      (s : Sensor) (ss : List Sensor)
      → native_sensors codec (record { config = map (configuration codec) (s ∷ ss) })
        ≡ crash null_pointer
  unfolding native_sensors native_entries native_of configuration
  native_sensors_crash (Sensor.dry_contact id w st) ss =
      rw (codec.dry_contact.parse-serialize (record { state = some w }) refl)
  native_sensors_crash (Sensor.temperature id w st) ss =
      rw (codec.temperature.parse-serialize (record { level = some w }) refl)

  pub all_initialized-configuration :
      (ss : List Sensor) → all_initialized (map (configuration codec) ss) ≡ true
  unfolding all_initialized configuration
  all_initialized-configuration [] = refl
  all_initialized-configuration (Sensor.dry_contact id w st ∷ ss) = all_initialized-configuration ss
  all_initialized-configuration (Sensor.temperature id w st ∷ ss) = all_initialized-configuration ss
