-- ===== src/NativeClient/Watch.antt =====
-- The sensors that the example client keeps, while it is told of activations.
use emserver.Base.{
  ◌≡◌, ◌≢◌, refl, sym, ap, subst, ◌∙◌, List, [], ◌∷◌, map, some, true, Run, done, crash,
  null_pointer, bad_static_cast, Option, Bool, ◌>>=◌, if◌then◌else◌, All, ℤ, inl, inr, Bool-cases,
}
use emserver.Emserver.Proto.{
  EmserverCodec, SensorActivated, activated_is_initialized, st_unknown, st_temperature,
  SensorTemperatureState,
}
use emserver.Sensors.Server.{int_or_zero, bytes_of}
use emserver.Sensors.Client.{
  Sensor, dry_contact, temperature, SensorState, contact_is, temperature_is, update_state,
  native_activated_sensor, activated_of,
}
use emserver.NativeClient.Calls.{eq_int→eq, eq_int_refl}
use emserver.NativeClient.{
  EmserverAdapterQt, eq_int, sensor_id, state_id, update_found, on_activated_sensor, read_state,
}

-- No two sensors have one id.
abbrev pub Differ : List Sensor → Type 0
Differ [] = Unit {0}
Differ (sb ∷ sensors) = All (λ other. sensor_id other ≢ sensor_id sb) sensors × Differ sensors

-- The sensor with a state.
abbrev pub with_state : Sensor → SensorState → Sensor
with_state (dry_contact id level current) state = dry_contact id level (some state)
with_state (temperature id level current) state = temperature id level (some state)

-- The sensor itself takes the state if it has the state's id.
unfoldable pub refresh : SensorState → Sensor → Sensor
refresh state sb = if eq_int (sensor_id sb) (state_id state) then with_state sb state else sb

-- The state is of the sensor's class.
abbrev pub Suits : SensorState → Sensor → Type 0
Suits (contact_is i v) (dry_contact id level current) = Unit {0}
Suits (temperature_is i v) (temperature id level current) = Unit {0}
Suits _ _ = ⊥

-- The state suits each sensor that has its id.
abbrev pub SuitsEach : SensorState → List Sensor → Type 0
SuitsEach state = All (λ sb. sensor_id sb ≡ state_id state → Suits state sb)

update-Suits :
    (state : SensorState) (sb : Sensor) (sensors : List Sensor)
    → Suits state sb
    → (update_state sb (some state) >>= λ sb'. read_state sb' >>= λ _. done (sb' ∷ sensors))
      ≡ done (with_state sb state ∷ sensors)
unfolding update_state read_state
update-Suits (contact_is i v) (dry_contact id level current) sensors h = refl
update-Suits (temperature_is i v) (temperature id level current) sensors h = refl
update-Suits (contact_is i v) (temperature id level current) sensors h = absurd h
update-Suits (temperature_is i v) (dry_contact id level current) sensors h = absurd h

-- A sensor after all the states.
unfoldable pub follow : List SensorState → Sensor → Sensor
unfolding refresh
follow [] sb = sb
follow (state ∷ states) sb = follow states (refresh state sb)

pub activate_all : List SensorState → ℤ → EmserverAdapterQt → Run EmserverAdapterQt
unfolding on_activated_sensor
activate_all [] id q = done q
activate_all (state ∷ states) id q =
    on_activated_sensor (some state) id q >>= λ q'. activate_all states id q'

refresh-sensor_id :
    (state : SensorState) (sb : Sensor) → sensor_id (refresh state sb) ≡ sensor_id sb
unfolding refresh
refresh-sensor_id state (dry_contact id level current) =
    elim (Bool-cases (eq_int id (state_id state))) [ inl y ↦ rw y | inr n ↦ rw n ]
refresh-sensor_id state (temperature id level current) =
    elim (Bool-cases (eq_int id (state_id state))) [ inl y ↦ rw y | inr n ↦ rw n ]

-- Sensors with other ids stay as they are.
map-refresh_others :
    (state : SensorState) (sensors : List Sensor)
    → All (λ other. sensor_id other ≢ state_id state) sensors
    → map (refresh state) sensors ≡ sensors
unfolding refresh
map-refresh_others state [] h = refl
map-refresh_others state (sb ∷ sensors) h =
    elim (Bool-cases (eq_int (sensor_id sb) (state_id state))) [
      | inl y ↦ absurd (h.0 (eq_int→eq (sensor_id sb) (state_id state) y))
      | inr n ↦ rw (n, map-refresh_others state sensors h.1)
    ]

update_found-map :
    (state : SensorState) (sensors : List Sensor)
    → Differ sensors
    → SuitsEach state sensors
    → update_found (some state) sensors ≡ done (map (refresh state) sensors)
unfolding update_found refresh
update_found-map state [] h suits = refl
update_found-map state (sb ∷ sensors) h suits =
    elim (Bool-cases (eq_int (sensor_id sb) (state_id state))) [
      | inl y ↦
          let same = eq_int→eq (sensor_id sb) (state_id state) y in
          let others : All (λ other. sensor_id other ≢ state_id state) sensors =
            subst (λ i. All (λ other. sensor_id other ≢ i) sensors) same h.0 in
          rw (y, map-refresh_others state sensors others)
            (update-Suits state sb sensors (suits.0 same))
      | inr n ↦ rw (n, update_found-map state sensors h.1 suits.1)
    ]

All-refresh :
    (state : SensorState) (sb : Sensor) (sensors : List Sensor)
    → All (λ other. sensor_id other ≢ sensor_id sb) sensors
    → All (λ other. sensor_id other ≢ sensor_id (refresh state sb)) (map (refresh state) sensors)
All-refresh state sb [] h = tt
All-refresh state sb (other ∷ sensors) h = (
  λ e. h.0 (sym (refresh-sensor_id state other) ∙ e ∙ refresh-sensor_id state sb),
  All-refresh state sb sensors h.1,
)

Differ-refresh :
    (state : SensorState) (sensors : List Sensor)
    → Differ sensors
    → Differ (map (refresh state) sensors)
Differ-refresh state [] h = tt
Differ-refresh state (sb ∷ sensors) h =
    (All-refresh state sb sensors h.0, Differ-refresh state sensors h.1)

Suits-refresh :
    (other state : SensorState) (sb : Sensor) → Suits other sb → Suits other (refresh state sb)
unfolding refresh
Suits-refresh other state (dry_contact id level current) h =
    elim (Bool-cases (eq_int id (state_id state))) [
      | inl y ↦ rw y (Suits-contact other h)
      | inr n ↦ rw n h
    ]
  where
    Suits-contact :
        (other : SensorState)
        → Suits other (dry_contact id level current)
        → Suits other (dry_contact id level (some state))
    Suits-contact (contact_is i v) h' = tt
    Suits-contact (temperature_is i v) h' = absurd h'
Suits-refresh other state (temperature id level current) h =
    elim (Bool-cases (eq_int id (state_id state))) [
      | inl y ↦ rw y (Suits-temperature other h)
      | inr n ↦ rw n h
    ]
  where
    Suits-temperature :
        (other : SensorState)
        → Suits other (temperature id level current)
        → Suits other (temperature id level (some state))
    Suits-temperature (temperature_is i v) h' = tt
    Suits-temperature (contact_is i v) h' = absurd h'

SuitsEach-refresh :
    (other state : SensorState) (sensors : List Sensor)
    → SuitsEach other sensors
    → SuitsEach other (map (refresh state) sensors)
SuitsEach-refresh other state [] h = tt
SuitsEach-refresh other state (sb ∷ sensors) h = (
  λ e. Suits-refresh other state sb (h.0 (sym (refresh-sensor_id state sb) ∙ e)),
  SuitsEach-refresh other state sensors h.1,
)

All-SuitsEach-refresh :
    (states : List SensorState) (state : SensorState) (sensors : List Sensor)
    → All (λ other. SuitsEach other sensors) states
    → All (λ other. SuitsEach other (map (refresh state) sensors)) states
All-SuitsEach-refresh [] state sensors h = tt
All-SuitsEach-refresh (other ∷ states) state sensors h =
    (SuitsEach-refresh other state sensors h.0, All-SuitsEach-refresh states state sensors h.1)

map-follow :
    (state : SensorState) (states : List SensorState) (sensors : List Sensor)
    → map (follow states) (map (refresh state) sensors) ≡ map (follow (state ∷ states)) sensors
unfolding follow
map-follow state states [] = refl
map-follow state states (sb ∷ sensors) = rw (map-follow state states sensors)

map-follow_nil : (sensors : List Sensor) → map (follow []) sensors ≡ sensors
unfolding follow
map-follow_nil [] = refl
map-follow_nil (sb ∷ sensors) = rw (map-follow_nil sensors)

-- The client is told of activations, one after the other, no two of its sensors have one id, and
-- each state that has a sensor's id is of the sensor's class: the client goes on running, and each of its sensors has stayed in its place and has taken exactly the
-- states with its own id, the last of them being its state; states with other ids are ignored.
pub activate_all-follow :
    (states : List SensorState) (id : ℤ) (q : EmserverAdapterQt)
    → Differ q.sensors
    → All (λ state. SuitsEach state q.sensors) states
    → activate_all states id q ≡ done (record q { sensors = map (follow states) q.sensors })
unfolding activate_all on_activated_sensor
activate_all-follow [] id q h suits =
    ap (λ ss. done (record q { sensors = ss })) (sym (map-follow_nil q.sensors))
activate_all-follow (state ∷ states) id q h suits =
    let next = record q { sensors = map (refresh state) q.sensors } in
    rw (
      update_found-map state q.sensors h suits.0,
      activate_all-follow states id next (Differ-refresh state q.sensors h)
          (All-SuitsEach-refresh states state q.sensors suits.1),
      map-follow state states q.sensors,
    )

-- A message about a sensor of the unknown type, which has all of its required fields, makes the
-- client go through a null pointer, if it has any sensor.
pub unknown_activation_crashes :
    (codec : EmserverCodec) (msg : SensorActivated) (sb : Sensor) (sensors : List Sensor) (id : ℤ)
    (q : EmserverAdapterQt)
    → activated_is_initialized msg ≡ true
    → msg.type ≡ some st_unknown
    → q.sensors ≡ sb ∷ sensors
    → on_activated_sensor (native_activated_sensor codec msg) id q ≡ crash null_pointer
unfolding on_activated_sensor update_found native_activated_sensor
unknown_activation_crashes codec msg sb sensors id q full unknown e = rw (unknown, e)

-- An activation whose type is the thermometers', with a value that parses and the id of the first
-- sensor, makes the client cast the state to a class of which it is none, if that sensor is a
-- contact.
pub mismatched_activation_crashes :
    (codec : EmserverCodec) (msg : SensorActivated) (state : SensorTemperatureState) (level : Bool)
    (current : Option SensorState) (sensors : List Sensor) (id : ℤ) (q : EmserverAdapterQt)
    → msg.type ≡ some st_temperature
    → codec.temperature_state.parse (bytes_of msg.sensor_value) ≡ (state, true)
    → q.sensors ≡ dry_contact (int_or_zero msg.sensor_id) level current ∷ sensors
    → on_activated_sensor (native_activated_sensor codec msg) id q ≡ crash bad_static_cast
unfolding on_activated_sensor update_found native_activated_sensor activated_of update_state
mismatched_activation_crashes codec msg state level current sensors id q typed parsed e =
    rw (typed, parsed, e, eq_int_refl (int_or_zero msg.sensor_id))
