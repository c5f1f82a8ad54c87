-- ===== src/NativeClient.antt =====
-- examples/native_client/emserveradapterqt.cpp: a client of the facade that keeps the sensors of the
-- server, and the calls that have no answer yet. What it prints is left out. Its constructor
-- always sets m_server. The window that gets its signals is NativeClient.Window.
pub mod Calls
pub mod Answers
pub mod Watch
pub mod Window
mod Runs
use emserver.Base.{
  ℕ, ◌%◌, ◌^◌, List, [], ◌∷◌, ◌++◌, Option, none, some, Bool, true, false, not, ◌&&◌, Run, done,
  crash, null_pointer, bad_static_cast, ◌>>=◌, ◌==◌, if◌then◌else◌, Bytes, codes, ℤ, pos, negsuc,
  to_i32, to_u32,
}
use emserver.Sensors.Client.{
  Sensor, dry_contact, temperature, SensorState, contact_is, temperature_is, update_state,
}
use emserver.Emserver.Proto.{EmserverCodec}
use emserver.Client.{EmserverAdapter, ConnectedState, ErrorDescriptor}
use emserver.Client

-- The signals that it emits, with their arguments.
pub data Signal : Type 0 where
  client_connected_state_changed : ConnectedState → Signal
  client_sensors_update : List Sensor → Signal

-- `calls` is m_calls, by pairs of key and value; `signals` are the emitted ones in their order.
pub record EmserverAdapterQt : Type 0 where
  pub calls : List (ℤ × Bytes)
  pub sensors : List Sensor
  pub signals : List Signal

unfoldable pub created : EmserverAdapterQt
created = record { calls = []; sensors = []; signals = [] }

abbrev pub eq_int : ℤ → ℤ → Bool
eq_int (pos m) (pos n) = m == n
eq_int (negsuc m) (negsuc n) = m == n
eq_int _ _ = false

-- m_calls[key] = name
unfoldable pub set_call : ℤ → Bytes → List (ℤ × Bytes) → List (ℤ × Bytes)
set_call key name [] = (key, name) ∷ []
set_call key name (c ∷ calls) =
    let rest = set_call key name calls in if eq_int c.0 key then (key, name) ∷ calls else c ∷ rest

-- find and erase
unfoldable pub erase_call : ℤ → List (ℤ × Bytes) → List (ℤ × Bytes)
erase_call key [] = []
erase_call key (c ∷ calls) =
    let rest = erase_call key calls in if eq_int c.0 key then calls else c ∷ rest

-- `if(ret >= 0) m_calls[ret] = ...`
pub remember : ℤ → EmserverAdapterQt → EmserverAdapterQt
unfolding set_call
remember (pos n) q = record q {
  calls = set_call (pos n) (codes "EmserverAdapterQt::sendRequestCapabilities") q.calls;
}
remember (negsuc n) q = q

-- EmserverAdapterQt::sendRequestCapabilities. The id becomes an int.
unfoldable pub send_request_capabilities :
    EmserverCodec → EmserverAdapterQt → EmserverAdapter → EmserverAdapterQt × EmserverAdapter
unfolding remember
send_request_capabilities codec q a =
    let (id, a') = Client.send_request_capabilities codec a in (remember (to_i32 (to_u32 id)) q, a')

unfoldable pub on_connection_state_changed : ConnectedState → EmserverAdapterQt → EmserverAdapterQt
on_connection_state_changed state q = record q {
  signals = q.signals ++ (client_connected_state_changed state ∷ []);
}

unfoldable pub on_capabilities_response : List Sensor → ℤ → EmserverAdapterQt → EmserverAdapterQt
on_capabilities_response sensors id q = record q {
  sensors = sensors;
  signals = q.signals ++ (client_sensors_update sensors ∷ []);
}

-- sensorId() of a sensor and of a state.
abbrev pub sensor_id : Sensor → ℤ
sensor_id (dry_contact id level current) = id
sensor_id (temperature id level current) = id

abbrev pub state_id : SensorState → ℤ
state_id (contact_is id state) = id
state_id (temperature_is id value) = id

-- What onActivatedSensor prints of a sensor: its state's value, by a cast to the sensor's class.
unfoldable pub read_state : Sensor → Run (Unit {0})
read_state (dry_contact id level none) = crash null_pointer
read_state (temperature id level none) = crash null_pointer
read_state (dry_contact id level (some (contact_is i v))) = done tt
read_state (temperature id level (some (temperature_is i v))) = done tt
read_state _ = crash bad_static_cast

-- The search for the sensor, and its updateState. The state is dereferenced for the first sensor.
unfoldable pub update_found : Option SensorState → List Sensor → Run (List Sensor)
unfolding update_state read_state
update_found state [] = done []
update_found none (sb ∷ sensors) = crash null_pointer
update_found (some state) (sb ∷ sensors) =
    let rest = update_found (some state) sensors in
    if eq_int (sensor_id sb) (state_id state)
    then (update_state sb (some state) >>= λ sb'. read_state sb' >>= λ _. done (sb' ∷ sensors))
    else rest >>= λ updated. done (sb ∷ updated)

unfoldable pub on_activated_sensor :
    Option SensorState → ℤ → EmserverAdapterQt → Run EmserverAdapterQt
unfolding update_found
on_activated_sensor state id q =
    update_found state q.sensors >>= λ updated. done (record q { sensors = updated })

abbrev pub is_zero : ℤ → Bool
is_zero (pos n) = n == 0
is_zero (negsuc n) = false

unfoldable pub on_server_runtime_notification :
    ErrorDescriptor → EmserverAdapterQt → EmserverAdapterQt
unfolding erase_call
on_server_runtime_notification error q =
    let answered = record q { calls = erase_call (to_i32 error.method_code) q.calls } in
    if not (error.method_code == 0) && not (is_zero error.error_code)
    then answered
    else (if (error.method_code == 0) && not (is_zero error.error_code)
        then q
        else (if not (error.method_code == 0) && is_zero error.error_code then answered else q))
