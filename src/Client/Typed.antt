-- ===== src/Client/Typed.antt =====
-- The client's table of callbacks holds under each code a function of the code's type.
use emserver.Base.{
  ℕ, ◌≡◌, ◌≢◌, refl, subst, List, [], ◌∷◌, Option, none, some, true, Run, Fault, bad_any_cast, Post,
  returns, faults, if_both, Bytes, ℤ, some-injective,
}
use emserver.Emserver.Proto.{EmserverCodec, SensorsControl}
use emserver.Sensors.Client.{Sensor, SensorState, fill}
use emserver.Client.{
  EmserverAdapter, Session, User, ConnectedState, ErrorDescriptor, MethodCallbackCode,
  connected_state_changed, response_server_error, response_capabilities, sensor_activated,
  ClientCallback, connected_state_changing, response_of_capabilities, response_of_sensor_activation,
  server_runtime_notification, register_client_callback, cast_connected_state, cast_capabilities,
  cast_activation, cast_runtime_notification, call_found, call_cast, send_or_fail, send_data,
  wait_reading,
}

-- A function of the type that belongs to the code.
abbrev pub Holds : MethodCallbackCode → ClientCallback → Type 0
Holds connected_state_changed (connected_state_changing f) = Unit {0}
Holds response_capabilities (response_of_capabilities f) = Unit {0}
Holds sensor_activated (response_of_sensor_activation f) = Unit {0}
Holds response_server_error (server_runtime_notification f) = Unit {0}
Holds _ _ = ⊥

abbrev pub IsTyped : EmserverAdapter → Type 0
IsTyped a =
    (code : MethodCallbackCode) (callback : ClientCallback)
    → a.client_callbacks code ≡ some callback
    → Holds code callback

abbrev pub NotCast : Fault → Type 0
NotCast fault = fault ≢ bad_any_cast

-- A run that ends with a typed client, or in a fault that is not boost::bad_any_cast.
abbrev pub Typed : Run EmserverAdapter → Type 0
Typed = Post IsTyped NotCast

-- The user's functions, which may call the facade, do so too.
abbrev pub IsTame : User → Type 0
IsTame user =
    ((f : ℕ) (st : ConnectedState) (a : EmserverAdapter)
      → IsTyped a
      → Typed (user.on_connected_state f st a))
    × ((f : ℕ) (sensors : List Sensor) (id : ℤ) (a : EmserverAdapter)
        → IsTyped a
        → Typed (user.on_capabilities f sensors id a))
    × ((f : ℕ) (state : Option SensorState) (id : ℤ) (a : EmserverAdapter)
        → IsTyped a
        → Typed (user.on_sensor_activation f state id a))
    × ((f : ℕ) (error : ErrorDescriptor) (a : EmserverAdapter)
        → IsTyped a
        → Typed (user.on_runtime_notification f error a))

pub found-Typed :
    (cast : ClientCallback → Option ℕ) (entry : Option ClientCallback)
    (use_it : ℕ → EmserverAdapter → Run EmserverAdapter) (a : EmserverAdapter)
    → ((callback : ClientCallback) → entry ≡ some callback → (f : ℕ) × (cast callback ≡ some f))
    → ((f : ℕ) → Typed (use_it f a))
    → IsTyped a
    → Typed (call_found cast entry use_it a)
unfolding call_found call_cast
found-Typed cast none use_it a typed uses h = returns h
found-Typed cast (some callback) use_it a typed uses h =
    let (f, is) = typed callback refl in rw (is, call_cast) (uses f)

pub connected_state-cast :
    (callback : ClientCallback)
    → Holds connected_state_changed callback
    → (f : ℕ) × (cast_connected_state callback ≡ some f)
unfolding cast_connected_state
connected_state-cast (connected_state_changing f) h = (f, refl)
connected_state-cast (response_of_capabilities f) h = absurd h
connected_state-cast (response_of_sensor_activation f) h = absurd h
connected_state-cast (server_runtime_notification f) h = absurd h

pub capabilities-cast :
    (callback : ClientCallback)
    → Holds response_capabilities callback
    → (f : ℕ) × (cast_capabilities callback ≡ some f)
unfolding cast_capabilities
capabilities-cast (response_of_capabilities f) h = (f, refl)
capabilities-cast (connected_state_changing f) h = absurd h
capabilities-cast (response_of_sensor_activation f) h = absurd h
capabilities-cast (server_runtime_notification f) h = absurd h

pub activation-cast :
    (callback : ClientCallback)
    → Holds sensor_activated callback
    → (f : ℕ) × (cast_activation callback ≡ some f)
unfolding cast_activation
activation-cast (response_of_sensor_activation f) h = (f, refl)
activation-cast (connected_state_changing f) h = absurd h
activation-cast (response_of_capabilities f) h = absurd h
activation-cast (server_runtime_notification f) h = absurd h

pub notification-cast :
    (callback : ClientCallback)
    → Holds response_server_error callback
    → (f : ℕ) × (cast_runtime_notification callback ≡ some f)
unfolding cast_runtime_notification
notification-cast (server_runtime_notification f) h = (f, refl)
notification-cast (connected_state_changing f) h = absurd h
notification-cast (response_of_capabilities f) h = absurd h
notification-cast (response_of_sensor_activation f) h = absurd h

pub fill-NotCast :
    (codec : EmserverCodec) (sensors : List (Option Sensor)) (ret : SensorsControl)
    → Post (λ (r : SensorsControl). Unit {0}) NotCast (fill codec ret sensors)
unfolding fill
fill-NotCast codec [] ret = returns tt
fill-NotCast codec (none ∷ sensors) ret = faults (λ e. cc e)
fill-NotCast codec (some sensor ∷ sensors) ret = fill-NotCast codec sensors ret

pub send_or_fail-IsTyped :
    (session : Option Session) (msg : Bytes) (ret : ℤ) (a : EmserverAdapter)
    → IsTyped a
    → IsTyped (send_or_fail session msg ret a).1
unfolding send_or_fail send_data
send_or_fail-IsTyped none msg ret a h = h
send_or_fail-IsTyped (some session) msg ret a h = if_both IsTyped session.is_open h h

pub wait_reading-IsTyped : (a : EmserverAdapter) → IsTyped a → IsTyped (wait_reading a)
unfolding wait_reading
wait_reading-IsTyped a h =
    elim a.session
      as (λ o. IsTyped (elim o [
        | none ↦ a
        | some session ↦ record a { session = some (record session { reading = true }) }
      ])) [ none ↦ h | some session ↦ h ]

-- A registration under a code of a function of its type.
pub register-IsTyped :
    (a : EmserverAdapter) (code : MethodCallbackCode) (callback : ClientCallback)
    → Holds code callback
    → IsTyped a
    → IsTyped (register_client_callback a code callback)
unfolding register_client_callback
register-IsTyped a connected_state_changed callback fits h connected_state_changed cb e =
    subst (Holds connected_state_changed) (some-injective e) fits
register-IsTyped a response_server_error callback fits h response_server_error cb e =
    subst (Holds response_server_error) (some-injective e) fits
register-IsTyped a response_capabilities callback fits h response_capabilities cb e =
    subst (Holds response_capabilities) (some-injective e) fits
register-IsTyped a sensor_activated callback fits h sensor_activated cb e =
    subst (Holds sensor_activated) (some-injective e) fits
register-IsTyped a connected_state_changed callback fits h response_server_error cb e =
    h response_server_error cb e
register-IsTyped a connected_state_changed callback fits h response_capabilities cb e =
    h response_capabilities cb e
register-IsTyped a connected_state_changed callback fits h sensor_activated cb e =
    h sensor_activated cb e
register-IsTyped a response_server_error callback fits h connected_state_changed cb e =
    h connected_state_changed cb e
register-IsTyped a response_server_error callback fits h response_capabilities cb e =
    h response_capabilities cb e
register-IsTyped a response_server_error callback fits h sensor_activated cb e =
    h sensor_activated cb e
register-IsTyped a response_capabilities callback fits h connected_state_changed cb e =
    h connected_state_changed cb e
register-IsTyped a response_capabilities callback fits h response_server_error cb e =
    h response_server_error cb e
register-IsTyped a response_capabilities callback fits h sensor_activated cb e =
    h sensor_activated cb e
register-IsTyped a sensor_activated callback fits h connected_state_changed cb e =
    h connected_state_changed cb e
register-IsTyped a sensor_activated callback fits h response_server_error cb e =
    h response_server_error cb e
register-IsTyped a sensor_activated callback fits h response_capabilities cb e =
    h response_capabilities cb e
