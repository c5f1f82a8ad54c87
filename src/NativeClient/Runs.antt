-- ===== src/NativeClient/Runs.antt =====
-- The theorems at concrete inputs.
use mathlib.Core.List.{Permᴰ}
use emserver.NativeClient.Answers.{answer_all, requests, numbers, answered_in_any_order}
use emserver.Base.{
  ℕ, ◌≡◌, refl, List, [], ◌∷◌, map, none, some, true, false, done, crash, null_pointer,
  bad_static_cast, pos, codes, to_i32, arith,
}
use emserver.Samples.Messages.{field_codec}
use emserver.Emserver.Proto.{SensorActivated, st_unknown, st_temperature}
use emserver.Sensors.Client.{
  dry_contact, temperature, SensorState, contact_is, temperature_is, native_activated_sensor,
}
use emserver.NativeClient.{
  EmserverAdapterQt, on_activated_sensor, on_server_runtime_notification, set_call,
}
use emserver.Client.{EmserverAdapter, ErrorDescriptor, no_point}
use emserver.NativeClient.Watch.{
  Differ, follow, refresh, activate_all, activate_all-follow, unknown_activation_crashes,
  mismatched_activation_crashes,
}

-- The client of a house with a contact and a thermometer.
abbrev watching : EmserverAdapterQt
watching = record {
  calls = [];
  sensors = dry_contact (pos 1) true none ∷ temperature (pos 2) (pos 30) none ∷ [];
  signals = [];
}

watching-Differ : Differ watching.sensors
watching-Differ = ((λ e. cc e, tt), (tt, tt))

abbrev states : List SensorState
states =
    temperature_is (pos 2) (pos 31) ∷ contact_is (pos 7) true ∷ temperature_is (pos 2) (pos 29) ∷ []

activate_all-follow_example :
    activate_all states (pos 0) watching
    ≡ done (record watching { sensors = map (follow states) watching.sensors })
activate_all-follow_example = activate_all-follow states (pos 0) watching watching-Differ (
  ((λ e. cc e), ((λ e. tt), tt)),
  (((λ e. tt), ((λ e. cc e), tt)), (((λ e. cc e), ((λ e. tt), tt)), tt)),
)

-- The thermometer has its last state, and the contact has none.
followed :
    map (follow states) watching.sensors
    ≡ dry_contact (pos 1) true none
      ∷ temperature (pos 2) (pos 30) (some (temperature_is (pos 2) (pos 29)))
      ∷ []
unfolding follow refresh
followed = refl

-- An answer erases its call, whatever its code.
answered :
    on_server_runtime_notification
      (record { method_code = 7; error_code = pos 3; description = [] })
      (record watching { calls = set_call (pos 7) (codes "f") [] })
    ≡ watching
unfolding on_server_runtime_notification set_call to_i32
answered = refl

abbrev strange : SensorActivated
strange = record { sensor_id = some (pos 2); type = some st_unknown; sensor_value = none }

unknown_activation_crashes_example :
    on_activated_sensor (native_activated_sensor field_codec strange) (pos 0) watching
    ≡ crash null_pointer
unknown_activation_crashes_example =
    unknown_activation_crashes field_codec strange (dry_contact (pos 1) true none)
      (temperature (pos 2) (pos 30) none ∷ []) (pos 0) watching refl refl refl

-- The contact's id with a temperature.
abbrev mistaken : SensorActivated
mistaken = record {
  sensor_id = some (pos 1);
  type = some st_temperature;
  sensor_value = some (field_codec.temperature_state.serialize (record { value = some (pos 31) }));
}

mismatched_activation_crashes_example :
    on_activated_sensor (native_activated_sensor field_codec mistaken) (pos 0) watching
    ≡ crash bad_static_cast
mismatched_activation_crashes_example =
    mismatched_activation_crashes field_codec mistaken (record { value = some (pos 31) }) true none
      (temperature (pos 2) (pos 30) none ∷ []) (pos 0) watching refl
      (field_codec.temperature_state.parse-serialize (record { value = some (pos 31) }) refl) refl

abbrev client : EmserverAdapter
client = record {
  method_counter = 7;
  transport = record { conf = no_point; resolving = 0; connecting = 1; timer = false };
  session = some (record {
    is_open = true;
    local_socket = no_point;
    connected_socket = no_point;
    reading = true;
  });
  client_callbacks = λ c. none;
  sent = [];
}

-- Three requests, answered the last one first.
abbrev answer : ℕ → ErrorDescriptor
answer k = record { method_code = k; error_code = pos 0; description = [] }

answered_in_any_order_example :
    answer_all (answer 9 ∷ answer 7 ∷ answer 8 ∷ []) (requests field_codec 3 watching client).0
    ≡ watching
answered_in_any_order_example =
    answered_in_any_order field_codec 3 watching client
      (record {
        is_open = true;
        local_socket = no_point;
        connected_socket = no_point;
        reading = true;
      })
      (answer 9 ∷ answer 7 ∷ answer 8 ∷ []) refl refl (omega arith) (omega arith) tt
      (unfold numbers in
        Permᴰ.trans (Permᴰ.cons refl (Permᴰ.swap refl refl)) (Permᴰ.swap refl refl))
