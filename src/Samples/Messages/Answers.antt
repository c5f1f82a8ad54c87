-- ===== src/Samples/Messages/Answers.antt =====
-- The strings with which the example's program answers a request with the id 7.
use emserver.Base.{◌≡◌, refl, [], ◌∷◌, Bytes, pos}
use emserver.Samples.Messages.{
  field_codec, by_fields, pair, option, number, bytes_option, bytes, list, int_option, int, put_int,
  put_option, put_all, bool, put_bool, sensors_type, put_type, type_option, sensor_field,
  configuration_fields, configuration_field,
}
use emserver.Emserver.Proto.{all_initialized}
use emserver.Emserver.{make_message}
use emserver.Sensors.Server.{configuration_of, active_sensor_from_native}
use emserver.Server.Replies.{capabilities_string}
use emserver.Client.Sent.{activation_string, result_string}
use emserver.NativeServer.{contact, thermometer}

-- The contact and the thermometer, the thermometer's activation, and the result 0.
abbrev pub one : Bytes
one =
    1 ∷ 2 ∷ 1 ∷ 20 ∷ 2 ∷ 1 ∷ 0 ∷ 1 ∷ 1 ∷ 1 ∷ 1 ∷ 2 ∷ 1 ∷ 1 ∷ 1 ∷ 0 ∷ 2 ∷ 1 ∷ 2 ∷ 1 ∷ 3 ∷ 1 ∷ 0 ∷ 30
    ∷ 1 ∷ 0 ∷ 7 ∷ []

abbrev pub two : Bytes
two = 1 ∷ 6 ∷ 1 ∷ 10 ∷ 1 ∷ 0 ∷ 2 ∷ 1 ∷ 2 ∷ 1 ∷ 3 ∷ 1 ∷ 0 ∷ 30 ∷ 1 ∷ 0 ∷ 0 ∷ []

abbrev pub three : Bytes
three = 1 ∷ 3 ∷ 1 ∷ 6 ∷ 1 ∷ 7 ∷ 1 ∷ 0 ∷ 0 ∷ 0 ∷ 1 ∷ 1 ∷ 0 ∷ []

pub capabilities-one :
    capabilities_string field_codec (contact ∷ thermometer (pos 0) ∷ []) (pos 7) ≡ one
unfolding make_message configuration_of all_initialized field_codec by_fields pair option number
    bytes_option bytes list int_option int put_int put_option put_all bool put_bool sensors_type
    put_type type_option sensor_field configuration_fields configuration_field
capabilities-one = refl

pub activation-two : activation_string field_codec (thermometer (pos 30)) (pos 0) ≡ two
unfolding make_message active_sensor_from_native field_codec by_fields pair option number
    bytes_option bytes list int_option int put_int put_option put_all bool put_bool sensors_type
    put_type type_option sensor_field configuration_fields configuration_field
activation-two = refl

pub result-three : result_string field_codec 7 (pos 0) ≡ three
unfolding make_message field_codec by_fields pair option number bytes_option bytes list int_option
    int put_int put_option put_all bool put_bool sensors_type put_type type_option sensor_field
    configuration_fields configuration_field
result-three = refl
