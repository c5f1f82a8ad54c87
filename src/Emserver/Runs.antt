-- ===== src/Emserver/Runs.antt =====
-- Runs of the dispatch of messages.
use emserver.Base.{◌≡◌, refl, List, [], ◌∷◌, some, true, Run, done, ◌>>=◌, ℤ, pos}
use emserver.Samples.Messages.{field_codec}
use emserver.Emserver.Proto.{Capabilities, capabilities, st_temperature, all_initialized}
use emserver.Emserver.{
  EmserverProcessor, capability_response, create, register_callback, response_capabilities,
  make_message, receive_common_message,
}
use emserver.Emserver.Dispatch.{in_mode, receive_calls}

-- A callback that keeps the ids it is called with.
keep_id : Capabilities → ℤ → List ℤ → Run (List ℤ)
keep_id m id ids = done (id ∷ ids)

client : EmserverProcessor (List ℤ)
client = register_callback (create 1) response_capabilities (capability_response keep_id)

abbrev one_sensor : Capabilities
one_sensor = record {
  system_configuration =
      record {
        id = some (pos 7);
        type = some st_temperature;
        specific_configuration = some (0 ∷ []);
      }
      ∷ [];
}

receive_calls_example :
    receive_common_message field_codec client
      (in_mode field_codec client
        (make_message field_codec response_capabilities (some (capabilities one_sensor)) (pos 3)))
      []
    ≡ (keep_id one_sensor (pos 3) [] >>= λ s'. done (true, s'))
unfolding all_initialized
receive_calls_example =
    receive_calls field_codec client (capabilities one_sensor) (pos 3) []
      (capability_response keep_id) (keep_id one_sensor) refl
      (unfold client register_callback create in refl) refl
