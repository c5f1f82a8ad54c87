-- ===== src/Client/State.antt =====
-- client/hdr/emserveradapter.h and client/hdr/emserverfacade.h: the client's members, what it calls
-- its user with, and the user's functions that it finds by their codes.
use emserver.Base.{ℕ, List, [], Option, none, some, Bool, Run, done, crash, bad_any_cast, Bytes, ℤ}
use emserver.Sensors.Client.{Sensor, SensorState}
use emserver.Client.Transport.{TransportClient, ConnectionPoint}

pub data MethodCallbackCode : Type 0 where
  connected_state_changed response_server_error response_capabilities sensor_activated :
      MethodCallbackCode

abbrev pub callback_number : MethodCallbackCode → ℕ
callback_number connected_state_changed = 0
callback_number response_server_error = 1
callback_number response_capabilities = 2
callback_number sensor_activated = 3

-- What a boost::any of m_clientCallbacks can hold: a function of one of the four types of the
-- facade, by a number.
pub data ClientCallback : Type 0 where
  connected_state_changing response_of_capabilities response_of_sensor_activation
        server_runtime_notification :
      ℕ → ClientCallback

pub record ConnectedState : Type 0 where
  pub local_point : ConnectionPoint
  pub remote_point : ConnectionPoint

pub record ErrorDescriptor : Type 0 where
  pub method_code : ℕ
  pub error_code : ℤ
  pub description : Bytes

-- A TcpSession, with the answers of localSocketParameters and connectedSocketParameters, and
-- whether waitReading has been called.
pub record Session : Type 0 where
  pub is_open : Bool
  pub local_socket : ConnectionPoint
  pub connected_socket : ConnectionPoint
  pub reading : Bool

-- The members of EmserverAdapter, with the static methodCounter. `sent` are the strings that its
-- sessions have been given to send, in their order.
pub record EmserverAdapter : Type 0 where
  pub method_counter : ℕ
  pub transport : TransportClient
  pub session : Option Session
  pub client_callbacks : MethodCallbackCode → Option ClientCallback
  pub sent : List Bytes

-- The user's functions by their numbers. They may call the facade in turn.
pub record User : Type 0 where
  pub on_connected_state : ℕ → ConnectedState → EmserverAdapter → Run EmserverAdapter
  pub on_capabilities : ℕ → List Sensor → ℤ → EmserverAdapter → Run EmserverAdapter
  pub on_sensor_activation : ℕ → Option SensorState → ℤ → EmserverAdapter → Run EmserverAdapter
  pub on_runtime_notification : ℕ → ErrorDescriptor → EmserverAdapter → Run EmserverAdapter

-- boost::any_cast to each of the function types.
unfoldable pub cast_connected_state : ClientCallback → Option ℕ
cast_connected_state (connected_state_changing f) = some f
cast_connected_state _ = none

unfoldable pub cast_capabilities : ClientCallback → Option ℕ
cast_capabilities (response_of_capabilities f) = some f
cast_capabilities _ = none

unfoldable pub cast_activation : ClientCallback → Option ℕ
cast_activation (response_of_sensor_activation f) = some f
cast_activation _ = none

unfoldable pub cast_runtime_notification : ClientCallback → Option ℕ
cast_runtime_notification (server_runtime_notification f) = some f
cast_runtime_notification _ = none

-- A call of the function that is found, if there is one, by `use`.
unfoldable pub call_cast :
    Option ℕ → (ℕ → EmserverAdapter → Run EmserverAdapter) → EmserverAdapter → Run EmserverAdapter
call_cast none use_it a = crash bad_any_cast
call_cast (some f) use_it a = use_it f a

unfoldable pub call_found :
    (ClientCallback → Option ℕ)
    → Option ClientCallback
    → (ℕ → EmserverAdapter → Run EmserverAdapter)
    → EmserverAdapter
    → Run EmserverAdapter
unfolding call_cast
call_found cast none use_it a = done a
call_found cast (some callback) use_it a = call_cast (cast callback) use_it a

abbrev pub no_point : ConnectionPoint
no_point = record { interface = []; port = 0 }

abbrev pub not_connected : ConnectedState
not_connected = record { local_point = no_point; remote_point = no_point }
