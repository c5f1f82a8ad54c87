-- ===== src/Server/State.antt =====
-- The members of CServer, what sets them, and how it sends.
use emserver.Base.{
  ℕ, List, [], ◌∷◌, ◌++◌, Option, none, some, Bool, true, false, Run, Bytes, ℤ, negsuc,
  if◌then◌else◌,
}
use emserver.Sensors.Server.{Sensors}
use emserver.Server.Transport.{TransportServer}

-- A TcpSession, with the peer that `connectedSocketParameters` gives.
pub record TcpSession : Type 0 where
  pub is_open : Bool
  pub address : Bytes
  pub port : ℕ

-- The members of CServer; a function pointer is a number, and none if it is null. `sent` are the
-- strings that its sessions have been given to send, in their order.
pub record CServer : Type 0 where
  pub server : Option TransportServer
  pub session : Option TcpSession
  pub on_client_connected : Option ℕ
  pub on_client_caps_request : Option ℕ
  pub on_sensor_control_request : Option ℕ
  pub on_log : Option ℕ
  pub sent : List Bytes

unfoldable pub create : CServer
create = record {
  server = none;
  session = none;
  on_client_connected = none;
  on_client_caps_request = none;
  on_sensor_control_request = none;
  on_log = none;
  sent = [];
}

-- The application's callbacks by their function pointers. They may call the server in turn.
pub record Application : Type 0 where
  pub client_connected : ℕ → Option Bytes → ℕ → CServer → Run CServer
  pub caps_request : ℕ → ℤ → CServer → Run (ℤ × CServer)
  pub sensors_control : ℕ → ℤ → Sensors → CServer → Run (ℤ × CServer)

unfoldable pub set_client_connected_callback : CServer → Option ℕ → CServer
set_client_connected_callback s cb = record s { on_client_connected = cb }

unfoldable pub set_caps_request_callback : CServer → Option ℕ → CServer
set_caps_request_callback s cb = record s { on_client_caps_request = cb }

unfoldable pub set_sensors_control_callback : CServer → Option ℕ → CServer
set_sensors_control_callback s cb = record s { on_sensor_control_request = cb }

unfoldable pub set_logging_callback : CServer → Option ℕ → CServer
set_logging_callback s cb = record s { on_log = cb }

-- TcpSession::sendData, which drops the string if the socket is closed.
unfoldable pub send_data : TcpSession → Bytes → CServer → CServer
send_data session str s = if session.is_open then record s { sent = s.sent ++ (str ∷ []) } else s

-- The string is sent if there is a session.
unfoldable pub send_to_session : Option TcpSession → Bytes → CServer → CServer
unfolding send_data
send_to_session none str s = s
send_to_session (some session) str s = send_data session str s

-- -1 and -2
abbrev pub error_one : ℤ
error_one = negsuc 0

abbrev pub error_two : ℤ
error_two = negsuc 1

abbrev pub is_nil : Bytes → Bool
is_nil [] = true
is_nil (b ∷ bs) = false
