-- ===== src/NativeServer/Main.antt =====
-- What the program does from its start to its end.
use emserver.Base.{[], ◌∷◌, none, some, true, false, Run, done, ℤ, codes}
use emserver.Server.{CServer}
use emserver.Server.Transport.{TransportServer}
use emserver.Api.{Global, server_close}
use emserver.Logging.{Root, debug, appender_name}
use emserver.NativeServer.{logging_callback, ip, port, on_client_connected, capabilities_request}

-- The server that main has set up, with its socket.
abbrev pub set_up : TransportServer → CServer
set_up socket = record {
  server = some socket;
  session = none;
  on_client_connected = some on_client_connected;
  on_client_caps_request = some capabilities_request;
  on_sensor_control_request = none;
  on_log = some logging_callback;
  sent = [];
}

abbrev pub listening : TransportServer
listening = record { interface = ip; port = port; acceptor = true; pending_accepts = 1 }

abbrev pub not_listening : TransportServer
not_listening = record { interface = ip; port = port; acceptor = false; pending_accepts = 0 }

abbrev pub logged : Root
logged = record {
  priority = debug;
  file_appenders = (appender_name, codes "C:/CodeProjects/cnserver.log") ∷ [];
}

-- The server is closed behind the loop.
abbrev pub closed : ℤ × Global → Run (ℤ × Global)
closed (ret, g) = done (ret, server_close g)

abbrev pub ended : ℤ × Global → Run ((ℤ × Global) × Root)
ended (ret, g) = done ((ret, server_close g), logged)
