-- ===== src/Logging/Runs.antt =====
-- The theorems at concrete inputs.
use emserver.Base.{◌≡◌, [], some, none, false, ltb, if◌then◌else◌}
use emserver.Server.{CServer}
use emserver.Logging.{small_logger, max_value, server_update_loglevel}
use emserver.Logging.Setup.{priority_of, server_update_loglevel_lem}

abbrev server : CServer
server = record {
  server = none;
  session = none;
  on_client_connected = none;
  on_client_caps_request = none;
  on_sensor_control_request = none;
  on_log = none;
  sent = [];
}

server_update_loglevel_lem_example :
    (server_update_loglevel 5 (some server) small_logger ≡ (
      ltb 5 max_value,
      if ltb 5 max_value then record small_logger { priority = priority_of 5 } else small_logger,
    ))
    × (server_update_loglevel 5 none small_logger ≡ (false, small_logger))
server_update_loglevel_lem_example = server_update_loglevel_lem 5 server small_logger
