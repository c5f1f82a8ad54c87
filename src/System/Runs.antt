-- ===== src/System/Runs.antt =====
-- The theorem at a concrete input.
use emserver.Server.{Application}
use emserver.Base.{done, pos}

-- An application that answers 0 to each request.
ready : Application
ready = record {
  client_connected = λ cb ip port s. done s;
  caps_request = λ cb id s. done (pos 0, s);
  sensors_control = λ cb id sensors s. done (pos 0, s);
}
