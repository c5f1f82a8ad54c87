-- ===== src/System/Samples.antt =====
-- A client that sends a request over a connection, and the example's server.
use emserver.Base.{List, take, drop, to_i32}
use emserver.Samples.{sum32, plain_codec}
use emserver.Protocol.{make_protocol_message}
use emserver.Common.{prepare_data}
use emserver.Session.Send.{
  Sender, SendEvent, calls, goes, transmits, completes, handles, free, connected, send_step,
  send_run,
}
use emserver.Session.Read.{
  Reader, ReadEvent, opened, reads_exactly, read_step, read_run, waits, arrives, transfers,
}
use emserver.Session.Read
use emserver.Emserver.{make_message}
use emserver.Client.{call_code}
use emserver.Base.{◌≡◌, refl, [], ◌∷◌, ◌++◌, Option, none, false, some, true, done, pos, Bytes}
use emserver.Samples.Messages.{field_codec, field_codec-request, field_codec-server_common}
use emserver.Emserver.Proto.{EmserverCodec}
use emserver.Server.{CServer, TcpSession}
use emserver.Client.{
  EmserverAdapter, MethodCallbackCode, ClientCallback, Session, User, no_point,
  send_request_capabilities, connected_state_changed, response_capabilities, sensor_activated,
  response_server_error, connected_state_changing, response_of_capabilities,
  response_of_sensor_activation, server_runtime_notification,
}
use emserver.NativeServer.{Program, capabilities_request}

abbrev pub codec : EmserverCodec
codec = field_codec

-- A user who does nothing.
unfoldable pub idle : User
idle = record {
  on_connected_state = λ f st a. done a;
  on_capabilities = λ f sensors id a. done a;
  on_sensor_activation = λ f state id a. done a;
  on_runtime_notification = λ f error a. done a;
}

abbrev pub program : Program
program = record { current_value = pos 0; send_id = 0 }

abbrev pub open_session : Session
open_session = record {
  is_open = true;
  local_socket = no_point;
  connected_socket = no_point;
  reading = true;
}

abbrev pub all_callbacks : MethodCallbackCode → Option ClientCallback
all_callbacks connected_state_changed = some (connected_state_changing 1)
all_callbacks response_server_error = some (server_runtime_notification 2)
all_callbacks response_capabilities = some (response_of_capabilities 3)
all_callbacks sensor_activated = some (response_of_sensor_activation 4)

abbrev pub client : EmserverAdapter
client = record {
  method_counter = 7;
  transport = record { conf = no_point; resolving = 0; connecting = 1; timer = false };
  session = some open_session;
  client_callbacks = all_callbacks;
  sent = [];
}

abbrev pub peer : TcpSession
peer = record { is_open = true; address = 49 ∷ []; port = 9000 }

abbrev pub server : CServer
server = record {
  server = none;
  session = some peer;
  on_client_connected = none;
  on_client_caps_request = some capabilities_request;
  on_sensor_control_request = none;
  on_log = none;
  sent = [];
}

-- The string that the client's request gives its session, and its frame.
abbrev pub request_string : Bytes
request_string = 1 ∷ 1 ∷ 1 ∷ 1 ∷ 0 ∷ 1 ∷ 0 ∷ 7 ∷ []

abbrev pub request_frame : Bytes
request_frame = 36 ∷ 12 ∷ 0 ∷ 0 ∷ 0 ∷ 1 ∷ 1 ∷ 1 ∷ 1 ∷ (request_string ++ (64 ∷ 0 ∷ 0 ∷ 0 ∷ []))

pub asks : (send_request_capabilities codec client).1.sent ≡ [] ++ (request_string ∷ [])
unfolding send_request_capabilities make_message call_code to_i32
asks = rw (field_codec-request, field_codec-server_common)

pub prepare_request : prepare_data sum32 plain_codec request_string ≡ request_frame
unfolding prepare_data sum32 plain_codec make_protocol_message
prepare_request = refl

abbrev pub sends : List SendEvent
sends = calls request_string ∷ goes ∷ transmits 5 ∷ transmits 16 ∷ completes ∷ handles ∷ []

abbrev pub has_sent : Sender
has_sent = record {
  is_open = true;
  stream_send = [];
  in_send_mode = false;
  writes = [];
  handlers = [];
  holder = free;
  wire = request_frame;
  errors = [];
}

pub run_sends : send_run true (prepare_data sum32 plain_codec) sends connected ≡ some has_sent
unfolding send_run send_step connected
run_sends = rw (prepare_request, send_run)

abbrev pub reads_pieces : List ReadEvent
reads_pieces =
    waits
    ∷ arrives (take 7 request_frame)
    ∷ transfers
    ∷ Read.handles
    ∷ transfers
    ∷ Read.handles
    ∷ arrives (drop 7 request_frame)
    ∷ transfers
    ∷ Read.handles
    ∷ transfers
    ∷ Read.handles
    ∷ []

abbrev pub has_read : Reader
has_read = record {
  arrived = [];
  buffer = [];
  reading = reads_exactly 1;
  handed = take 7 request_frame ∷ drop 7 request_frame ∷ [];
  errors = [];
}

pub run_reads : read_run reads_pieces opened ≡ some has_read
unfolding read_run read_step opened
run_reads = refl
