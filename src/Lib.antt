-- ===== src/Lib.antt =====
-- A server of sensors behind a C interface, its client library, and the protocol between them.
--
-- Bytes come from TCP in chunks. Each connection has a processor with a thread (Common), which
-- keeps them in a buffer (Buffer), cuts frames out of it (Protocol), and hands on the common
-- message that is wrapped in each. Both sides have a dispatcher of such messages (Emserver), which
-- calls what the server (Server) or the client (Client) has registered; these convert the sensors
-- (Sensors) and call the application's functions.
--
-- - Protocol: common/src/baseprotocol.cpp. `make_protocol_message` is makeProtocolMessage and
--   `extract_from_raw_data` is extractFromRawData, which goes on in `extract_sized` and
--   `extract_checked`. The arithmetic of uint32_t and size_t (64 bits) is written out.
-- - Buffer: common/src/bufferprocessor.cpp. `messages` is the loop of messages(), on fuel: one
--   more than the bytes of the buffer, since each round passes one byte at least.
-- - Common: common/src/commonprocessor.cpp. `run` is any sequence of the network's calls and of
--   the steps of bufferProcessingThreadFunc; a step is what the thread does between two places
--   where the other threads can be seen.
-- - Session: common/src/tcpsession.cpp. `send_run` is any sequence of calls of sendData by threads,
--   of their steps to the end of it, of what the socket does with a write, and of handlerWrite;
--   `read_run` is any sequence of arrivals, completed reads, and handlerRead. Whether async_write
--   takes bytes out of the streambuf by itself is a parameter. Session.Lifetime is the destructor, and
--   `life_run` what is called on the session before and after it.
-- - Emserver: common/src/processoremserver.cpp and its header, with the messages of protocol/proto.
-- - Sensors: cserver/api_sensors.h and the conversions of cserver/cserver.cpp (Sensors.Server);
--   client/hdr/interop_sensors.h and client/src/dataconverter.cpp (Sensors.Client).
-- - Server: cserver/cserver.cpp, and server/src/transport.cpp (Server.Transport).
--   `destroy_server` (Server.Lifetime) is the end of a server, with the accepts that its transport
--   waits for.
-- - Api: cserver/api_server.h and the first part of cserver/cserver.cpp: the C functions on the global
--   server, which a client of the library calls.
-- - Client: client/src/emserveradapter.cpp, and client/src/transport_client.cpp (Client.Transport).
--   `client_run` (Client.Facade) is any sequence of the user's calls of the facade and of what the
--   network does; `destroy_client` (Client.Lifetime) is the end of the client, with the completions
--   that its transport waits for.
-- - Logging: smlog/src/smlog.cpp, and the functions of cserver/cserver.cpp that set the level and the
--   file.
-- - NativeServer: examples/native_cserver/main.cpp, a program on top of the C interface.
-- - NativeClient: examples/native_client/emserveradapterqt.cpp, a client of the client library,
--   and its window, examples/native_client/clientwgt.cpp (NativeClient.Window).
-- - System: the two sides together, where registerReadCallback of common/src/tcpsession.cpp has the
--   messages of a connection processed by the owner of the session. What the programs need of
--   the connection is the interface System.Carrier; System.Journey is its implementation by the
--   sessions of the two ends, their sockets and the processor's thread.
-- - Base: shared names, lists over native numbers, machine words, and `Run`, a computation that
--   ends with a value, with a fault of the C++ program, or without fuel. Samples: instances of the
--   parameters for the modules Runs, which run the code on concrete data.
--
-- Parameters are what is not in this repository: the checksum of Boost.CRC (a 32-bit function of
-- the bytes), the generated protobuf classes (a message whose required fields are set is read back
-- as it was written, and required fields are always written), the application's callbacks, and the
-- operating system's answers about addresses.
--
-- Not modelled: the exception that m_socket.available() can throw in handlerRead, the text that is
-- logged, the counters of a build option, the resolver, the sockets
-- and the worker threads of Boost.Asio (what they do is a choice of steps), the event
-- loops of Qt, and the tests. A byte is a number, and where it matters a theorem asks that
-- it is below 256.
pub mod Base
pub mod Protocol
pub mod Samples
pub mod Buffer
pub mod Common
pub mod Session
pub mod Emserver
pub mod Sensors
pub mod Server
pub mod Client
pub mod Api
pub mod NativeServer
pub mod NativeClient
pub mod System
pub mod Logging
