-- ===== src/Client/Connection.antt =====
-- The client's attempts to connect, from a lost session on and after the user has closed the
-- connection.
use emserver.Base.{ℕ, ◌-◌, ◌<◌, ◌≡◌, refl, none, some, true, false, done, other_error, arith}
use emserver.Emserver.Proto.{EmserverCodec}
use emserver.Session.Address.{
  Socket, SocketParameters, connected_socket_parameters, local_socket_parameters,
}
use emserver.Client.Transport.{ConnectionPoint, open_connection, close_connection}
use emserver.Client.{
  EmserverAdapter, Session, User, connected_state_changed, connected_state_changing, not_connected,
  connection_close, on_client_connected, on_handler_accepted, on_session_error, session_lost,
  call_found, cast_connected_state, wait_reading,
}

-- An end of a connection, as the user is told of it.
unfoldable pub point_of : SocketParameters → ConnectionPoint
point_of params = record { interface = params.address; port = params.port }

-- The session that is made of a socket.
unfoldable pub session_of : Socket → Session
session_of socket = record {
  is_open = socket.is_open;
  local_socket = point_of (local_socket_parameters socket);
  connected_socket = point_of (connected_socket_parameters socket);
  reading = false;
}

module _ (codec : EmserverCodec) (user : User) where
  -- If a session ends with an error that is not one of the three that the client leaves alone, the
  -- user's function is told that there is no connection, and then, whatever it has done, a new
  -- attempt is under way and the timer for the next one runs.
  pub lost_reconnects :
      (a b : EmserverAdapter) (f n : ℕ)
      → a.client_callbacks connected_state_changed ≡ some (connected_state_changing f)
      → user.on_connected_state f not_connected (record a { session = none }) ≡ done b
      → (a' : EmserverAdapter) × (on_session_error codec user (other_error n) a ≡ done a')
        × (0 < a'.transport.resolving)
        × (a'.transport.timer ≡ true)
        × (a'.session ≡ b.session)
  unfolding on_session_error session_lost call_found cast_connected_state open_connection
  lost_reconnects a b f n registered called = (
    record b { transport = open_connection none b.transport },
    rw (registered, called),
    omega arith,
    refl,
    refl,
  )

  -- Closing the connection does not end an attempt to connect that is under way: if the attempt
  -- succeeds afterwards, the client has its session and reads from it. No function of the user is
  -- registered for changes of the connection here.
  pub close_then_connected :
      (a : EmserverAdapter) (session : Session)
      → a.client_callbacks connected_state_changed ≡ none
      → 0 < a.transport.connecting
      → (closed connected : EmserverAdapter) × (connection_close codec user a ≡ done closed)
        × (closed.session ≡ none)
        × (closed.transport.connecting ≡ a.transport.connecting)
        × (on_handler_accepted codec user none session closed ≡ done connected)
        × (connected.session ≡ some (record session { reading = true }))
  unfolding connection_close on_handler_accepted on_client_connected call_found wait_reading
      close_connection
  close_then_connected a session nothing under_way =
      let closed = record a { transport = close_connection a.transport; session = none } in
      let accepted = record closed.transport {
        connecting = closed.transport.connecting - 1;
        timer = false;
      } in
      (
        closed,
        record closed { transport = accepted; session = some (record session { reading = true }) },
        rw nothing,
        refl,
        refl,
        rw nothing,
        refl,
      )

  -- The user's function for changes of the connection is told the addresses of the two ends, each
  -- empty where its socket has none, when a connection is made.
  pub connected_is_told :
      (a b : EmserverAdapter) (socket : Socket) (f : ℕ)
      → a.client_callbacks connected_state_changed ≡ some (connected_state_changing f)
      → user.on_connected_state f
          (record {
            local_point = point_of (local_socket_parameters socket);
            remote_point = point_of (connected_socket_parameters socket);
          })
          (record a { session = some (session_of socket) })
        ≡ done b
      → on_client_connected codec user (session_of socket) a ≡ done (wait_reading b)
  unfolding on_client_connected call_found cast_connected_state session_of
  connected_is_told a b socket f registered called = rw (registered, called) refl
