-- ===== src/Server/Accepted.antt =====
-- What the server does with the socket of an accept that has completed.
use emserver.Base.{
  ℕ, ◌-◌, ◌≡◌, ◌≢◌, refl, [], Option, none, some, false, ErrorCode, operation_aborted,
  operation_not_supported, connection_aborted, other_error, some-injective, ◌∙◌,
}
use emserver.Session.Address.{Socket, connected_socket_parameters, no_parameters}
use emserver.Server.Transport.{TransportServer, stop_listening}
use emserver.Server.{
  CServer, TcpSession, Application, handler_accept, transport_client_connected_callback, stop,
  notify_connected,
}

-- The session that is made of a socket.
unfoldable pub session_of : Socket → TcpSession
session_of socket =
    let param = connected_socket_parameters socket in
    record { is_open = socket.is_open; address = param.address; port = param.port }

-- The server after an accept, but for what the application's callback does.
abbrev pub with_session : TcpSession → TransportServer → CServer → CServer
with_session session t s = record s {
  session = some session;
  server = some (stop_listening (record t { pending_accepts = t.pending_accepts - 1 }));
}

closed-parameters :
    (socket : Socket) → socket.is_open ≡ false → connected_socket_parameters socket ≡ no_parameters
unfolding connected_socket_parameters
closed-parameters socket closed = rw closed refl

-- An accept that completes, with an error or not, but for operation_aborted: the server has a
-- session of the socket and listens no more, and the application's callback is called once, with the
-- address and the port of the peer.
pub accepted_is_told :
    (app : Application) (er : Option ErrorCode) (socket : Socket) (t : TransportServer) (cb : ℕ)
    (s : CServer)
    → er ≢ some operation_aborted
    → s.server ≡ some t
    → s.on_client_connected ≡ some cb
    → handler_accept app er (session_of socket) s
      ≡ app.client_connected cb
          (some (connected_socket_parameters socket).address)
          (connected_socket_parameters socket).port
          (with_session (session_of socket) t s)
unfolding handler_accept transport_client_connected_callback stop notify_connected session_of
accepted_is_told app none socket t cb s h listens registered = rw (listens, registered) refl
accepted_is_told app (some operation_aborted) socket t cb s h listens registered = absurd (h refl)
accepted_is_told app (some operation_not_supported) socket t cb s h listens registered =
    rw (listens, registered) refl
accepted_is_told app (some connection_aborted) socket t cb s h listens registered =
    rw (listens, registered) refl
accepted_is_told app (some (other_error n)) socket t cb s h listens registered =
    rw (listens, registered) refl

-- An accept that fails, its socket closed, is announced to the application all the same, as a client
-- with no address and port 0, and the server, which has a session of the closed socket, listens no
-- more. The error is not operation_aborted.
pub failed_accept_is_told :
    (app : Application) (code : ErrorCode) (socket : Socket) (t : TransportServer) (cb : ℕ)
    (s : CServer)
    → code ≢ operation_aborted
    → socket.is_open ≡ false
    → s.server ≡ some t
    → s.on_client_connected ≡ some cb
    → handler_accept app (some code) (session_of socket) s
      ≡ app.client_connected cb
          (some [])
          0
          (with_session (record { is_open = false; address = []; port = 0 }) t s)
failed_accept_is_told app code socket t cb s h closed listens registered =
    accepted_is_told app (some code) socket t cb s (λ e. h (some-injective e)) listens registered
    ∙ unfold session_of in rw (closed-parameters socket closed, closed) refl
