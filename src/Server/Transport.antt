-- ===== src/Server/Transport.antt =====
-- server/hdr/transport.h and server/src/transport.cpp: the listening socket.
use emserver.Base.{ℕ, suc, Bool, true, false, ◌&&◌, Bytes, if◌then◌else◌}

-- The answers of the operating system: whether a text is an address, and whether a socket can be
-- opened and bound there.
pub record Network : Type 0 where
  pub is_address : Bytes → Bool
  pub can_bind : Bytes → ℕ → Bool

-- `acceptor` says whether m_acceptor is set; `pending_accepts` counts the calls of async_accept on
-- it that have not completed.
pub record TransportServer : Type 0 where
  pub interface : Bytes
  pub port : ℕ
  pub acceptor : Bool
  pub pending_accepts : ℕ

-- listen(true): a new acceptor takes the place of the old one, unless the address is wrong or the
-- acceptor's constructor throws.
unfoldable pub listen_transport : Network → TransportServer → Bool × TransportServer
listen_transport net t =
    if net.is_address t.interface && net.can_bind t.interface t.port
    then (true, record t { acceptor = true; pending_accepts = 0 })
    else (false, t)

-- listen(false): the acceptor is cancelled and dropped.
unfoldable pub stop_listening : TransportServer → TransportServer
stop_listening t = record t { acceptor = false; pending_accepts = 0 }

unfoldable pub accept_new_connection : TransportServer → TransportServer
accept_new_connection t =
    if t.acceptor then record t { pending_accepts = suc t.pending_accepts } else t
