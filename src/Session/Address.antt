-- ===== src/Session/Address.antt =====
-- common/hdr/tcpsession.h and common/src/tcpsession.cpp: the addresses of a connection's two ends.
use emserver.Base.{ℕ, [], Option, none, some, Bool, Bytes, if◌then◌else◌}

-- boost::asio::ip::address, by what it says of itself.
pub record Address : Type 0 where
  pub is_unspecified : Bool
  pub text : Bytes

pub record Endpoint : Type 0 where
  pub address : Address
  pub port : ℕ

-- A socket. Where an end is none, the question for it throws boost::system::system_error, as it does
-- for the peer's once the connection is gone.
pub record Socket : Type 0 where
  pub is_open : Bool
  pub remote_endpoint : Option Endpoint
  pub local_endpoint : Option Endpoint

pub record SocketParameters : Type 0 where
  pub address : Bytes
  pub port : ℕ

abbrev pub no_parameters : SocketParameters
no_parameters = record { address = []; port = 0 }

-- The body of the try block, and what the catch block leaves.
unfoldable pub parameters_of : Option Endpoint → SocketParameters
parameters_of none = no_parameters
parameters_of (some point) = record {
  address = if point.address.is_unspecified then [] else point.address.text;
  port = point.port;
}

unfoldable pub connected_socket_parameters : Socket → SocketParameters
unfolding parameters_of
connected_socket_parameters socket =
    if socket.is_open then parameters_of socket.remote_endpoint else no_parameters

unfoldable pub local_socket_parameters : Socket → SocketParameters
unfolding parameters_of
local_socket_parameters socket =
    if socket.is_open then parameters_of socket.local_endpoint else no_parameters
