-- ===== src/Client/Transport.antt =====
-- client/hdr/transport_client.h and client/src/transport_client.cpp: the attempts to connect. The
-- threads, and what the resolver and the sockets do, are not modelled: a completion is a call of
-- the handler with its error code, or none.
use emserver.Base.{
  ℕ, suc, [], Option, none, some, Bool, true, false, Bytes, ErrorCode, operation_aborted,
}

pub record ConnectionPoint : Type 0 where
  pub interface : Bytes
  pub port : ℕ

-- `resolving` and `connecting` count the calls of async_resolve and async_connect that have not
-- completed; `timer` says whether the reconnect timer is waited for.
pub record TransportClient : Type 0 where
  pub conf : ConnectionPoint
  pub resolving : ℕ
  pub connecting : ℕ
  pub timer : Bool

unfoldable pub create_transport : TransportClient
create_transport = record {
  conf = record { interface = []; port = 0 };
  resolving = 0;
  connecting = 0;
  timer = false;
}

abbrev point_or : Option ConnectionPoint → ConnectionPoint → ConnectionPoint
point_or none conf = conf
point_or (some point) conf = point

unfoldable pub open_connection : Option ConnectionPoint → TransportClient → TransportClient
open_connection point t = record t {
  conf = point_or point t.conf;
  resolving = suc t.resolving;
  timer = true;
}

unfoldable pub close_connection : TransportClient → TransportClient
close_connection t = record t { timer = false }

-- A wait that is aborted has been cancelled, or has a new one in its place.
unfoldable pub on_reconnect_timer_timeout : Option ErrorCode → TransportClient → TransportClient
unfolding open_connection
on_reconnect_timer_timeout none t = open_connection none (record t { timer = false })
on_reconnect_timer_timeout (some operation_aborted) t = t
on_reconnect_timer_timeout (some _) t = record t { timer = false }
