-- ===== src/Client/Lifetime.antt =====
-- The end of a client: EmserverAdapter::~EmserverAdapter (client/src/emserveradapter.cpp), then its
-- members, the transport as the last one, whose destructor (client/src/transport_client.cpp) joins
-- the thread of the io_service. Until that thread has no more to do, it calls the handlers of what
-- is under way. The session is the subject of Session.Lifetime.
pub mod Safety
mod Runs
use emserver.Base.{
  ℕ, suc, ◌-◌, ltb, ◌==◌, ◌&&◌, not, List, [], ◌∷◌, Option, none, some, Bool, true, false, Run,
  done, crash, stuck, Members, living, destroyed, on_members, ◌>>=◌, go_on, if◌then◌else◌,
  ErrorCode,
}
use emserver.Emserver.Proto.{EmserverCodec}
use emserver.Client.Transport.{TransportClient, on_reconnect_timer_timeout}
use emserver.Client.{EmserverAdapter, Session, User, on_session_error, on_client_connected}
use emserver.Client.Facade.{destroy_adapter}

-- The transport, and the other members of the adapter that owns it.
pub record Remains : Type 0 where
  pub transport : TransportClient
  pub owner : Members EmserverAdapter

abbrev pub whole : EmserverAdapter → Remains
whole a = record { transport = a.transport; owner = living a }

-- The end of an operation that the transport has begun, with its error code, or none.
pub data Completion : Type 0 where
  resolves : Option ErrorCode → Completion
  connects : Option ErrorCode → Session → Completion
  expires : Option ErrorCode → Completion

-- m_callbackError or m_callbackConnected, a function of the adapter that is bound to its address.
-- Each of the two begins with m_session.
unfoldable pub call_owner : (EmserverAdapter → Run EmserverAdapter) → Remains → Run Remains
call_owner f r =
    on_members (λ a. f (record a { transport = r.transport })) r.owner >>= λ a. done (whole a)

unfoldable pub at_rest : TransportClient → Bool
at_rest t = (t.resolving == 0) && ((t.connecting == 0) && not t.timer)

module _ (codec : EmserverCodec) (user : User) where
  -- TransportClient::onHandlerResolved and TransportClient::onHandlerAccepted, whether the owner is
  -- there or not.
  unfoldable pub handler_resolved : Option ErrorCode → Remains → Run Remains
  unfolding call_owner
  handler_resolved none r = done (record r {
    transport = record r.transport {
      resolving = r.transport.resolving - 1;
      connecting = suc r.transport.connecting;
    };
  })
  handler_resolved (some code) r =
      call_owner (on_session_error codec user code)
        (record r { transport = record r.transport { resolving = r.transport.resolving - 1 } })

  unfoldable pub handler_accepted : Option ErrorCode → Session → Remains → Run Remains
  unfolding call_owner
  handler_accepted (some code) session r =
      done (record r { transport = record r.transport { connecting = r.transport.connecting - 1 } })
  handler_accepted none session r = call_owner (on_client_connected codec user session) (record r {
    transport = record r.transport { connecting = r.transport.connecting - 1; timer = false };
  })

  -- The handler of a completion; none if no such operation is under way.
  unfoldable pub handler_step : Completion → Remains → Option (Run Remains)
  unfolding handler_resolved handler_accepted
  handler_step (resolves er_code) r =
      if ltb 0 r.transport.resolving then some (handler_resolved er_code r) else none
  handler_step (connects er_code session) r =
      if ltb 0 r.transport.connecting then some (handler_accepted er_code session r) else none
  handler_step (expires er_code) r =
      some (done (record r { transport = on_reconnect_timer_timeout er_code r.transport }))

  -- TransportClient::~TransportClient, with the completions in their order; none if the join has
  -- not returned after the last of them.
  unfoldable pub join : List Completion → Remains → Option (Run Remains)
  unfolding handler_step at_rest
  join [] r = if at_rest r.transport then some (done r) else none
  join (e ∷ es) r = go_on (handler_step e r) (join es)

  -- The destructor of the client, with its members behind the transport.
  unfoldable pub destroy_client : List Completion → EmserverAdapter → Option (Run Remains)
  unfolding destroy_adapter join
  destroy_client es a =
      go_on
        (some (
          destroy_adapter codec user a >>= λ a'.
          done (record { transport = a'.transport; owner = destroyed })))
        (join es)
