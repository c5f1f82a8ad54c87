-- ===== src/Server/Lifetime.antt =====
-- The end of a server: the members of CServer are destroyed, m_session first, and m_server as the
-- last one. TransportServer::~TransportServer (server/src/transport.cpp) cancels the acceptor and
-- joins the thread of the io_service, which calls the handlers of the accepts until there are none.
-- The session is the subject of Session.Lifetime.
use emserver.Base.{
  ◌-◌, ◌<◌, ◌≡◌, ◌≢◌, ◌⊎◌, inl, inr, refl, sym, ◌∙◌, subst, ltb, lt→ltb, ◌==◌, List, [], ◌∷◌, All,
  Option, none, some, true, false, Run, done, crash, stuck, use_after_free, Members, living,
  destroyed, on_members, guarded, go_on, go_on-some, ◌>>=◌, if◌then◌else◌, ErrorCode,
  operation_aborted, operation_not_supported, connection_aborted, other_error, some-injective,
}
use emserver.Server.Transport.{TransportServer}
use emserver.Server.{
  CServer, TcpSession, Application, handler_accept, transport_client_connected_callback,
}

-- The transport, and the other members of the server that owns it.
pub record Remains : Type 0 where
  pub transport : TransportServer
  pub owner : Members CServer

abbrev pub remains : TransportServer → CServer → Remains
remains t s = record { transport = t; owner = living s }

-- The server with its transport as it is, and back.
abbrev pub with_transport : TransportServer → CServer → CServer
with_transport t s = record s { server = some t }

abbrev pub transport_or : TransportServer → Option TransportServer → TransportServer
transport_or t none = t
transport_or t (some t') = t'

-- m_cbConnected, the server's transportClientConnectedCallback, which begins with m_session. The
-- destructor resets m_cbSessionError only.
unfoldable pub call_connected : Application → TcpSession → Remains → Run Remains
call_connected app session r =
    on_members (λ s. transport_client_connected_callback app session (with_transport r.transport s))
      r.owner
    >>= λ s. done (remains (transport_or r.transport s.server) s)

-- TransportServer::handlerAccept, whether the owner is there or not.
unfoldable pub accept_handled : Application → Option ErrorCode → TcpSession → Remains → Run Remains
unfolding call_connected
accept_handled app (some operation_aborted) session r = done r
accept_handled app er_code session r = call_connected app session r

-- The completion of an accept; none if none is pending.
unfoldable pub accept_step :
    Application → Option ErrorCode × TcpSession → Remains → Option (Run Remains)
unfolding accept_handled
accept_step app (er_code, session) r =
    if ltb 0 r.transport.pending_accepts
    then some (
        accept_handled app er_code session (record r {
          transport = record r.transport { pending_accepts = r.transport.pending_accepts - 1 };
        }))
    else none

-- The join, with the accepts in the order of their handlers; none if it has not returned after the
-- last of them.
unfoldable pub join_accepts :
    Application → List (Option ErrorCode × TcpSession) → Remains → Option (Run Remains)
unfolding accept_step
join_accepts app [] r = if r.transport.pending_accepts == 0 then some (done r) else none
join_accepts app (e ∷ es) r = go_on (accept_step app e r) (join_accepts app es)

-- The destructor of a server that has a transport.
unfoldable pub destroy_server :
    Application → List (Option ErrorCode × TcpSession) → TransportServer → Option (Run Remains)
unfolding join_accepts
destroy_server app es t =
    join_accepts app es (record { transport = record t { acceptor = false }; owner = destroyed })

abbrev pub alone : TransportServer → Remains
alone t = record { transport = t; owner = destroyed }

-- Every accept has been cancelled.
abbrev pub AllCancelled : List (Option ErrorCode × TcpSession) → Type 0
AllCancelled = All (λ e. e.0 ≡ some operation_aborted)

-- How the join ends: it returns with no accept pending after all have been cancelled, or one has
-- not been, and its handler has used a destroyed member.
abbrev pub Ends : List (Option ErrorCode × TcpSession) → Run Remains → Type 0
Ends es x =
    ((t : TransportServer) × (x ≡ done (alone t))
      × ((t.pending_accepts == 0) ≡ true)
      × AllCancelled es)
    ⊎ ((x ≡ crash use_after_free) × ¬ AllCancelled es)

-- The server of a transport.
abbrev pub owner_of : Remains → Run CServer
owner_of r = on_members {A = CServer} (λ s. done s) r.owner

owner_is :
    (f : CServer → TransportServer) (m : Run CServer)
    → (m >>= (λ s. done (remains (f s) s)) >>= owner_of) ≡ m
owner_is f (done s) = refl
owner_is f (crash e) = refl
owner_is f stuck = refl

-- With its owner the handler of an accept that has not been cancelled is the one of the running
-- server.
pub accept_handled-living :
    (app : Application) (er_code : Option ErrorCode) (session : TcpSession) (t : TransportServer)
    (s : CServer)
    → er_code ≢ some operation_aborted
    → s.server ≡ some t
    → (accept_handled app er_code session (record {
      transport = record t { pending_accepts = t.pending_accepts - 1 };
      owner = living s;
    })
        >>= owner_of)
      ≡ handler_accept app er_code session s
unfolding accept_handled handler_accept call_connected
accept_handled-living app none session t s h e = rw e (owner_is _ _)
accept_handled-living app (some operation_aborted) session t s h e = absurd (h refl)
accept_handled-living app (some operation_not_supported) session t s h e = rw e (owner_is _ _)
accept_handled-living app (some connection_aborted) session t s h e = rw e (owner_is _ _)
accept_handled-living app (some (other_error n)) session t s h e = rw e (owner_is _ _)

module _ (app : Application) where
  accepted_crash :
      (er_code : Option ErrorCode) (session : TcpSession) (t : TransportServer)
      → er_code ≢ some operation_aborted
      → accept_handled app er_code session (alone t) ≡ crash use_after_free
  unfolding accept_handled call_connected
  accepted_crash none session t h = refl
  accepted_crash (some operation_aborted) session t h = absurd (h refl)
  accepted_crash (some operation_not_supported) session t h = refl
  accepted_crash (some connection_aborted) session t h = refl
  accepted_crash (some (other_error n)) session t h = refl

  cancelled_cases :
      (er : Option ErrorCode) → (er ≡ some operation_aborted) ⊎ (er ≢ some operation_aborted)
  cancelled_cases none = inr λ e. cc e
  cancelled_cases (some operation_aborted) = inl refl
  cancelled_cases (some operation_not_supported) = inr λ e. cc e
  cancelled_cases (some connection_aborted) = inr λ e. cc e
  cancelled_cases (some (other_error n)) = inr λ e. cc e

  join_accepts-Ends :
      (es : List (Option ErrorCode × TcpSession)) (t : TransportServer) (x : Run Remains)
      → join_accepts app es (alone t) ≡ some x
      → Ends es x
  unfolding join_accepts accept_step accept_handled
  join_accepts-Ends [] t x h =
      let (none_, is) = guarded (t.pending_accepts == 0) h in inl (t, sym is, none_, tt)
  join_accepts-Ends ((er, session) ∷ es) t x h =
      let later : TransportServer = record t { pending_accepts = t.pending_accepts - 1 } in
      let (y, stepped, rest) = go_on-some _ (join_accepts app es) x h in
      let is : accept_handled app er session (alone later) ≡ y = (guarded _ stepped).1 in
      elim (cancelled_cases er) [
        | inl aborted ↦
            let returns_ : y ≡ done (alone later) = sym is ∙ rw aborted refl in
            elim (join_accepts-Ends es later x
              (subst (λ z. go_on (some z) (join_accepts app es) ≡ some x) returns_ rest)) [
                | inl (t', ended, none_, all) ↦ inl (t', ended, none_, (aborted, all))
                | inr (ended, some_) ↦ inr (ended, λ all. some_ all.1)
              ]
        | inr other ↦
            let faults_ : y ≡ crash use_after_free =
              sym is ∙ accepted_crash er session later other in
            inr (
              sym (
                  some-injective
                    (subst (λ z. go_on (some z) (join_accepts app es) ≡ some x) faults_ rest)),
              λ all. other all.0,
            )
      ]

  -- A server is destroyed while accepts are pending. However they end, and in any order: the
  -- destructor returns only with none pending, and only if each has been cancelled, since the handler
  -- of one that has completed before, with a client or with another error, uses a member of the
  -- server that has been destroyed. And it may: a first accept that has completed is enough.
  pub released_server :
      (t : TransportServer) (es : List (Option ErrorCode × TcpSession)) (x : Run Remains)
      (session : TcpSession)
      → destroy_server app es t ≡ some x
      → 0 < t.pending_accepts
      → Ends es x × (destroy_server app ((none, session) ∷ []) t ≡ some (crash use_after_free))
  unfolding destroy_server join_accepts accept_step accept_handled call_connected
  released_server t es x session ended pending = (
    join_accepts-Ends es (record t { acceptor = false }) x ended,
    rw (lt→ltb 0 t.pending_accepts pending) refl,
  )
