-- ===== src/Server/Listening.antt =====
-- One session at a time: the server stops listening when it has a session, and listens again when
-- the session is lost.
use emserver.Base.{
  ℕ, ◌≡◌, refl, subst, sym, ap, ◌∙◌, Option, none, some, true, false, done, Run, >>=-eq-done, Bytes,
  ErrorCode, operation_aborted, operation_not_supported, connection_aborted, other_error,
}
use emserver.Server.Transport.{
  TransportServer, Network, listen_transport, stop_listening, accept_new_connection,
}
use emserver.Server.{
  CServer, TcpSession, Application, handler_accept, transport_client_connected_callback,
  callback_session_error, close, session_lost, relisten, stop, notify_connected,
}

done-inj : {A : Type 0} {a b : A} → done a ≡ done b → a ≡ b
done-inj e = cc e

-- While there is a session, nothing listens and no accept is pending.
abbrev pub IsExclusive : CServer → Type 0
IsExclusive s =
    (t : TransportServer) (session : TcpSession)
    → s.server ≡ some t
    → s.session ≡ some session
    → (t.acceptor ≡ false) × (t.pending_accepts ≡ 0)

-- The callback for connections returns, and changes neither the session nor the listening socket.
abbrev pub IsQuiet : Application → Type 0
IsQuiet app =
    (cb : ℕ) (ip : Option Bytes) (port : ℕ) (s : CServer)
    → (s' : CServer) × (app.client_connected cb ip port s ≡ done s')
      × (s'.server ≡ s.server)
      × (s'.session ≡ s.session)

-- The application's callback, if it is registered, is called for the end of a session.
abbrev pub told : Application → Option ℕ → CServer → Run CServer
told app none s = done s
told app (some cb) s = app.client_connected cb none 0 s

module _ (net : Network) (app : Application) where
  -- What the transport reports to the server, and the call of close.
  pub data Step : CServer → CServer → Type 0 where
    accept :
        {s s' : CServer} (er : Option ErrorCode) (session : TcpSession)
        → handler_accept app er session s ≡ done s'
        → Step s s'
    fail :
        {s s' : CServer} (code : ErrorCode)
        → callback_session_error net app code s ≡ done s'
        → Step s s'
    shut : {s : CServer} → Step s (close s)

  pub data Reach : CServer → CServer → Type 0 where
    here : {s : CServer} → Reach s s
    then : {s s' s'' : CServer} → Reach s s' → Step s' s'' → Reach s s''

  notify-same :
      IsQuiet app
      → (cb : Option ℕ) (session : TcpSession) (s s' : CServer)
      → notify_connected app cb session s ≡ done s'
      → (s'.server ≡ s.server) × (s'.session ≡ s.session)
  unfolding notify_connected
  notify-same quiet none session s s' e = (cc, cc)
  notify-same quiet (some cb) session s s' e =
      let (s'', e', h, h') = quiet cb (some session.address) session.port s in
      let same : s' ≡ s'' = cc (e, e') in
      (ap (λ c. c.server) same ∙ h, ap (λ c. c.session) same ∙ h')

  connected-IsExclusive :
      IsQuiet app
      → (session : TcpSession) (s s' : CServer)
      → transport_client_connected_callback app session s ≡ done s'
      → IsExclusive s'
  unfolding transport_client_connected_callback stop stop_listening
  connected-IsExclusive quiet session s s' e =
      let (server, stopped, connected) = >>=-eq-done (stop s.server) _ e in
      let (same, _) = notify-same quiet s.on_client_connected session _ s' connected in
      λ t session' has_server has_session. idle s.server server stopped t (sym same ∙ has_server)
    where
      idle :
          (o server : Option TransportServer)
          → stop o ≡ done server
          → (t : TransportServer) → server ≡ some t
          → (t.acceptor ≡ false) × (t.pending_accepts ≡ 0)
      idle none server e' t e'' = absurd (cc e')
      idle (some t') server e' t e'' =
          let same : stop_listening t' ≡ t = cc (e', e'') in
          (sym (ap (λ x. x.acceptor) same), sym (ap (λ x. x.pending_accepts) same))

  no_session-IsExclusive : (s : CServer) → s.session ≡ none → IsExclusive s
  no_session-IsExclusive s e = λ t session _ e'. absurd (cc (e, e'))

  relisten-session :
      (server : Option TransportServer) (s s' : CServer)
      → relisten net server s ≡ done s'
      → s'.session ≡ s.session
  unfolding relisten
  relisten-session none s s' e = absurd (cc e)
  relisten-session (some t) s s' e = sym (ap (λ c. c.session) (done-inj e))

  lost-session :
      IsQuiet app
      → (cb : Option ℕ) (s s' : CServer) → session_lost net app cb s ≡ done s'
      → s'.session ≡ s.session
  unfolding session_lost
  lost-session quiet none s s' e = relisten-session s.server s s' e
  lost-session quiet (some cb) s s' e =
      let (s'', called, listened) = >>=-eq-done (app.client_connected cb none 0 s) _ e in
      let (c, called', _, h) = quiet cb none 0 s in
      let same : s'' ≡ c = cc (called, called') in
      relisten-session s''.server s'' s' listened ∙ ap (λ x. x.session) same ∙ h

  error-session :
      IsQuiet app
      → (code : ErrorCode) (s s' : CServer) → callback_session_error net app code s ≡ done s'
      → s'.session ≡ none
  unfolding callback_session_error
  error-session quiet operation_aborted s s' e = sym (ap (λ c. c.session) (done-inj e))
  error-session quiet operation_not_supported s s' e = sym (ap (λ c. c.session) (done-inj e))
  error-session quiet connection_aborted s s' e = sym (ap (λ c. c.session) (done-inj e))
  error-session quiet (other_error n) s s' e =
      lost-session quiet s.on_client_connected (record s { session = none }) s' e

  accept-IsExclusive :
      IsQuiet app
      → (er : Option ErrorCode) (session : TcpSession) (s s' : CServer) → IsExclusive s
      → handler_accept app er session s ≡ done s'
      → IsExclusive s'
  unfolding handler_accept
  accept-IsExclusive quiet (some operation_aborted) session s s' h e =
      subst IsExclusive (done-inj e) h
  accept-IsExclusive quiet _ session s s' h e = connected-IsExclusive quiet session _ s' e

  Step-IsExclusive : IsQuiet app → {s s' : CServer} → Step s s' → IsExclusive s → IsExclusive s'
  Step-IsExclusive quiet {s} {s'} (accept er session e) h =
      accept-IsExclusive quiet er session s s' h e
  Step-IsExclusive quiet {s} {s'} (fail code e) h =
      no_session-IsExclusive s' (error-session quiet code s s' e)
  Step-IsExclusive quiet {s} shut h = no_session-IsExclusive (close s) (unfold close in refl)

  -- From a server without a session, whatever the transport reports, in whatever order: as long as
  -- the application's callback changes neither session nor socket, the server never listens while
  -- it has a session.
  pub Reach-IsExclusive :
      IsQuiet app → (s s' : CServer) → s.session ≡ none → Reach s s' → IsExclusive s'
  Reach-IsExclusive quiet s s' e r = all r (no_session-IsExclusive s e)
    where
      all : {s1 s2 : CServer} → Reach s1 s2 → IsExclusive s1 → IsExclusive s2
      all here h = h
      all (then r step) h = Step-IsExclusive quiet step (all r h)

  relisten-some :
      (t : TransportServer) (s : CServer)
      → net.is_address t.interface ≡ true
      → net.can_bind t.interface t.port ≡ true
      → relisten net (some t) s
        ≡ done (record s { server = some (record t { acceptor = true; pending_accepts = 1 }) })
  unfolding relisten listen_transport accept_new_connection
  relisten-some t s is_address can_bind = rw (is_address, can_bind)

  -- If a session ends with an error that is not one of the three that the server leaves alone, and
  -- the address can be bound again: the server drops the session, calls the application's callback,
  -- if there is one, with no address and port 0, and then, from where this has left it, listens with
  -- one accept pending, and still has no session. The callback returns, and leaves the session and
  -- the socket alone.
  pub lost_listens :
      IsQuiet app
      → (s : CServer) (t : TransportServer) (n : ℕ) → s.server ≡ some t
      → net.is_address t.interface ≡ true
      → net.can_bind t.interface t.port ≡ true
      → (c : CServer) × (told app s.on_client_connected (record s { session = none }) ≡ done c)
        × (c.session ≡ none)
        × (callback_session_error net app (other_error n) s
            ≡ done (record c { server = some (record t { acceptor = true; pending_accepts = 1 }) }))
  unfolding callback_session_error session_lost
  lost_listens quiet s t n has is_address can_bind = lost s.on_client_connected
    where
      listening : Option TransportServer
      listening = some (record t { acceptor = true; pending_accepts = 1 })

      lost :
          (cb : Option ℕ)
          → (c : CServer) × (told app cb (record s { session = none }) ≡ done c)
            × (c.session ≡ none)
            × (session_lost net app cb (record s { session = none })
                ≡ done (record c { server = listening }))
      lost none = (
        record s { session = none },
        refl,
        refl,
        rw (has, relisten-some t (record s { session = none }) is_address can_bind),
      )
      lost (some cb) =
          let (c, called, same, gone) = quiet cb none 0 (record s { session = none }) in
          (
            c,
            called,
            gone,
            rw called
                (ap (λ o. relisten net o c) (same ∙ has) ∙ relisten-some t c is_address can_bind),
          )
