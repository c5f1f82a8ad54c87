-- ===== src/Client/Alive.antt =====
-- A client that has been told to connect goes on trying until it has a session.
use emserver.Base.{
  ℕ, ◌≡◌, ◌-◌, List, refl, subst, sym, ap, Option, none, some, true, done, done-injective,
  >>=-eq-done, Bool-cases, inl, inr, Bytes, ℤ, ErrorCode, other_error,
}
use emserver.Emserver.Proto.{EmserverCodec}
use emserver.Sensors.Client.{Sensor, sensors_to_proto}
use emserver.Client.Transport.{open_connection, on_reconnect_timer_timeout}
use emserver.Client.{
  EmserverAdapter, Session, User, ConnectedState, ClientCallback, connected_state_changed,
  not_connected, connection_open, on_client_connected, on_handler_resolved, on_handler_accepted,
  on_session_error, session_lost, call_found, call_cast, cast_connected_state, wait_reading,
  send_request_capabilities, send_sensors_control, send_or_fail, call_code, send_data,
}

-- Without a session, the timer for the next attempt runs.
abbrev pub IsAlive : EmserverAdapter → Type 0
IsAlive a = a.session ≡ none → a.transport.timer ≡ true

-- The user's functions for changes of the connection touch neither the session nor the attempts.
abbrev pub IsCalm : User → Type 0
IsCalm user =
    (f : ℕ) (st : ConnectedState) (a b : EmserverAdapter)
    → user.on_connected_state f st a ≡ done b
    → (b.session ≡ a.session) × (b.transport ≡ a.transport)

module _ (codec : EmserverCodec) (user : User) where
  -- What happens to a client but for the end of a session by one of the three codes after which it
  -- rests: a name is resolved or not, a connection is made or not, a session is lost, the timer
  -- expires, the user asks again for a connection, or sends one of the two requests. A wait for the
  -- timer that fails, and the messages of the server, are left out.
  pub data Step : EmserverAdapter → EmserverAdapter → Type 0 where
    resolved : {a b : EmserverAdapter} → on_handler_resolved codec user none a ≡ done b → Step a b
    unresolved :
        {a b : EmserverAdapter} (n : ℕ)
        → on_handler_resolved codec user (some (other_error n)) a ≡ done b
        → Step a b
    accepted :
        {a b : EmserverAdapter} (er : Option ErrorCode) (session : Session)
        → on_handler_accepted codec user er session a ≡ done b
        → Step a b
    lost :
        {a b : EmserverAdapter} (n : ℕ)
        → on_session_error codec user (other_error n) a ≡ done b
        → Step a b
    expires :
        {a : EmserverAdapter}
        → Step a (record a { transport = on_reconnect_timer_timeout none a.transport })
    reopens :
        {a : EmserverAdapter} (remote_ip : Bytes) (port : ℕ)
        → Step a (connection_open a remote_ip port)
    requests :
        {a b : EmserverAdapter} (id : ℤ) → send_request_capabilities codec a ≡ (id, b) → Step a b
    controls :
        {a b : EmserverAdapter} (sensors : List (Option Sensor)) (id : ℤ)
        → send_sensors_control codec a sensors ≡ done (id, b)
        → Step a b

  pub data Reach (a : EmserverAdapter) : EmserverAdapter → Type 0 where
    here : Reach a a
    then : {b c : EmserverAdapter} → Reach a b → Step b c → Reach a c

  module _ (calm : IsCalm user) where
    called-same :
        (o : Option ClientCallback) (st : ConnectedState) (a b : EmserverAdapter)
        → call_found cast_connected_state o (λ f. user.on_connected_state f st) a ≡ done b
        → (b.session ≡ a.session) × (b.transport ≡ a.transport)
    unfolding call_found call_cast
    called-same none st a b e =
        let same = done-injective e in
        (sym (ap (λ x. x.session) same), sym (ap (λ x. x.transport) same))
    called-same (some callback) st a b e = cast_called (cast_connected_state callback) e
      where
        cast_called :
            (o : Option ℕ)
            → call_cast o (λ f. user.on_connected_state f st) a ≡ done b
            → (b.session ≡ a.session) × (b.transport ≡ a.transport)
        cast_called none e' = absurd (cc e')
        cast_called (some f) e' = calm f st a b e'

    session_lost-IsAlive : (a b : EmserverAdapter) → session_lost codec user a ≡ done b → IsAlive b
    unfolding session_lost open_connection
    session_lost-IsAlive a b e =
        let (c, called, opens) =
          >>=-eq-done
            (call_found cast_connected_state (a.client_callbacks connected_state_changed)
              (λ f. user.on_connected_state f not_connected) a)
            _ e in
        λ _. sym (ap (λ x. x.transport.timer) (done-injective opens))

    wait_reading-session :
        (a : EmserverAdapter) (session : Session)
        → a.session ≡ some session
        → IsAlive (wait_reading a)
    unfolding wait_reading
    wait_reading-session a session e = rw e (λ e'. absurd (cc e'))

    connected-IsAlive :
        (session : Session) (a b : EmserverAdapter)
        → on_client_connected codec user session a ≡ done b
        → IsAlive b
    unfolding on_client_connected
    connected-IsAlive session a b e =
        let (c, called, read) =
          >>=-eq-done
            (call_found cast_connected_state (a.client_callbacks connected_state_changed) _
              (record a { session = some session }))
            _ e in
        let (same, _) =
          called-same (a.client_callbacks connected_state_changed) _
            (record a { session = some session }) c called in
        subst IsAlive (done-injective read) (wait_reading-session c session same)

    send_data-IsAlive :
        (session : Session) (msg : Bytes) (a : EmserverAdapter)
        → IsAlive a
        → IsAlive (send_data session msg a)
    unfolding send_data
    send_data-IsAlive session msg a h = elim (Bool-cases session.is_open) [
      | inl yes_ ↦ rw yes_ h
      | inr no_ ↦ rw no_ h
    ]

    send_or_fail-IsAlive :
        (o : Option Session) (msg : Bytes) (ret id : ℤ) (a b : EmserverAdapter)
        → send_or_fail o msg ret a ≡ (id, b)
        → IsAlive a
        → IsAlive b
    unfolding send_or_fail
    send_or_fail-IsAlive none msg ret id a b e h = subst IsAlive (ap (λ x. x.1) e) h
    send_or_fail-IsAlive (some session) msg ret id a b e h =
        subst IsAlive (ap (λ x. x.1) e) (send_data-IsAlive session msg a h)

    Step-IsAlive : {a b : EmserverAdapter} → Step a b → IsAlive a → IsAlive b
    unfolding on_handler_resolved on_handler_accepted on_session_error on_reconnect_timer_timeout
        connection_open open_connection send_request_capabilities send_sensors_control call_code
    Step-IsAlive (resolved e) h = subst IsAlive (done-injective e) h
    Step-IsAlive {a} {b} (unresolved n e) h =
        session_lost-IsAlive
          (record a {
            transport = record a.transport { resolving = a.transport.resolving - 1 };
            session = none;
          })
          b e
    Step-IsAlive {a} {b} (accepted none session e) h = connected-IsAlive session _ b e
    Step-IsAlive (accepted (some code) session e) h = subst IsAlive (done-injective e) h
    Step-IsAlive {a} {b} (lost n e) h = session_lost-IsAlive (record a { session = none }) b e
    Step-IsAlive expires h = λ _. refl
    Step-IsAlive (reopens remote_ip port) h = λ _. refl
    Step-IsAlive {a} {b} (requests id e) h = send_or_fail-IsAlive a.session _ _ id _ b e h
    Step-IsAlive {a} {b} (controls sensors id e) h =
        let (req, made, sent) = >>=-eq-done (sensors_to_proto codec sensors) _ e in
        send_or_fail-IsAlive a.session _ _ id (call_code a).1 b (done-injective sent) h

    -- Once the user has asked for a connection: the client has a session, or the timer for its next
    -- attempt runs, after any sequence of these events: a name is resolved or not, a connection is
    -- made or not, a session is lost, the timer expires, the user asks again for a connection or
    -- sends a request. So no session or resolution ends by one of the three codes after which the
    -- client rests, the wait for the timer does not fail, no message of the server is processed, the
    -- user does not close the connection, and the functions that the user has registered for changes
    -- of the connection leave session and attempts alone.
    pub Reach-IsAlive :
        (a b : EmserverAdapter) (remote_ip : Bytes) (port : ℕ)
        → Reach (connection_open a remote_ip port) b
        → IsAlive b
    unfolding connection_open open_connection
    Reach-IsAlive a b remote_ip port r = all r
      where
        all : {c : EmserverAdapter} → Reach (connection_open a remote_ip port) c → IsAlive c
        all here = λ _. refl
        all (then r' step) = Step-IsAlive step (all r')
