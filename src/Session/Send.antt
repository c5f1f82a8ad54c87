-- ===== src/Session/Send.antt =====
-- TcpSession::sendData and TcpSession::handlerWrite, with the threads that call sendData. What the
-- socket does is a choice of events; `async_write` takes the bytes that are in the streambuf when
-- it is called.
pub mod Channel
pub mod Progress
pub mod Wakes
use emserver.Base.{
  ℕ, suc, ◌+◌, ◌-◌, ◌≤◌, ◌<◌, List, [], ◌∷◌, ◌++◌, length, take, drop, Option, none, some, Bool,
  true, false, ◌&&◌, Bytes, leb, ltb, if◌then◌else◌, ErrorCode, operation_aborted,
}

-- A call of async_write that has not completed: how many bytes the socket has taken, and the rest.
pub record Write : Type 0 where
  pub gone : ℕ
  pub left : Bytes

-- The thread that has m_sendSyncMutex, with its `chunk`, by the place where it stands: in front of
-- the test of m_inSendMode, behind a test that was true, in `wait_for`, and behind a `wait_for`
-- that has not timed out.
pub data Holder : Type 0 where
  free : Holder
  testing entering waiting woken : Bytes → Holder

-- The members that sending uses. `writes` are the calls of async_write that have not completed,
-- `handlers` what handlerWrite is still to be called with, `wire` what the socket has taken, and
-- `errors` what onSessionError_ has been called with.
pub record Sender : Type 0 where
  pub is_open : Bool
  pub stream_send : Bytes
  pub in_send_mode : Bool
  pub writes : List Write
  pub handlers : List (Option ErrorCode × ℕ)
  pub holder : Holder
  pub wire : Bytes
  pub errors : List ErrorCode

unfoldable pub connected : Sender
connected = record {
  is_open = true;
  stream_send = [];
  in_send_mode = false;
  writes = [];
  handlers = [];
  holder = free;
  wire = [];
  errors = [];
}

-- What can happen: a thread calls sendData and gets the mutex, the thread that has it goes on, its
-- `wait_for` times out or ends for no reason, the socket takes bytes, a write completes or fails,
-- and handlerWrite is called.
pub data SendEvent : Type 0 where
  calls : Bytes → SendEvent
  goes times_out wakes : SendEvent
  transmits : ℕ → SendEvent
  completes : SendEvent
  fails : ErrorCode → SendEvent
  handles : SendEvent

-- The end of sendData.
pub begin_write : Bytes → Sender → Sender
begin_write chunk s = record s {
  in_send_mode = true;
  stream_send = s.stream_send ++ chunk;
  writes = s.writes ++ (record { gone = 0; left = s.stream_send ++ chunk } ∷ []);
  holder = free;
}

-- notify_one
pub notified : Holder → Holder
notified (waiting chunk) = woken chunk
notified holder = holder

reported : Option ErrorCode → List ErrorCode
reported none = []
reported (some operation_aborted) = []
reported (some code) = code ∷ []

pub handler_write : Option ErrorCode → ℕ → Sender → Sender
unfolding notified reported
handler_write code bytes_transmited s = record s {
  stream_send = drop bytes_transmited s.stream_send;
  in_send_mode = false;
  holder = notified s.holder;
  errors = s.errors ++ reported code;
}

-- The thread goes on from where it stands, unless it is blocked.
unfoldable pub holder_goes : Holder → Sender → Option Sender
unfolding begin_write
holder_goes free s = none
holder_goes (testing chunk) s =
    some (if s.in_send_mode then record s { holder = entering chunk } else begin_write chunk s)
holder_goes (entering chunk) s = some (record s { holder = waiting chunk })
holder_goes (waiting chunk) s = none
holder_goes (woken chunk) s = some (begin_write chunk s)

unfoldable pub holder_times_out : Holder → Sender → Option Sender
holder_times_out (waiting chunk) s = some (record s { holder = testing chunk })
holder_times_out _ s = none

unfoldable pub holder_wakes : Holder → Sender → Option Sender
holder_wakes (waiting chunk) s = some (record s { holder = woken chunk })
holder_wakes _ s = none

-- The socket takes `n` bytes of the oldest write.
unfoldable pub socket_takes : ℕ → List Write → Sender → Option Sender
socket_takes n [] s = none
socket_takes n (w ∷ ws) s =
    if ltb 0 n && leb n (length w.left)
    then some (record s {
      writes = record { gone = w.gone + n; left = drop n w.left } ∷ ws;
      wire = s.wire ++ take n w.left;
    })
    else none

unfoldable pub handler_runs : List (Option ErrorCode × ℕ) → Sender → Option Sender
unfolding handler_write
handler_runs [] s = none
handler_runs ((code, n) ∷ hs) s = some (handler_write code n (record s { handlers = hs }))

-- `consumes` says whether a write takes the bytes that the socket has got out of the streambuf
-- before its handler is called.
module _ (consumes : Bool) where
  consumed : Write → Bytes → Bytes
  consumed w stream = if consumes then drop w.gone stream else stream

  unfoldable pub write_completes : List Write → Sender → Option Sender
  unfolding consumed
  write_completes [] s = none
  write_completes (w ∷ ws) s =
      if leb (length w.left) 0
      then some (record s {
        writes = ws;
        handlers = s.handlers ++ ((none, w.gone) ∷ []);
        stream_send = consumed w s.stream_send;
      })
      else none

  unfoldable pub write_fails : ErrorCode → List Write → Sender → Option Sender
  unfolding consumed
  write_fails code [] s = none
  write_fails code (w ∷ ws) s = some (record s {
    writes = ws;
    handlers = s.handlers ++ ((some code, w.gone) ∷ []);
    stream_send = consumed w s.stream_send;
  })

  module _ (prepare : Bytes → Bytes) where
    -- sendData up to the mutex: `prepare` is prepareData. A call behind another one that has the mutex is the event that it gets the mutex.
    pub send_data : Bytes → Holder → Sender → Option Sender
    send_data str free s =
        some (if s.is_open then record s { holder = testing (prepare str) } else s)
    send_data str _ s = if s.is_open then none else some s

    unfoldable pub send_step : SendEvent → Sender → Option Sender
    unfolding send_data holder_goes holder_times_out holder_wakes socket_takes write_completes
        write_fails handler_runs
    send_step (calls str) s = send_data str s.holder s
    send_step goes s = holder_goes s.holder s
    send_step times_out s = holder_times_out s.holder s
    send_step wakes s = holder_wakes s.holder s
    send_step (transmits n) s = socket_takes n s.writes s
    send_step completes s = write_completes s.writes s
    send_step (fails code) s = write_fails code s.writes s
    send_step handles s = handler_runs s.handlers s

    unfoldable pub send_run : List SendEvent → Sender → Option Sender
    send_run [] s = some s
    send_run (e ∷ es) s = elim (send_step e s) [ none ↦ none | some s' ↦ send_run es s' ]
