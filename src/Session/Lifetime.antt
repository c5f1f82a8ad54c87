-- ===== src/Session/Lifetime.antt =====
-- TcpSession::~TcpSession, in the thread that drops the last pointer to the session, and what is
-- called on the session's address afterwards: the handlers hold no pointer that keeps it alive.
use emserver.Base.{
  ℕ, ◌≡◌, ◌≢◌, refl, sym, ap, ◌∙◌, subst, List, [], ◌∷◌, ◌++◌, map, Option, none, some, Bool, true,
  false, Run, done, crash, stuck, use_after_free, self_join, ◌>>=◌, go_on, Bytes, All, ErrorCode,
  operation_aborted, if◌then◌else◌,
}
pub mod Safety
use emserver.Session.Send.{
  Write, Holder, free, testing, entering, waiting, woken, Sender, connected, SendEvent, calls, goes,
  times_out, wakes, transmits, completes, fails, handles, send_step, send_run,
}
use emserver.Session.Send.Channel.{IsSteady, IsSending, Phase, connected-IsSending}
use emserver.Session.Send.Channel.Refines.{send_refines}
use emserver.Session.Send.Progress.{IsQuiet}
use emserver.Session.Read.{Reading, reads_exactly, stopped, Reader, ReadEvent, read_step}
use emserver.Session.Read

-- The thread that runs the destructor: the one of the io_service, which runs the handlers, the
-- processing thread of the session, which runs its owner's callbacks, or one of the application.
pub data Destroyer : Type 0 where
  io_thread processing_thread application_thread : Destroyer

-- Closing the socket ends each write that is under way, and its handler is to be called.
unfoldable pub aborted : List Write → List (Option ErrorCode × ℕ)
aborted [] = []
aborted (w ∷ ws) = (some operation_aborted, w.gone) ∷ aborted ws

unfoldable pub close_socket : Sender → Sender
unfolding aborted
close_socket s =
    if s.is_open
    then record s { is_open = false; writes = []; handlers = s.handlers ++ aborted s.writes }
    else s

-- What is left of a session's read: `failed` is the code with which handlerRead is still to be
-- called, if the read has ended with an error.
pub record Session : Type 0 where
  pub sender : Sender
  pub reader : Reader
  pub failed : Option ErrorCode

-- A session, or what others hold of it once its members are destroyed: the handlers that the
-- io_service is to call on its address, and a thread that is inside sendData.
pub data Life : Type 0 where
  alive freed : Session → Life

abbrev pub inner : Life → Session
inner (alive s) = s
inner (freed s) = s

-- What does not go through the session's address.
abbrev pub beside : Life → Session → Life
beside (alive _) s = alive s
beside (freed _) s = freed s

-- A read or a write of a member, after which the members are those of `s`.
unfoldable pub touch : Life → Session → Run Life
touch (alive _) s = done (alive s)
touch (freed _) s = crash use_after_free

-- CommonProcessor::~CommonProcessor joins the processing thread.
unfoldable pub join_thread : Destroyer → Session → Run Session
join_thread processing_thread s = crash self_join
join_thread io_thread s = done s
join_thread application_thread s = done s

-- Closing the socket ends the read that is under way.
unfoldable pub close_read : Reading → Option ErrorCode → Option ErrorCode
close_read (reads_exactly n) none = some operation_aborted
close_read _ failed = failed

unfoldable pub destroy : Destroyer → Session → Run Life
unfolding close_socket close_read join_thread
destroy d s =
    join_thread d
      (record s { sender = close_socket s.sender; failed = close_read s.reader.reading s.failed })
    >>= λ s'. done (freed s')

-- An event of sending or reading, a read that ends with an error, the call of handlerRead with the
-- error, and the destruction.
pub data LifeEvent : Type 0 where
  sends : SendEvent → LifeEvent
  reads : ReadEvent → LifeEvent
  read_fails : ErrorCode → LifeEvent
  read_reports : LifeEvent
  destroys : Destroyer → LifeEvent

-- What the socket does with a write is nothing of the session's; each step of sendData and of
-- handlerWrite locks a mutex or reads m_inSendMode.
unfoldable pub sender_moves : SendEvent → Life → Sender → Run Life
unfolding touch
sender_moves (transmits n) l s = done (beside l (record (inner l) { sender = s }))
sender_moves completes l s = done (beside l (record (inner l) { sender = s }))
sender_moves (fails code) l s = done (beside l (record (inner l) { sender = s }))
sender_moves e l s = touch l (record (inner l) { sender = s })

-- handlerRead with an error: the code is looked at first, then onSessionError_.
unfoldable pub report : Option ErrorCode → Life → Option (Run Life)
unfolding touch
report none l = none
report (some operation_aborted) l = some (
    done (
      beside l (record (inner l) {
        reader = record (inner l).reader { reading = stopped };
        failed = none;
      })))
report (some code) l = some (
    touch l (record (inner l) {
      reader = record (inner l).reader {
        reading = stopped;
        errors = (inner l).reader.errors ++ (code ∷ []);
      };
      failed = none;
    }))

-- handlerRead without an error begins with m_socket.available().
unfoldable pub read_handled : Option Reader → Life → Option (Run Life)
unfolding touch
read_handled none l = none
read_handled (some r) l = some (touch l (record (inner l) { reader = r }))

-- A read that is under way ends with an error.
unfoldable pub read_ends : ErrorCode → Reading → Option ErrorCode → Session → Option (Run Life)
read_ends code (reads_exactly n) none s = some (done (alive (record s { failed = some code })))
read_ends code _ _ s = none

-- The other events of reading, in a session whose read has not failed.
unfoldable pub reading_step : ReadEvent → Option ErrorCode → Session → Option (Run Life)
reading_step e (some code) s = none
reading_step (Read.fails code) none s = none
reading_step e none s = elim (read_step e s.reader) [
  | none ↦ none
  | some r ↦ some (done (alive (record s { reader = r })))
]

unfoldable pub sending_step : SendEvent → Life → Option Sender → Option (Run Life)
unfolding sender_moves
sending_step e l none = none
sending_step e l (some s) = some (sender_moves e l s)

module _ (consumes : Bool) (prepare : Bytes → Bytes) where
  -- none if the event cannot happen there. Nobody calls a function of a freed session any more.
  unfoldable pub life_step : LifeEvent → Life → Option (Run Life)
  unfolding destroy report read_handled read_ends reading_step sending_step
  life_step (sends (calls str)) (freed s) = none
  life_step (sends e) l = sending_step e l (send_step consumes prepare e (inner l).sender)
  life_step (reads Read.handles) l = read_handled (read_step Read.handles (inner l).reader) l
  life_step (reads e) (alive s) = reading_step e s.failed s
  life_step (reads e) (freed s) = none
  life_step (read_fails code) (alive s) = read_ends code s.reader.reading s.failed s
  life_step (read_fails code) (freed s) = none
  life_step read_reports l = report (inner l).failed l
  life_step (destroys d) (alive s) = some (destroy d s)
  life_step (destroys d) (freed s) = none

  -- The events one after the other, up to a fault; none if one of them cannot happen there.
  unfoldable pub life_run : List LifeEvent → Life → Option (Run Life)
  life_run [] l = some (done l)
  life_run (e ∷ es) l = go_on (life_step e l) (life_run es)
