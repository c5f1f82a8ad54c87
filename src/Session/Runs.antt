-- ===== src/Session/Runs.antt =====
-- Two threads send on one connection, and the bytes are read in pieces at the other end.
use emserver.Base.{
  ◌≡◌, refl, List, [], ◌∷◌, ◌++◌, flatten, Bytes, take, drop, arith, true, false, some, done, le32,
  All,
}
use emserver.Samples.{sum32, codes, plain_codec}
use emserver.Protocol.{make_protocol_message}
use emserver.Protocol.Frame.{frame, covered}
use emserver.Common.{CommonProcessor, reads, thread, registers, init, run, wrap, prepare_data}
use emserver.Common.Delivery.{common_message}
use emserver.Session.Send.{
  Sender, SendEvent, calls, goes, times_out, wakes, transmits, completes, handles, connected,
  send_step, send_run,
}
use emserver.Session.Send
use emserver.Session.Send.Channel.Refines.{send_refines}
use emserver.Session.Send.Channel.{IsSending, channel, channel_run, connected-IsSending}
use emserver.Session.Send.Progress.{IsOwn, IsQuiet}
use emserver.Session.Send.Progress.Finishes.{send_finishes}
use emserver.Session.Read.{
  Reader, ReadEvent, opened, reads_exactly, read_step, read_run, waits, arrives, transfers,
}
use emserver.Session.Read
use emserver.Session.Read.Fifo.{IsSettled, all_bytes, read_in_order, opened-IsSettled}
use emserver.Session.Read.Flush.{IsFlushed, read_flushes}
use emserver.Session.Read.Flush
use emserver.Session.EndToEnd.{session_delivers}
use emserver.Base.{crash, inr}
use emserver.Session.Lifetime.{io_thread, Session, alive, LifeEvent, destroys, life_run}
use emserver.Base.{use_after_free, none}
use emserver.Session.Lifetime.Safety.{busy_destroyed}

-- A string travels as it is.
abbrev as_it_is : Bytes → Bytes
as_it_is str = str

-- The second thread finds a write under way, and waits; the notification wakes it.
abbrev two_threads : List SendEvent
two_threads =
    calls (1 ∷ 2 ∷ [])
    ∷ goes
    ∷ calls (3 ∷ [])
    ∷ goes
    ∷ goes
    ∷ transmits 1
    ∷ transmits 1
    ∷ completes
    ∷ handles
    ∷ goes
    ∷ transmits 1
    ∷ completes
    ∷ handles
    ∷ []

abbrev rested : Bytes → Sender
rested wire = record connected_ { wire = wire }
  where
    connected_ : Sender
    connected_ = record {
      is_open = true;
      stream_send = [];
      in_send_mode = false;
      writes = [];
      handlers = [];
      holder = Send.free;
      wire = [];
      errors = [];
    }

run_two_threads : send_run true as_it_is two_threads connected ≡ some (rested (1 ∷ 2 ∷ 3 ∷ []))
unfolding send_run send_step connected
run_two_threads = refl

send_refines_example :
    IsSending (rested (1 ∷ 2 ∷ 3 ∷ []))
    × (channel (rested (1 ∷ 2 ∷ 3 ∷ [])) ≡ channel_run as_it_is two_threads (channel connected))
send_refines_example =
    send_refines true as_it_is two_threads connected (rested (1 ∷ 2 ∷ 3 ∷ [])) (omega arith)
      connected-IsSending run_two_threads

-- The first write ends before the second thread waits for it: the notification is lost.
abbrev lost_notification : List SendEvent
lost_notification =
    calls (1 ∷ []) ∷ goes ∷ calls (2 ∷ []) ∷ goes ∷ transmits 1 ∷ completes ∷ handles ∷ []

abbrev about_to_wait : Sender
about_to_wait = record (rested (1 ∷ [])) { holder = Send.entering (2 ∷ []) }

run_lost_notification : send_run true as_it_is lost_notification connected ≡ some about_to_wait
unfolding send_run send_step connected
run_lost_notification = refl

send_finishes_example :
    (fs : List SendEvent) × (s' : Sender) × All IsOwn fs
    × (send_run true as_it_is fs about_to_wait ≡ some s')
    × IsQuiet s'
    × (s'.wire ≡ 1 ∷ 2 ∷ [])
send_finishes_example =
    send_finishes true as_it_is lost_notification about_to_wait (omega arith) run_lost_notification

-- Three bytes arrive, and a fourth while the session reads the others.
abbrev in_pieces : List ReadEvent
in_pieces =
    waits ∷ arrives (1 ∷ 2 ∷ 3 ∷ []) ∷ transfers ∷ Read.handles ∷ arrives (4 ∷ []) ∷ transfers ∷ []

abbrev half_read : Reader
half_read = record {
  arrived = 4 ∷ [];
  buffer = 1 ∷ 2 ∷ 3 ∷ [];
  reading = Read.completed;
  handed = [];
  errors = [];
}

run_in_pieces : read_run in_pieces opened ≡ some half_read
unfolding read_run read_step opened
run_in_pieces = refl

read_in_order_example :
    IsSettled half_read × (all_bytes half_read ≡ all_bytes opened ++ (1 ∷ 2 ∷ 3 ∷ 4 ∷ []))
read_in_order_example = read_in_order in_pieces opened half_read opened-IsSettled run_in_pieces

read_flushes_example :
    (fs : List ReadEvent) × (r' : Reader) × All Flush.IsOwn fs
    × (read_run fs half_read ≡ some r')
    × IsFlushed r'
    × (flatten r'.handed ≡ 1 ∷ 2 ∷ 3 ∷ 4 ∷ [])
read_flushes_example = read_flushes in_pieces half_read run_in_pieces (λ e. cc e)

-- The bytes of the prepared "hello".
abbrev hello : Bytes
hello = 36 ∷ 9 ∷ 0 ∷ 0 ∷ 0 ∷ 1 ∷ 1 ∷ 1 ∷ 1 ∷ (codes "hello" ++ (69 ∷ 2 ∷ 0 ∷ 0 ∷ []))

prepare_hello : prepare_data sum32 plain_codec (codes "hello") ≡ hello
unfolding prepare_data sum32 plain_codec make_protocol_message
prepare_hello = refl

abbrev sends_hello : List SendEvent
sends_hello = calls (codes "hello") ∷ goes ∷ transmits 18 ∷ completes ∷ handles ∷ []

run_sends_hello :
    send_run true (prepare_data sum32 plain_codec) sends_hello connected ≡ some (rested hello)
unfolding send_run send_step connected
run_sends_hello = rw (prepare_hello, send_run)

abbrev reads_hello : List ReadEvent
reads_hello =
    waits
    ∷ arrives (take 7 hello)
    ∷ transfers
    ∷ Read.handles
    ∷ transfers
    ∷ Read.handles
    ∷ arrives (drop 7 hello)
    ∷ transfers
    ∷ Read.handles
    ∷ transfers
    ∷ Read.handles
    ∷ []

abbrev has_read : Reader
has_read = record {
  arrived = [];
  buffer = [];
  reading = reads_exactly 1;
  handed = take 7 hello ∷ drop 7 hello ∷ [];
  errors = [];
}

run_reads_hello : read_run reads_hello opened ≡ some has_read
unfolding read_run read_step opened
run_reads_hello = refl

session_delivers_example :
    (q : CommonProcessor) × (run sum32 plain_codec
        (registers
          ∷ reads (take 7 hello)
          ∷ thread true
          ∷ reads (drop 7 hello)
          ∷ thread true
          ∷ thread false
          ∷ [])
        init
      ≡ done q)
    × (q.delivered ≡ common_message (codes "hello") ∷ [])
unfolding wrap plain_codec frame covered sum32 le32
session_delivers_example =
    session_delivers true sum32 plain_codec sends_hello (rested hello) reads_hello has_read
      (reads (take 7 hello) ∷ thread true ∷ reads (drop 7 hello) ∷ []) (true ∷ false ∷ [])
      (omega arith) run_sends_hello (refl, refl, refl) run_reads_hello refl (refl, refl, refl) refl
      tt (omega arith) (omega arith)

-- The session of the two threads may be closed, but not while the second one is about to wait.
-- A session that waits for bytes, with what it has to send.
abbrev with_sender : Sender → Session
with_sender sender = record {
  sender = sender;
  reader = record {
    arrived = [];
    buffer = [];
    reading = reads_exactly 1;
    handed = [];
    errors = [];
  };
  failed = none;
}

busy_destroyed_example :
    (es : List LifeEvent) × (life_run true as_it_is
        (destroys io_thread ∷ es)
        (alive (with_sender about_to_wait))
      ≡ some (crash use_after_free))
busy_destroyed_example =
    busy_destroyed true as_it_is lost_notification (with_sender about_to_wait) io_thread
      (omega arith) run_lost_notification (inr λ q. cc (q.0.0))
