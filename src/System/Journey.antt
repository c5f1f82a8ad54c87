-- ===== src/System/Journey.antt =====
-- One direction of a connection, from what is given to sendData to what the other end is given.
use emserver.Base.{◌*◌, ◌≤◌, ◌≡◌, List, ◌∷◌, ◌++◌, map, Bool, some, All, length, done}
use emserver.Protocol.{Checksum}
use emserver.Buffer.Stream.{IsClean}
use emserver.Common.Fifo.{StaysAlive}
use emserver.Common.{
  CommonCodec, CommonProcessor, Event, thread, registers, init, wrap, prepare_data, run,
}
use emserver.Session.Send.{Sender, SendEvent, connected, send_run}
use emserver.Session.Send.Channel.{IsSteady}
use emserver.Session.Send.Progress.{IsQuiet, strings}
use emserver.Session.Read.{Reader, ReadEvent, opened, read_run}
use emserver.Session.Read.Fifo.{arrivals}
use emserver.Session.Read.Flush.{IsFlushed}
use emserver.Session.EndToEnd.{chunks_of, session_delivers}
use emserver.System.Carrier.{Carrier}

-- What happens at the sending end, at the reading end, and to the reading end's processor, whose
-- thread makes steps of its own at the end.
pub record Journey : Type 0 where
  pub sent : List SendEvent
  pub sender : Sender
  pub got : List ReadEvent
  pub reader : Reader
  pub events : List Event
  pub timeouts : List Bool

module _ (consumes : Bool) (c : Checksum) (codec : CommonCodec) where
  -- The three go as the code does, from a new session on, the bytes on the wire are the ones that
  -- arrive, and all are at rest in the end; no write fails, no wait ends for no reason, the frames
  -- are clean, the processor is not destroyed, and its thread makes two more steps for each string.
  pub record Arrives (j : Journey) : Type 0 where
    pub steady : All IsSteady j.sent
    pub sends : send_run consumes (prepare_data c codec) j.sent connected ≡ some j.sender
    pub quiet : IsQuiet j.sender
    pub reads : read_run j.got opened ≡ some j.reader
    pub same : arrivals j.got ≡ j.sender.wire
    pub flushed : IsFlushed j.reader
    pub chunks : chunks_of j.events ≡ j.reader.handed
    pub alive : StaysAlive j.events
    pub clean : All (IsClean c) (map (wrap codec) (strings j.sent))
    pub enough : 2 * length (strings j.sent) ≤ length j.timeouts

  abbrev pub processor_events : Journey → List Event
  processor_events j = registers ∷ (j.events ++ map thread j.timeouts)

  -- The sessions of a connection's two ends carry what is given to sendData.
  abbrev pub over_sessions : Carrier
  over_sessions = record {
    Trip = (j : Journey) × Arrives j;
    given = λ t. strings t.0.sent;
    Gets = λ t ms.
        (q : CommonProcessor) × (run c codec (processor_events t.0) init ≡ done q)
        × (q.delivered ≡ ms);
    carries = λ t.
        let j = t.0 in
        let a = t.1 in
        session_delivers consumes c codec j.sent j.sender j.got j.reader j.events j.timeouts
          a.steady a.sends a.quiet a.reads a.same a.flushed a.chunks a.alive a.clean a.enough;
  }
