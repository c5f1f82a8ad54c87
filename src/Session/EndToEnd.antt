-- ===== src/Session/EndToEnd.antt =====
-- From sendData at one end of a connection to the callback at the other.
use emserver.Base.{
  ◌*◌, ◌≤◌, ◌≡◌, refl, ap, ◌∙◌, List, [], ◌∷◌, ◌++◌, map, Bool, some, Bytes, All, flatten, length,
  done,
}
use emserver.Protocol.{Checksum}
use emserver.Buffer.Stream.{IsClean}
use emserver.Common.Fifo.{arrived, StaysAlive}
use emserver.Common.Delivery.{common_message, run_delivers}
use emserver.Common.{
  CommonCodec, CommonProcessor, Event, reads, thread, registers, exits, init, wrap, prepare_data,
  run,
}
use emserver.Session.Send.{Sender, SendEvent, connected, send_run}
use emserver.Session.Send.Channel.{IsSteady}
use emserver.Session.Send.Progress.{IsQuiet, strings, quiet_wire}
use emserver.Session.Read.{Reader, ReadEvent, opened, read_run}
use emserver.Session.Read.Fifo.{arrivals}
use emserver.Session.Read.Flush.{IsFlushed, flushed_arrivals}

-- The chunks that a processor is given.
abbrev pub chunks_of : List Event → List Bytes
chunks_of [] = []
chunks_of (reads chunk ∷ es) = chunk ∷ chunks_of es
chunks_of (_ ∷ es) = chunks_of es

arrived-chunks_of : (es : List Event) → arrived es ≡ flatten (chunks_of es)
arrived-chunks_of [] = refl
arrived-chunks_of (reads chunk ∷ es) = ap (λ t. chunk ++ t) (arrived-chunks_of es)
arrived-chunks_of (thread timeout ∷ es) = arrived-chunks_of es
arrived-chunks_of (registers ∷ es) = arrived-chunks_of es
arrived-chunks_of (exits ∷ es) = arrived-chunks_of es

module _ (consumes : Bool) (c : Checksum) (codec : CommonCodec) where
  -- Threads call sendData at one end, in any interleaving with the socket and its handlers, and
  -- come to rest; the bytes on the wire arrive at the other end in any pieces, and its reads
  -- complete in any pieces, until it has handed on all of them; its processor gets these chunks
  -- between any steps of its thread, which then makes two more steps for each string. Then its
  -- callback has got the common messages of the strings, each once, in the order in which the
  -- threads have got the mutex. No write fails, no wait ends for no reason, the frames are clean,
  -- and the processor is not destroyed.
  pub session_delivers :
      (sent : List SendEvent) (s : Sender) (got : List ReadEvent) (r : Reader) (es : List Event)
      (timeouts : List Bool)
      → All IsSteady sent
      → send_run consumes (prepare_data c codec) sent connected ≡ some s
      → IsQuiet s
      → read_run got opened ≡ some r
      → arrivals got ≡ s.wire
      → IsFlushed r
      → chunks_of es ≡ r.handed
      → StaysAlive es
      → All (IsClean c) (map (wrap codec) (strings sent))
      → 2 * length (strings sent) ≤ length timeouts
      → (q : CommonProcessor) × (run c codec (registers ∷ (es ++ map thread timeouts)) init
          ≡ done q)
        × (q.delivered ≡ map common_message (strings sent))
  session_delivers sent s got r es timeouts steady ran quiet read same flushed chunks alive clean
        enough =
      run_delivers c codec (strings sent) es timeouts clean alive
        (arrived-chunks_of es
          ∙ ap flatten chunks
          ∙ flushed_arrivals got r read flushed
          ∙ same
          ∙ quiet_wire consumes (prepare_data c codec) sent s steady ran quiet)
        enough
