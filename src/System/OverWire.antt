-- ===== src/System/OverWire.antt =====
-- What is sent at one end of a connection is processed at the other.
use emserver.Base.{
  ◌*◌, ◌≤◌, ◌≡◌, refl, sym, ap, ap₂, ◌∙◌, List, [], ◌∷◌, ◌++◌, map, Bool, some, Bytes, All, length,
  done,
}
use emserver.Protocol.{Checksum}
use emserver.Buffer.Stream.{IsClean}
use emserver.Common.Fifo.{StaysAlive}
use emserver.Common.Delivery.{common_message}
use emserver.Common.{
  CommonCodec, CommonProcessor, Event, thread, registers, init, wrap, prepare_data, run,
}
use emserver.Session.Send.{Sender, SendEvent, connected, send_run}
use emserver.Session.Send.Channel.{IsSteady}
use emserver.Session.Send.Progress.{IsQuiet, strings}
use emserver.Session.Read.{Reader, ReadEvent, opened, read_run}
use emserver.Session.Read.Fifo.{arrivals}
use emserver.Session.Read.Flush.{IsFlushed}
use emserver.Session.EndToEnd.{chunks_of, session_delivers}
use emserver.Emserver.Proto.{EmserverCodec}
use emserver.Emserver.{EmserverProcessor}
use emserver.Emserver.Dispatch.{in_mode}
use emserver.System.{receive_all}

module _ {S : Type 0} (messages : EmserverCodec) (p : EmserverProcessor S) where
  pub in_mode-common_message :
      (strs : List Bytes)
      → p.work_mode_code ≡ 1
      → map common_message strs ≡ map (in_mode messages p) strs
  unfolding common_message
  in_mode-common_message [] h = refl
  in_mode-common_message (str ∷ strs) h =
      ap₂ ◌∷◌ (ap (λ n. record { code = some n; payload = some str }) (sym h))
        (in_mode-common_message strs h)

  -- The strings that threads send at one end are processed at the other by the owner's processor,
  -- whose mode is 1, as if they had been put into its common messages there and then: each once,
  -- in the order in which the threads have got the mutex. The two sides, the network and the
  -- processor's thread run as for `session_delivers`.
  pub session_processes :
      (consumes : Bool) (c : Checksum) (codec : CommonCodec) (sent : List SendEvent) (s : Sender)
      (got : List ReadEvent) (r : Reader) (es : List Event) (timeouts : List Bool) (owner : S)
      → p.work_mode_code ≡ 1
      → All IsSteady sent
      → send_run consumes (prepare_data c codec) sent connected ≡ some s
      → IsQuiet s
      → read_run got opened ≡ some r
      → arrivals got ≡ s.wire
      → IsFlushed r
      → chunks_of es ≡ r.handed
      → StaysAlive es
      → All (IsClean c) (map (wrap codec) (strings sent))
      → 2 * length (strings sent) ≤ length timeouts
      → (q : CommonProcessor) × (run c codec (registers ∷ (es ++ map thread timeouts)) init
          ≡ done q)
        × (receive_all messages p q.delivered owner
            ≡ receive_all messages p (map (in_mode messages p) (strings sent)) owner)
  session_processes consumes c codec sent s got r es timeouts owner mode steady ran quiet read same
        flushed chunks alive clean enough =
      let (q, processed, all) =
        session_delivers consumes c codec sent s got r es timeouts steady ran quiet read same
          flushed chunks alive clean enough in
      (
        q,
        processed,
        ap (λ ms. receive_all messages p ms owner)
            (all ∙ in_mode-common_message (strings sent) mode),
      )
