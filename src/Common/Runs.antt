-- ===== src/Common/Runs.antt =====
-- Concrete runs, and the theorems at concrete inputs.
use emserver.Base.{
  ◌≡◌, refl, List, [], ◌∷◌, ◌++◌, Bytes, take, drop, arith, true, false, done, le32,
}
use emserver.Samples.{sum32, codes, plain_codec}
use emserver.Protocol.{BaseProtocol, make_protocol_message}
use emserver.Protocol.Frame.{frame, covered}
use emserver.Buffer.Stream.{stream}
use emserver.Common.Unpack.{unpack_all}
use emserver.Common.Delivery.{common_message, run-in_order, run_delivers}
use emserver.Common.{
  CommonProcessor, Event, reads, thread, registers, init, run, wrap, prepare_data,
}

-- The bytes of the prepared "hello".
abbrev sent : Bytes
sent = 36 ∷ 9 ∷ 0 ∷ 0 ∷ 0 ∷ 1 ∷ 1 ∷ 1 ∷ 1 ∷ (codes "hello" ++ (69 ∷ 2 ∷ 0 ∷ 0 ∷ []))

prepare_hello : prepare_data sum32 plain_codec (codes "hello") ≡ sent
unfolding prepare_data sum32 plain_codec make_protocol_message
prepare_hello = refl

-- The thread looks between the two chunks, and finds no message yet.
abbrev interleaved : List Event
interleaved = reads (take 7 sent) ∷ thread true ∷ reads (drop 7 sent) ∷ []

abbrev hello : BaseProtocol
hello = record { payload = 1 ∷ 1 ∷ 1 ∷ 1 ∷ codes "hello" }

run-in_order_example :
    (q : CommonProcessor) × (finished later : List BaseProtocol) × (run sum32 plain_codec
        (registers ∷ reads (take 7 sent) ∷ thread true ∷ [])
        init
      ≡ done q)
    × (hello ∷ [] ≡ finished ++ later)
    × (q.delivered ≡ unpack_all plain_codec finished)
unfolding stream frame covered sum32 le32
run-in_order_example =
    run-in_order sum32 plain_codec (hello ∷ []) (reads (take 7 sent) ∷ thread true ∷ [])
      (drop 7 sent) (omega arith) tt refl

run_delivers_example :
    (q : CommonProcessor) × (run sum32 plain_codec
        (registers ∷ (interleaved ++ (thread true ∷ thread false ∷ [])))
        init
      ≡ done q)
    × (q.delivered ≡ common_message (codes "hello") ∷ [])
unfolding wrap plain_codec frame covered sum32 le32
run_delivers_example =
    run_delivers sum32 plain_codec (codes "hello" ∷ []) interleaved (true ∷ false ∷ [])
      (omega arith) tt (rw prepare_hello) (omega arith)
