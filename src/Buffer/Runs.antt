-- ===== src/Buffer/Runs.antt =====
-- Concrete runs, and the theorems at concrete inputs.
use emserver.Base.{
  length, ◌<◌, ◌≡◌, refl, List, [], ◌∷◌, ◌++◌, Bytes, drop, arith, done, crash, out_of_bounds, le32,
  from_le32,
}
use emserver.Samples.{sum32, codes}
use emserver.Protocol.{BaseProtocol, extract_from_raw_data, full_size}
use emserver.Protocol.Frame.{frame, covered}
use emserver.Buffer.{BufferProcessor, messages, messages_loop, take_item, empty}
use emserver.Buffer.Carved.{Carved, messages-total}
use emserver.Buffer.Stream.{stream, messages-stream, messages-split, messages-bound}
use emserver.Buffer.Embedded.{messages_embedded}

abbrev hello : BaseProtocol
hello = record { payload = codes "hello" }

abbrev hello_frame : Bytes
hello_frame = 36 ∷ 5 ∷ 0 ∷ 0 ∷ 0 ∷ 104 ∷ 101 ∷ 108 ∷ 108 ∷ 111 ∷ 61 ∷ 2 ∷ 0 ∷ 0 ∷ []

hello_lem : frame sum32 hello ≡ hello_frame
unfolding frame covered sum32 le32
hello_lem = refl

abbrev wrong_chunk : Bytes
wrong_chunk = codes "$test$"

abbrev holding : Bytes → BufferProcessor
holding d = record { processing_buffer = d }

-- What stands before the message is dropped with it.
prefixed : messages sum32 (holding (wrong_chunk ++ hello_frame)) ≡ done (hello ∷ [], empty)
unfolding messages messages_loop take_item extract_from_raw_data full_size sum32 from_le32 empty
prefixed = refl

postfixed :
    messages sum32 (holding (hello_frame ++ wrong_chunk)) ≡ done (hello ∷ [], holding wrong_chunk)
unfolding messages messages_loop take_item extract_from_raw_data full_size sum32 from_le32
postfixed = refl

-- A size field of 2 ^ 32 - 9 makes the total size wrap to 0.
wrapping : messages sum32 (holding (36 ∷ 247 ∷ 255 ∷ 255 ∷ 255 ∷ 0 ∷ [])) ≡ crash out_of_bounds
unfolding messages messages_loop take_item extract_from_raw_data full_size sum32 from_le32
wrapping = refl

messages-total_example :
    (ms : List BaseProtocol) × (q : BufferProcessor) × (messages sum32 (holding hello_frame)
      ≡ done (ms, q))
    × Carved sum32 hello_frame ms q.processing_buffer
    × (messages sum32 q ≡ done ([], q))
unfolding from_le32
messages-total_example =
    messages-total sum32 (holding hello_frame) (omega arith) (omega arith) (omega arith)

abbrev bucks : BaseProtocol
bucks = record { payload = codes "he$$o" }

messages-stream_example :
    messages sum32 (holding (stream sum32 (hello ∷ bucks ∷ [])))
    ≡ done (hello ∷ bucks ∷ [], holding [])
messages-stream_example = messages-stream sum32 (hello ∷ bucks ∷ []) (omega arith)

messages-split_example :
    (ms rest : List BaseProtocol) × (q : BufferProcessor) × (messages sum32
        (holding (hello_frame ++ (36 ∷ [])))
      ≡ done (ms, q))
    × (hello ∷ hello ∷ [] ≡ ms ++ rest)
    × (q.processing_buffer ++ drop 1 hello_frame ≡ stream sum32 rest)
unfolding stream frame covered sum32 le32
messages-split_example =
    messages-split sum32 (hello ∷ hello ∷ []) (holding (hello_frame ++ (36 ∷ [])))
      (drop 1 hello_frame) (omega arith) refl

abbrev nested : BaseProtocol
nested = record { payload = 1 ∷ (hello_frame ++ (2 ∷ [])) }

messages_embedded_example :
    messages sum32 (holding (36 ∷ ((16 ∷ 0 ∷ 0 ∷ 0 ∷ 1 ∷ []) ++ frame sum32 hello)))
    ≡ done (hello ∷ [], holding [])
unfolding frame covered sum32 le32
messages_embedded_example =
    messages_embedded sum32 nested hello (16 ∷ 0 ∷ 0 ∷ 0 ∷ 1 ∷ []) (2 ∷ 179 ∷ 2 ∷ 0 ∷ 0 ∷ [])
      (omega arith) (omega arith) refl (omega arith) (omega arith)

messages-bound_example :
    (ms : List BaseProtocol) × (q : BufferProcessor) × (messages sum32
        (holding (hello_frame ++ (36 ∷ [])))
      ≡ done (ms, q))
    × (length q.processing_buffer < 14)
unfolding stream frame covered sum32 le32
messages-bound_example =
    messages-bound sum32 5 (hello ∷ hello ∷ []) (holding (hello_frame ++ (36 ∷ [])))
      (drop 1 hello_frame) (omega arith) (omega arith) refl
