-- ===== src/Common/Delivery.antt =====
-- From `prepare_data` on one side to the callback on the other.
use emserver.Base.{
  ◌*◌, ◌≤◌, ◌≡◌, refl, sym, ap, ap₂, ◌∙◌, List, [], ◌∷◌, ◌++◌, map, append-nil, some, Bool, Bytes,
  All, flatten, length, length-append, length-map, eq_nil_of_length, done, done-injective,
  >>=-eq-done, arith,
}
use emserver.Protocol.{Checksum, BaseProtocol}
use emserver.Protocol.Frame.{make_protocol_message-frame}
use emserver.Buffer.{BufferProcessor}
use emserver.Buffer
use emserver.Buffer.Trace.{finish}
use emserver.Buffer.Stream.{stream, IsClean}
use emserver.Common.Unpack.{unpack_all, handed_over}
use emserver.Common.Fifo.{Receiving, left_over, arrived, StaysAlive}
use emserver.Common.Fifo.Thread.{run-Receiving, thread-Receiving}
use emserver.Common.{
  CommonMessage, TransportContainer, CommonCodec, CommonProcessor, Event, thread, registers, init,
  register_callback, wrap, unpack, prepare_data, step, run,
}

module _ (c : Checksum) (codec : CommonCodec) where
  listening : CommonProcessor
  listening = register_callback init

  start-Receiving :
      (bs : List BaseProtocol) (more : Bytes)
      → All (IsClean c) bs
      → more ≡ stream c bs
      → Receiving c codec bs more (register_callback init)
  unfolding init register_callback
  start-Receiving bs more h e = record {
    finished = [];
    rest = bs;
    registered = refl;
    running = refl;
    frames = refl;
    handed = unfold unpack_all in refl;
    bytes = unfold Buffer.empty in e;
    clean = h;
    settled = unfold Buffer.empty in finish;
  }

  run_registers :
      (es : List Event)
      → run c codec (registers ∷ es) init ≡ run c codec es (register_callback init)
  unfolding run step
  run_registers es = refl

  -- While the bytes of clean frames are arriving, in chunks of any sizes and between any steps of
  -- the thread, the processor neither faults nor stalls, and what the callback has got are the
  -- messages of the first of those frames, in their order, none of them twice and none left out.
  pub run-in_order :
      (bs : List BaseProtocol) (es : List Event) (more : Bytes)
      → All (IsClean c) bs
      → StaysAlive es
      → arrived es ++ more ≡ stream c bs
      → (q : CommonProcessor) × (finished later : List BaseProtocol) × (run c codec
            (registers ∷ es)
            init
          ≡ done q)
        × (bs ≡ finished ++ later)
        × (q.delivered ≡ unpack_all codec finished)
  run-in_order bs es more h alive e =
      let (q, ran, r) =
        run-Receiving c codec bs es more (register_callback init) alive
          (start-Receiving bs (arrived es ++ more) h e) in
      (q, r.finished, q.pending ++ r.rest, run_registers es ∙ ran, r.frames, r.handed)

  run-append :
      (es fs : List Event) (s q : CommonProcessor)
      → run c codec es s ≡ done q
      → run c codec (es ++ fs) s ≡ run c codec fs q
  unfolding run
  run-append [] fs s q e = ap (run c codec fs) (done-injective e)
  run-append (x ∷ es) fs s q e =
      let (p, stepped, ran) = >>=-eq-done (step c codec x s) (run c codec es) e in
      rw stepped (run-append es fs p q ran)

  -- The steps of the thread alone, each with its timeout or without.
  drain :
      (bs : List BaseProtocol) (timeouts : List Bool) (s : CommonProcessor)
      (r : Receiving c codec bs [] s)
      → left_over c codec r ≤ length timeouts
      → (q : CommonProcessor) × (run c codec (map thread timeouts) s ≡ done q)
        × (q.delivered ≡ unpack_all codec bs)
  unfolding run step left_over
  drain bs [] s r h =
      let none_pending = eq_nil_of_length s.pending (omega arith) in
      let none_left = eq_nil_of_length r.rest (omega arith) in
      let all : bs ≡ r.finished =
        r.frames
        ∙ ap (λ t. r.finished ++ t) (ap₂ ◌++◌ none_pending none_left)
        ∙ append-nil r.finished in
      (s, refl, r.handed ∙ ap (unpack_all codec) (sym all))
  drain bs (t ∷ ts) s r h =
      let (p, stepped, r', less) = thread-Receiving c codec bs [] s t s.pending r refl in
      let (q, ran, all) = drain bs ts p r' (omega (arith, less refl)) in (q, rw stepped ran, all)

-- The message that the peer's callback is to get for a string that was sent.
unfoldable pub common_message : Bytes → CommonMessage
common_message s = record { code = some 1; payload = some s }

module _ (codec : CommonCodec) where
  unpack-wrap : (s : Bytes) → unpack codec (wrap codec s) ≡ some (common_message s)
  unfolding unpack wrap common_message
  unpack-wrap s =
      let msg : CommonMessage = record { code = some 1; payload = some s } in
      let tr_msg : TransportContainer = record {
        contaiter_version = some 1;
        payload = some (codec.serialize_common msg);
      } in
      rw (codec.parse_container-serialize tr_msg refl, codec.parse_common-serialize msg refl)

  unpack_all-wrap :
      (ss : List Bytes) → unpack_all codec (map (wrap codec) ss) ≡ map common_message ss
  unfolding unpack_all handed_over
  unpack_all-wrap [] = refl
  unpack_all-wrap (s ∷ ss) = rw unpack-wrap (ap (◌∷◌ (common_message s)) (unpack_all-wrap ss))

module _ (c : Checksum) (codec : CommonCodec) where
  stream-prepare_data :
      (ss : List Bytes)
      → All (IsClean c) (map (wrap codec) ss)
      → flatten (map (prepare_data c codec) ss) ≡ stream c (map (wrap codec) ss)
  unfolding stream prepare_data
  stream-prepare_data [] h = refl
  stream-prepare_data (s ∷ ss) h =
      ap₂ ◌++◌ (make_protocol_message-frame c (wrap codec s) (omega arith))
        (stream-prepare_data ss h.1)

  -- When all the bytes of the prepared strings have arrived, in chunks of any sizes and between any
  -- steps of the thread, two more steps of the thread for each string, whether its waits time out
  -- or not, bring the callback the common messages of exactly these strings, in their order. The
  -- frames are clean, and the processor is not destroyed.
  pub run_delivers :
      (ss : List Bytes) (es : List Event) (timeouts : List Bool)
      → All (IsClean c) (map (wrap codec) ss)
      → StaysAlive es
      → arrived es ≡ flatten (map (prepare_data c codec) ss)
      → 2 * length ss ≤ length timeouts
      → (q : CommonProcessor) × (run c codec (registers ∷ (es ++ map thread timeouts)) init
          ≡ done q)
        × (q.delivered ≡ map common_message ss)
  unfolding left_over
  run_delivers ss es timeouts h alive e enough =
      let bs = map (wrap codec) ss in
      let start =
        start-Receiving c codec bs (arrived es ++ []) h
          (append-nil (arrived es) ∙ e ∙ stream-prepare_data ss h) in
      let (p, ran, r) = run-Receiving c codec bs es [] (register_callback init) alive start in
      let (q, drained, all) = drain c codec bs timeouts p r (
        omega (
          arith,
          ap length r.frames,
          length-append r.finished (p.pending ++ r.rest),
          length-append p.pending r.rest,
          length-map ss (wrap codec),
        )) in
      (
        q,
        run_registers c codec (es ++ map thread timeouts)
            ∙ run-append c codec es (map thread timeouts) _ p ran
            ∙ drained,
        all ∙ unpack_all-wrap codec ss,
      )
