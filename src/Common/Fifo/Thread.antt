-- ===== src/Common/Fifo/Thread.antt =====
-- Each step of the thread, and each run, keeps what is still to be handed on.
use emserver.Base.{
  ◌≡◌, refl, sym, ap, ap₂, ◌∙◌, subst, List, [], ◌∷◌, ◌++◌, append_assoc, Bool, ◌&&◌, Bytes, All,
  All-append_right, flatten, length, length-append, done, if_eq_true, if_eq_false, Bool-cases, inl,
  inr, arith,
}
use emserver.Protocol.{Checksum, BaseProtocol}
use emserver.Buffer.Append.{append_buffers-flatten}
use emserver.Buffer.Trace.{messages-Trace}
use emserver.Buffer.Stream.{stream, IsClean, split-Trace}
use emserver.Common.{
  CommonCodec, CommonProcessor, Event, reads, thread, registers, exits, unpack, take_chunks,
  thread_step, step, run, is_empty, on_readed_chunk, register_callback,
}
use emserver.Common.Fifo.{
  arrived, StaysAlive, flatten-is_empty, alive_tail, Receiving, reads-Receiving, settled_stream,
  deliver-Receiving, Steps, left_over,
}

module _ (c : Checksum) (codec : CommonCodec) where
  take_chunks-Receiving :
      (bs : List BaseProtocol) (more : Bytes) (s : CommonProcessor)
      (r : Receiving c codec bs more s)
      → s.pending ≡ []
      → Steps c codec bs more s r (take_chunks c s)
  unfolding take_chunks left_over
  take_chunks-Receiving bs more s r e =
      let d = s.processor.processing_buffer ++ flatten s.acceptor_buffer in
      let begins =
        append_assoc s.processor.processing_buffer (flatten s.acceptor_buffer) more ∙ r.bytes in
      let (ms, rest, left, t, kept, parts, end, _) = split-Trace c r.rest d more r.clean begins in
      let q = record s {
        acceptor_buffer = [];
        processor = record { processing_buffer = left };
        pending = ms;
      } in
      let cut = messages-Trace c (record { processing_buffer = d }) t in
      let clean = All-append_right (IsClean c) ms rest (subst (All (IsClean c)) parts r.clean) in
      (
        q,
        rw (r.registered, append_buffers-flatten s.processor s.acceptor_buffer, cut),
        record {
          finished = r.finished;
          rest = rest;
          registered = r.registered;
          running = r.running;
          frames =
              r.frames ∙ ap (λ p. r.finished ++ (p ++ r.rest)) e ∙ ap (λ p. r.finished ++ p) parts;
          handed = r.handed;
          bytes = end;
          clean = clean;
          settled = kept;
        },
        λ nothing.
            let settles =
              settled_stream c codec rest left clean kept
                (ap (λ m. left ++ m) (sym nothing) ∙ end) in
            omega (arith, settles, ap length parts, length-append ms rest, ap length e),
      )

  pub thread-Receiving :
      (bs : List BaseProtocol) (more : Bytes) (s : CommonProcessor) (timeout : Bool)
      (pending : List BaseProtocol) (r : Receiving c codec bs more s)
      → s.pending ≡ pending
      → Steps c codec bs more s r (thread_step c codec timeout s pending)
  unfolding thread_step left_over
  thread-Receiving bs more s timeout (b ∷ later) r e =
      deliver-Receiving c codec bs more s r b later (unpack codec b) e refl
  thread-Receiving bs more s timeout [] r e =
      let (q, took, r', less) = take_chunks-Receiving bs more s r e in
      elim (Bool-cases (is_empty s.acceptor_buffer && timeout)) [
        | inl wait ↦ (
          s,
          if_eq_false _ _ r.running ∙ if_eq_true _ _ wait,
          r,
          λ nothing.
              let chunks = flatten-is_empty s.acceptor_buffer timeout wait in
              let buffer : s.processor.processing_buffer ++ [] ≡ stream c r.rest =
                ap (λ t. s.processor.processing_buffer ++ t) (sym (ap₂ ◌++◌ chunks nothing))
                ∙ r.bytes in
              omega (
                arith,
                settled_stream c codec r.rest s.processor.processing_buffer r.clean r.settled
                    buffer,
                ap length e,
              ),
        )
        | inr go ↦ (q, if_eq_false _ _ r.running ∙ if_eq_false _ _ go ∙ took, r', less)
      ]

  step-Receiving :
      (bs : List BaseProtocol) (e : Event) (es : List Event) (more : Bytes) (s : CommonProcessor)
      → StaysAlive (e ∷ es)
      → Receiving c codec bs (arrived (e ∷ es) ++ more) s
      → (q : CommonProcessor) × (step c codec e s ≡ done q)
        × Receiving c codec bs (arrived es ++ more) q
  unfolding step register_callback
  step-Receiving bs (reads chunk) es more s alive r = (
    on_readed_chunk s chunk,
    refl,
    reads-Receiving c codec bs chunk (arrived es ++ more) s
        (subst (λ t. Receiving c codec bs t s) (append_assoc chunk (arrived es) more) r),
  )
  step-Receiving bs (thread timeout) es more s alive r =
      let (q, stepped, r', _) =
        thread-Receiving bs (arrived es ++ more) s timeout s.pending r refl in
      (q, stepped, r')
  step-Receiving bs registers es more s alive r = (
    register_callback s,
    refl,
    record {
      finished = r.finished;
      rest = r.rest;
      registered = refl;
      running = r.running;
      frames = r.frames;
      handed = r.handed;
      bytes = r.bytes;
      clean = r.clean;
      settled = r.settled;
    },
  )
  step-Receiving bs exits es more s alive r = absurd alive

  pub run-Receiving :
      (bs : List BaseProtocol) (es : List Event) (more : Bytes) (s : CommonProcessor)
      → StaysAlive es
      → Receiving c codec bs (arrived es ++ more) s
      → (q : CommonProcessor) × (run c codec es s ≡ done q) × Receiving c codec bs more q
  unfolding run
  run-Receiving bs [] more s alive r = (s, refl, r)
  run-Receiving bs (e ∷ es) more s alive r =
      let (p, stepped, r') = step-Receiving bs e es more s alive r in
      let (q, ran, r'') = run-Receiving bs es more p (alive_tail e es alive) r' in
      (q, rw stepped ran, r'')
