-- ===== src/Common/Fifo.antt =====
-- Whatever the order of the network's calls and the thread's steps, the callback gets the messages
-- that were sent, in their order.
pub mod Thread
use emserver.Base.{
  ℕ, ◌≡◌, refl, sym, ap, ap₂, ◌∙◌, subst, List, [], ◌∷◌, ◌++◌, append-nil, append_assoc, Option,
  none, some, Bool, true, false, ◌&&◌, Bytes, All, All-append_right, flatten, flatten-append_one,
  length, length-append, ◌+◌, ◌-◌, ◌*◌, ◌≤◌, Run, done, if_eq_true, if_eq_false, Bool-cases, inl,
  inr, arith,
}
use emserver.Protocol.{Checksum, BaseProtocol}
use emserver.Buffer.{messages}
use emserver.Buffer.Append.{append_buffers-flatten}
use emserver.Buffer.Trace.{Trace, messages-Trace}
use emserver.Buffer.Stream.{stream, IsClean, All-IsFrameable, messages-stream, split-Trace}
use emserver.Common.Unpack.{handed_over, unpack_all, unpack_all-append}
use emserver.Common.{
  CommonMessage, CommonCodec, CommonProcessor, Event, reads, thread, registers, exits, unpack,
  deliver, take_chunks, thread_step, step, run, is_empty, on_readed_chunk, register_callback,
}

-- The bytes that the events bring.
abbrev pub arrived : List Event → Bytes
arrived [] = []
arrived (reads chunk ∷ es) = chunk ++ arrived es
arrived (e ∷ es) = arrived es

-- The processor is not destroyed.
abbrev pub StaysAlive : List Event → Type 0
StaysAlive [] = Unit {0}
StaysAlive (exits ∷ es) = ⊥
StaysAlive (e ∷ es) = StaysAlive es

pub flatten-is_empty : (xss : List Bytes) (b : Bool) → (is_empty xss && b) ≡ true → flatten xss ≡ []
flatten-is_empty [] b h = refl
flatten-is_empty (xs ∷ xss) b h = absurd (cc h)

pub alive_tail : (e : Event) (es : List Event) → StaysAlive (e ∷ es) → StaysAlive es
alive_tail (reads chunk) es h = h
alive_tail (thread timeout) es h = h
alive_tail registers es h = h
alive_tail exits es h = absurd h

module _ (c : Checksum) (codec : CommonCodec) where
  -- The frames `bs` are being received, and `more` is what has yet to arrive: `finished` have been
  -- handed to the callback, and `rest` are not yet cut out of the bytes.
  pub record Receiving (bs : List BaseProtocol) (more : Bytes) (s : CommonProcessor) : Type 0 where
    pub finished : List BaseProtocol
    pub rest : List BaseProtocol
    pub registered : s.callback_registered ≡ true
    pub running : s.need_exit ≡ false
    pub frames : bs ≡ finished ++ (s.pending ++ rest)
    pub handed : s.delivered ≡ unpack_all codec finished
    pub bytes : s.processor.processing_buffer ++ (flatten s.acceptor_buffer ++ more) ≡ stream c rest
    pub clean : All (IsClean c) rest
    pub settled : Trace c [] s.processor.processing_buffer [] s.processor.processing_buffer

  pub reads-Receiving :
      (bs : List BaseProtocol) (chunk more : Bytes) (s : CommonProcessor)
      → Receiving bs (chunk ++ more) s
      → Receiving bs more (on_readed_chunk s chunk)
  unfolding on_readed_chunk
  reads-Receiving bs chunk more s r = record {
    finished = r.finished;
    rest = r.rest;
    registered = r.registered;
    running = r.running;
    frames = r.frames;
    handed = r.handed;
    bytes =
        ap (λ t. s.processor.processing_buffer ++ t)
          (ap (λ t. t ++ more) (flatten-append_one s.acceptor_buffer chunk)
            ∙ append_assoc (flatten s.acceptor_buffer) chunk more)
        ∙ r.bytes;
    clean = r.clean;
    settled = r.settled;
  }

  one_more :
      (bs finished later rest pending : List BaseProtocol) (b : BaseProtocol)
      → bs ≡ finished ++ (pending ++ rest)
      → pending ≡ b ∷ later
      → bs ≡ (finished ++ (b ∷ [])) ++ (later ++ rest)
  one_more bs finished later rest pending b e p =
      e ∙ ap (λ t. finished ++ (t ++ rest)) p ∙ sym (append_assoc finished (b ∷ []) (later ++ rest))

  unpack_all-one_more :
      (finished : List BaseProtocol) (b : BaseProtocol) (o : Option CommonMessage)
      → unpack codec b ≡ o
      → unpack_all codec (finished ++ (b ∷ []))
        ≡ unpack_all codec finished ++ handed_over codec o []
  unfolding unpack_all
  unpack_all-one_more finished b o e =
      unpack_all-append codec finished (b ∷ [])
      ∙ ap (λ x. unpack_all codec finished ++ handed_over codec x []) e

  -- What keeps the receiver from having delivered all, once nothing more is to arrive.
  unfoldable pub left_over :
      {bs : List BaseProtocol} {more : Bytes} {s : CommonProcessor} → Receiving bs more s → ℕ
  left_over {s = s} r = length s.pending + 2 * length r.rest

  -- A buffer from which nothing is cut, and which is a stream of frames, is empty.
  pub settled_stream :
      (rest : List BaseProtocol) (left : Bytes)
      → All (IsClean c) rest
      → Trace c [] left [] left
      → left ++ [] ≡ stream c rest
      → length rest ≡ 0
  settled_stream rest left clean kept e =
      let buffer : left ≡ stream c rest = sym (append-nil left) ∙ e in
      let none_left = messages-Trace c (record { processing_buffer = left }) kept in
      let all_cut = messages-stream c rest (All-IsFrameable c rest clean) in
      let same : done ([], record { processing_buffer = left })
          ≡ done (rest, record { processing_buffer = [] }) =
        sym none_left ∙ ap (λ d. messages c (record { processing_buffer = d })) buffer ∙ all_cut in
      ground (arith, same)

  -- Of the result of a step of the thread, that it brings the receiver on.
  abbrev pub Steps :
      (bs : List BaseProtocol) (more : Bytes) (s : CommonProcessor)
      → Receiving bs more s
      → Run CommonProcessor
      → Type 0
  Steps bs more s r result =
      (q : CommonProcessor) × (result ≡ done q)
      × (r' : Receiving bs more q) × (more ≡ [] → left_over r' ≤ left_over r - 1)

  -- One message is handed to the callback, or passed over.
  pub deliver-Receiving :
      (bs : List BaseProtocol) (more : Bytes) (s : CommonProcessor) (r : Receiving bs more s)
      (b : BaseProtocol) (later : List BaseProtocol) (o : Option CommonMessage)
      → s.pending ≡ b ∷ later
      → unpack codec b ≡ o
      → Steps bs more s r (done (deliver s later o))
  unfolding deliver handed_over left_over
  deliver-Receiving bs more s r b later none e u = (
    record s { pending = later },
    refl,
    record {
      finished = r.finished ++ (b ∷ []);
      rest = r.rest;
      registered = r.registered;
      running = r.running;
      frames = one_more bs r.finished later r.rest s.pending b r.frames e;
      handed =
          r.handed
          ∙ sym (append-nil (unpack_all codec r.finished))
          ∙ sym (unpack_all-one_more r.finished b none u);
      bytes = r.bytes;
      clean = r.clean;
      settled = r.settled;
    },
    λ _. omega (arith, ap length e),
  )
  deliver-Receiving bs more s r b later (some m) e u = (
    record s { pending = later; delivered = s.delivered ++ (m ∷ []) },
    ap done (if_eq_false _ _ r.running),
    record {
      finished = r.finished ++ (b ∷ []);
      rest = r.rest;
      registered = r.registered;
      running = r.running;
      frames = one_more bs r.finished later r.rest s.pending b r.frames e;
      handed = ap (λ t. t ++ (m ∷ [])) r.handed ∙ sym (unpack_all-one_more r.finished b (some m) u);
      bytes = r.bytes;
      clean = r.clean;
      settled = r.settled;
    },
    λ _. omega (arith, ap length e),
  )
