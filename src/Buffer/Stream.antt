-- ===== src/Buffer/Stream.antt =====
-- `messages` on a stream of frames, however TCP has cut it.
use emserver.Base.{
  ℕ, zero, suc, ◌<◌, ◌≡◌, ◌≢◌, refl, sym, ap, subst, List, [], ◌∷◌, ◌++◌, append-nil, append_assoc,
  Bytes, All, length, length-take, take, drop, arith, done, append_cut_before, append_cut_after,
  dec_lt, ◌+◌, ◌≤◌, All-append_right,
}
use emserver.Protocol.{Checksum, BaseProtocol, magic, need_more_data}
use emserver.Protocol.Frame.{IsFrameable, frame, covered, length-frame}
use emserver.Protocol.RoundTrip.{extract-take-frame}
use emserver.Buffer.{BufferProcessor, messages}
use emserver.Buffer.Trace.{Trace, finish, skip, miss, hit, Silent, messages-Trace}

All-take {κ} : {A : Type 0} (P : A → Type κ) (n : ℕ) (d : List A) → All P d → All P (take n d)
All-take P zero d h = tt
All-take P (suc n) [] h = tt
All-take P (suc n) (x ∷ d) h = (h.0, All-take P n d h.1)

module _ (c : Checksum) where
  -- The bytes of frames sent one after the other.
  unfoldable pub stream : List BaseProtocol → Bytes
  stream [] = []
  stream (b ∷ bs) = frame c b ++ stream bs

  -- No magic byte stands in the frame behind its first byte.
  abbrev pub IsClean : BaseProtocol → Type 0
  IsClean b = IsFrameable b × All (λ x. x ≢ magic) (drop 1 (frame c b))

  pub All-IsFrameable : (bs : List BaseProtocol) → All IsClean bs → All IsFrameable bs
  All-IsFrameable [] h = tt
  All-IsFrameable (b ∷ bs) h = (h.0.0, All-IsFrameable bs h.1)

  pub stream-Trace : (bs : List BaseProtocol) → All IsFrameable bs → Trace c [] (stream bs) bs []
  unfolding stream
  stream-Trace [] h = finish
  stream-Trace (b ∷ bs) h = hit b (stream bs) h.0 refl (stream-Trace bs h.1)

  -- Of a buffer that holds whole frames, whose payloads are below 2 GiB and may hold any bytes,
  -- `messages` returns all of them in their order, and leaves nothing.
  pub messages-stream :
      (bs : List BaseProtocol)
      → All IsFrameable bs
      → messages c (record { processing_buffer = stream bs })
        ≡ done (bs, record { processing_buffer = [] })
  messages-stream bs h = messages-Trace c _ (stream-Trace bs h)

  skips : (pre d : Bytes) → All (λ x. x ≢ magic) d → Trace c pre d [] (pre ++ d)
  skips pre [] h = rw (append-nil pre) finish
  skips pre (b ∷ d) h =
      rw (← append_assoc pre (b ∷ []) d) (skip b h.0 (skips (pre ++ (b ∷ [])) d h.1))

  quiet_part :
      (f d : Bytes) (k : ℕ)
      → f ≡ magic ∷ d
      → Silent c (take (suc k) f)
      → All (λ x. x ≢ magic) d
      → Trace c [] (take (suc k) f) [] (take (suc k) f)
  quiet_part f d k e s h =
      let silent = subst (λ x. Silent c (take (suc k) x)) e s in
      subst (λ x. Trace c [] (take (suc k) x) [] (take (suc k) x)) (sym e)
        (miss silent (skips (magic ∷ []) (take k d) (All-take (λ x. x ≢ magic) k d h)))

  frame-magic : (b : BaseProtocol) → frame c b ≡ magic ∷ drop 1 (frame c b)
  unfolding frame covered
  frame-magic b = refl

  part-Trace :
      (b : BaseProtocol) (n : ℕ)
      → IsClean b
      → n < length (frame c b)
      → Trace c [] (take n (frame c b)) [] (take n (frame c b))
  part-Trace b zero h lt = finish
  part-Trace b (suc k) h lt =
      let silent = extract-take-frame c b (suc k) h.0 (omega arith) lt in
      let len = length-take (suc k) (frame c b) (omega arith) in
      quiet_part (frame c b) (drop 1 (frame c b)) k (frame-magic b) (need_more_data, rw len silent)
        h.1

  -- Less is kept than the next frame takes.
  abbrev pub Short : Bytes → List BaseProtocol → Type 0
  Short left [] = left ≡ []
  Short left (b ∷ bs) = length left < length (frame c b)

  -- The end that is kept begins a frame that has not arrived in full.
  pub split-Trace :
      (bs : List BaseProtocol) (d more : Bytes)
      → All IsClean bs
      → d ++ more ≡ stream bs
      → (ms rest : List BaseProtocol) × (left : Bytes) × Trace c [] d ms left
        × Trace c [] left [] left
        × (bs ≡ ms ++ rest)
        × (left ++ more ≡ stream rest)
        × Short left rest
  unfolding stream
  split-Trace [] [] more h e = ([], [], [], finish, finish, refl, e, refl)
  split-Trace [] (x ∷ d) more h e = absurd (cc e)
  split-Trace (b ∷ bs) d more h e = elim (dec_lt (length d) (length (frame c b))) [
    | yes less ↦
        let part = append_cut_before d more (frame c b) (stream bs) e (omega arith) in
        let kept = subst (λ x. Trace c [] x [] x) (sym part) (part-Trace b (length d) h.0 less) in
        ([], b ∷ bs, d, kept, kept, refl, e, less)
    | no enough ↦
        let (split, behind) = append_cut_after d more (frame c b) (stream bs) e (omega arith) in
        let (ms, rest, left, t, kept, parts, end, short) =
          split-Trace bs (drop (length (frame c b)) d) more h.1 behind in
        (
          b ∷ ms,
          rest,
          left,
          hit b (drop (length (frame c b)) d) h.0.0 split t,
          kept,
          ap (◌∷◌ b) parts,
          end,
          short,
        )
  ]

  -- If what has arrived begins a stream of clean frames and `more` is the rest of it, then
  -- `messages` returns the first messages of the stream, and what it keeps and `more` are the
  -- stream of the others.
  pub messages-split :
      (bs : List BaseProtocol) (p : BufferProcessor) (more : Bytes)
      → All IsClean bs
      → p.processing_buffer ++ more ≡ stream bs
      → (ms rest : List BaseProtocol) × (q : BufferProcessor) × (messages c p ≡ done (ms, q))
        × (bs ≡ ms ++ rest)
        × (q.processing_buffer ++ more ≡ stream rest)
  messages-split bs p more h e =
      let (ms, rest, left, t, _, parts, end, _) = split-Trace bs p.processing_buffer more h e in
      (ms, rest, record { processing_buffer = left }, messages-Trace c p t, parts, end)

  All-right :
      (n : ℕ) (ms rest : List BaseProtocol)
      → All (λ b. length b.payload ≤ n) (ms ++ rest)
      → All (λ b. length b.payload ≤ n) rest
  All-right n ms rest h = All-append_right (λ b. length b.payload ≤ n) ms rest h

  Short-bound :
      (n : ℕ) (left : Bytes) (rest : List BaseProtocol)
      → All (λ b. length b.payload ≤ n) rest
      → Short left rest
      → length left < n + 9
  Short-bound n left [] h short = omega (arith, ap length short)
  Short-bound n left (b ∷ bs) h short = omega (arith, length-frame c b)

  -- If the payloads of a stream of clean frames have at most `n` bytes, then `messages` keeps fewer
  -- than `n + 9` bytes of whatever has arrived of it, however much that is.
  pub messages-bound :
      (n : ℕ) (bs : List BaseProtocol) (p : BufferProcessor) (more : Bytes)
      → All IsClean bs
      → All (λ b. length b.payload ≤ n) bs
      → p.processing_buffer ++ more ≡ stream bs
      → (ms : List BaseProtocol) × (q : BufferProcessor) × (messages c p ≡ done (ms, q))
        × (length q.processing_buffer < n + 9)
  messages-bound n bs p more h small e =
      let (ms, rest, left, t, _, parts, end, short) = split-Trace bs p.processing_buffer more h e in
      (
        ms,
        record { processing_buffer = left },
        messages-Trace c p t,
        Short-bound n left rest
            (All-right n ms rest (subst (All (λ b. length b.payload ≤ n)) parts small)) short,
      )
