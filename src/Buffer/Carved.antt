-- ===== src/Buffer/Carved.antt =====
-- What `messages` makes of any buffer.
use emserver.Base.{
  ℕ, suc, ◌^◌, ◌<◌, ◌≡◌, sym, ap, subst, List, [], ◌∷◌, ◌++◌, append-nil, append_assoc, Bytes,
  IsByte, All, length, arith, done, Bool-cases, inl, inr, ==→eq, ==→ne, ◌==◌,
}
use emserver.Protocol.{Checksum, BaseProtocol, magic}
use emserver.Protocol.Frame.{IsFrameable, frame}
use emserver.Buffer.{BufferProcessor, messages}
use emserver.Buffer.Trace.{
  Trace, finish, skip, miss, hit, Silent, AllSizesFit, trace, messages-Trace,
}

module _ (c : Checksum) where
  -- `ms` are cut out of `d` in their order, each as a whole frame with what stands before it, and
  -- `left` is the end of `d` behind them.
  pub data Carved : Bytes → List BaseProtocol → Bytes → Type 0 where
    whole : {d left : Bytes} → d ≡ left → Carved d [] left
    cut :
        {d left : Bytes} {ms : List BaseProtocol} (junk : Bytes) (b : BaseProtocol) (tail : Bytes)
        → IsFrameable b
        → d ≡ junk ++ (frame c b ++ tail)
        → Carved tail ms left
        → Carved d (b ∷ ms) left

  Trace-Carved :
      {pre rest left : Bytes} {ms : List BaseProtocol}
      → Trace c pre rest ms left
      → Carved (pre ++ rest) ms left
  Trace-Carved (finish {pre}) = whole (append-nil pre)
  Trace-Carved (skip {pre} {rest} {left} {ms} b n t) =
      subst (λ d. Carved d ms left) (append_assoc pre (b ∷ []) rest) (Trace-Carved t)
  Trace-Carved (miss {pre} {rest} {left} {ms} s t) =
      subst (λ d. Carved d ms left) (append_assoc pre (magic ∷ []) rest) (Trace-Carved t)
  Trace-Carved (hit {pre} b tail f e t) = cut pre b tail f (ap (λ d. pre ++ d) e) (Trace-Carved t)

  -- No frame starts at a magic byte of `d` in front of `rest`.
  abbrev Quiet : Bytes → Bytes → Type 0
  Quiet [] rest = Unit {0}
  Quiet (b ∷ d) rest = (b ≡ magic → Silent c (b ∷ (d ++ rest))) × Quiet d rest

  Quiet-extend :
      (pre : Bytes) (b : ℕ) (rest : Bytes)
      → Quiet pre (b ∷ rest)
      → (b ≡ magic → Silent c (b ∷ rest))
      → Quiet (pre ++ (b ∷ [])) rest
  Quiet-extend [] b rest q s = (s, tt)
  Quiet-extend (x ∷ pre) b rest q s = (
    λ m. subst (λ d. Silent c (x ∷ d)) (sym (append_assoc pre (b ∷ []) rest)) (q.0 m),
    Quiet-extend pre b rest q.1 s,
  )

  Trace-Quiet :
      {pre rest left : Bytes} {ms : List BaseProtocol}
      → Trace c pre rest ms left
      → Quiet pre rest
      → Quiet left []
  Trace-Quiet finish q = q
  Trace-Quiet (skip {pre} {rest} b n t) q =
      Trace-Quiet t (Quiet-extend pre b rest q (λ m. absurd (n m)))
  Trace-Quiet (miss {pre} {rest} s t) q = Trace-Quiet t (Quiet-extend pre magic rest q (λ m. s))
  Trace-Quiet (hit b tail f e t) q = Trace-Quiet t tt

  Quiet-Trace : (pre d : Bytes) → Quiet d [] → Trace c pre d [] (pre ++ d)
  Quiet-Trace pre [] q = rw (append-nil pre) finish
  Quiet-Trace pre (b ∷ d) q = elim (Bool-cases (b == magic)) [
    | inl first ↦
        let m = ==→eq b magic first in
        let silent = subst (λ x. Silent c (x ∷ d)) m (rw (append-nil d) at (q.0 m)) in
        rw (m, ← append_assoc pre (magic ∷ []) d)
          (miss silent (Quiet-Trace (pre ++ (magic ∷ [])) d q.1))
    | inr other ↦
        rw (← append_assoc pre (b ∷ []) d)
          (skip b (==→ne b magic other) (Quiet-Trace (pre ++ (b ∷ [])) d q.1))
  ]

  -- On a buffer below 2 GiB, of bytes, in which every size that is announced at a magic byte
  -- leaves room for its frame, `messages` returns: what it returns are the payloads of whole
  -- frames, cut out in their order; what it keeps is the end of the buffer behind the last of
  -- them; and a second call finds nothing more.
  pub messages-total :
      (p : BufferProcessor)
      → length p.processing_buffer < 2 ^ 31
      → All IsByte p.processing_buffer
      → AllSizesFit p.processing_buffer
      → (ms : List BaseProtocol) × (q : BufferProcessor) × (messages c p ≡ done (ms, q))
        × Carved p.processing_buffer ms q.processing_buffer
        × (messages c q ≡ done ([], q))
  messages-total p size bytes fits =
      let (ms, left, t) =
        trace c (suc (length p.processing_buffer)) [] p.processing_buffer (omega arith) size bytes
          fits in
      (
        ms,
        record { processing_buffer = left },
        messages-Trace c p t,
        Trace-Carved t,
        messages-Trace c _ (Quiet-Trace [] left (Trace-Quiet t tt)),
      )
