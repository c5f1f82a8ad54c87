-- ===== src/Buffer/Embedded.antt =====
-- A frame inside the payload of a frame that has not arrived in full.
use emserver.Base.{
  ◌<◌, ◌≡◌, ◌≢◌, sym, ap, ◌∙◌, subst, List, [], ◌∷◌, ◌++◌, append-nil, append_assoc, Bytes, All,
  length, length-append, take-append, take, arith, done,
}
use emserver.Protocol.{Checksum, BaseProtocol, magic, need_more_data}
use emserver.Protocol.Frame.{IsFrameable, frame}
use emserver.Protocol.RoundTrip.{extract-take-frame}
use emserver.Buffer.{messages}
use emserver.Buffer.Trace.{Trace, finish, skip, miss, hit, Silent, messages-Trace}

module _ (c : Checksum) where
  skip_over :
      {left : Bytes} {ms : List BaseProtocol} (pre front rest : Bytes)
      → All (λ x. x ≢ magic) front
      → Trace c (pre ++ front) rest ms left
      → Trace c pre (front ++ rest) ms left
  skip_over {left} {ms} pre [] rest h t = subst (λ p. Trace c p rest ms left) (append-nil pre) t
  skip_over {left} {ms} pre (b ∷ front) rest h t = skip b h.0 (
      skip_over (pre ++ (b ∷ [])) front rest h.1
        (subst (λ p. Trace c p rest ms left) (sym (append_assoc pre (b ∷ []) front)) t))

  -- Both payloads are below 2 GiB. If a frame lies in the payload of another, with no magic byte between their first bytes, and
  -- the inner frame arrives in full before the outer one does, then `messages` returns the inner
  -- frame's payload as a message and drops what has arrived of the outer one.
  pub messages_embedded :
      (outer inner : BaseProtocol) (front back : Bytes)
      → IsFrameable outer
      → IsFrameable inner
      → frame c outer ≡ magic ∷ (front ++ (frame c inner ++ back))
      → All (λ x. x ≢ magic) front
      → 0 < length back
      → messages c (record { processing_buffer = magic ∷ (front ++ frame c inner) })
        ≡ done (inner ∷ [], record { processing_buffer = [] })
  messages_embedded outer inner front back ho hi e clean rest =
      let arrived = magic ∷ (front ++ frame c inner) in
      let whole : frame c outer ≡ arrived ++ back =
        e ∙ ap (◌∷◌ magic) (sym (append_assoc front (frame c inner) back)) in
      let begins : take (length arrived) (frame c outer) ≡ arrived =
        ap (take (length arrived)) whole ∙ take-append arrived back in
      let short : length arrived < length (frame c outer) =
        omega (arith, ap length whole, length-append arrived back) in
      let silent : Silent c arrived = (
        need_more_data,
        rw begins at (extract-take-frame c outer (length arrived) ho (omega arith) short),
      ) in
      messages-Trace c (record { processing_buffer = arrived })
        (miss silent (
          skip_over (magic ∷ []) front (frame c inner) clean
            (hit inner [] hi (sym (append-nil (frame c inner))) finish)))
