-- ===== src/Protocol/RoundTrip.antt =====
-- Extraction reads back what `make_protocol_message` wrote, and waits for the rest of it.
use emserver.Base.{
  ℕ, zero, suc, ◌+◌, ◌/◌, ◌%◌, ◌<◌, ◌≡◌, refl, ◌∙◌, ◌∷◌, ◌++◌, append_assoc, Bytes, le32,
  from_le32-le32, length, take, length-append, arith, none, some, done, ==_refl,
}
use emserver.Protocol.{
  Checksum, BaseProtocol, magic, extract_from_raw_data, no_failure, need_more_data,
}
use emserver.Protocol.Frame.{IsFrameable, frame, covered, length-frame, length-le32}
use emserver.Protocol.Steps.{extract_short, extract_complete, extract_partial}

module _ (c : Checksum) where
  open c use {checksum, checksum-lt}

  frame-shape :
      (b : BaseProtocol) (rest : Bytes)
      → frame c b ++ rest
        ≡ magic
          ∷ (le32 (length b.payload)
              ++ (b.payload ++ (le32 (checksum (covered b.payload)) ++ rest)))
  unfolding frame covered le32
  frame-shape b rest = simp append_assoc

  -- Extraction of a frame whose payload is below 2 GiB returns the payload, whatever follows the
  -- frame in the buffer.
  pub extract-frame :
      (b : BaseProtocol) (rest : Bytes)
      → IsFrameable b
      → extract_from_raw_data c (some (frame c b ++ rest)) (length (frame c b ++ rest))
        ≡ done (some b, no_failure)
  unfolding le32
  extract-frame b rest h =
      let n = length b.payload in
      let sum = checksum (covered b.payload) in
      rw (frame-shape b rest) (
        extract_complete c (n % 256) (n / 256 % 256) (n / 65536 % 256) (n / 16777216 % 256)
          b.payload (sum % 256) (sum / 256 % 256) (sum / 65536 % 256) (sum / 16777216 % 256) rest
          (from_le32-le32 n (omega arith)) h
        ∙ rw (from_le32-le32 sum (checksum-lt (covered b.payload)))
            (unfold covered in rw (==_refl sum)))

  -- The bytes of a frame behind its size field.
  frame_end : BaseProtocol → Bytes
  frame_end b = b.payload ++ le32 (checksum (covered b.payload))

  length-frame_end : (b : BaseProtocol) → length (frame_end b) ≡ length b.payload + 4
  unfolding frame_end
  length-frame_end b = omega (
    arith,
    length-append b.payload (le32 (checksum (covered b.payload))),
    length-le32 (checksum (covered b.payload)),
  )

  frame-frame_end :
      (b : BaseProtocol) → frame c b ≡ magic ∷ (le32 (length b.payload) ++ frame_end b)
  unfolding frame covered le32 frame_end
  frame-frame_end b = refl

  -- Of any proper prefix of a frame the extraction wants more.
  pub extract-take-frame :
      (b : BaseProtocol) (n : ℕ)
      → IsFrameable b
      → 0 < n
      → n < length (frame c b)
      → extract_from_raw_data c (some (take n (frame c b))) n ≡ done (none, need_more_data)
  unfolding le32
  extract-take-frame b zero h pos lt = absurd (omega arith)
  extract-take-frame b (suc zero) h pos lt =
      rw (frame-frame_end b) (extract_short c _ 1 (omega arith))
  extract-take-frame b (suc (suc zero)) h pos lt =
      rw (frame-frame_end b) (extract_short c _ 2 (omega arith))
  extract-take-frame b (suc (suc (suc zero))) h pos lt =
      rw (frame-frame_end b) (extract_short c _ 3 (omega arith))
  extract-take-frame b (suc (suc (suc (suc zero)))) h pos lt =
      rw (frame-frame_end b) (extract_short c _ 4 (omega arith))
  extract-take-frame b (suc (suc (suc (suc (suc k))))) h pos lt =
      let n = length b.payload in
      let word = from_le32-le32 n (omega arith) in
      rw (frame-frame_end b) (
        extract_partial c (n % 256) (n / 256 % 256) (n / 65536 % 256) (n / 16777216 % 256)
          (take k (frame_end b)) _ (omega (arith, word, length-frame c b)) (omega (arith, word)))
