-- ===== src/Protocol/Frame.antt =====
-- What `make_protocol_message` writes, described as one concatenation.
use emserver.Base.{
  ℕ, ◌+◌, ◌%◌, ◌^◌, ◌<◌, ◌≡◌, refl, sym, ap, ◌∙◌, [], ◌∷◌, ◌++◌, append-nil, Bytes, le32, length,
  drop, length-append, drop-append, drop-drop, drop-length, take-append, arith,
}
use emserver.Protocol.{
  Checksum, BaseProtocol, magic, make_protocol_message, full_size, overwrite, full_size,
}

-- A payload whose size the extraction reads as a positive int32_t.
abbrev pub IsFrameable : BaseProtocol → Type 0
IsFrameable b = length b.payload < 2 ^ 31

-- The bytes that the checksum covers.
unfoldable pub covered : Bytes → Bytes
covered p = magic ∷ (le32 (length p) ++ p)

pub length-le32 : (n : ℕ) → length (le32 n) ≡ 4
unfolding le32
length-le32 n = refl

pub length-covered : (p : Bytes) → length (covered p) ≡ length p + 5
unfolding covered le32
length-covered p = omega arith

overwrite-end :
    (xs ys zs : Bytes) (n : ℕ)
    → n ≡ length xs
    → length ys ≡ length zs
    → overwrite n ys (xs ++ zs) ≡ xs ++ ys
unfolding overwrite
overwrite-end xs ys zs n e f =
    let tail : drop (n + length ys) (xs ++ zs) ≡ [] =
      sym (drop-drop n (length ys) (xs ++ zs)) ∙ rw (e, drop-append, f) (drop-length zs) in
    rw (tail, append-nil, e) (ap (λ t. t ++ ys) (take-append xs zs))

module _ (c : Checksum) where
  open c use {checksum, checksum-lt}

  unfoldable pub frame : BaseProtocol → Bytes
  frame b = covered b.payload ++ le32 (checksum (covered b.payload))

  pub length-frame : (b : BaseProtocol) → length (frame b) ≡ length b.payload + 9
  unfolding frame
  length-frame b = omega (
    arith,
    length-append (covered b.payload) (le32 (checksum (covered b.payload))),
    length-covered b.payload,
    length-le32 (checksum (covered b.payload)),
  )

  -- `full_size` is the number of bytes that the message takes on the wire.
  pub full_size-length : (b : BaseProtocol) → IsFrameable b → full_size b ≡ length (frame b)
  unfolding full_size
  full_size-length b h = omega (arith, length-frame b)

  -- For a payload of less than 2 ^ 32 - 5 bytes the message is the magic byte, the size, the payload, and the
  -- checksum of all three.
  pub make_protocol_message-frame :
      (b : BaseProtocol) → length b.payload + 5 < 2 ^ 32 → make_protocol_message c b ≡ frame b
  unfolding make_protocol_message frame covered
  make_protocol_message-frame b h =
      let e : length b.payload % 2 ^ 32 ≡ length b.payload = omega arith in
      rw e (
        overwrite-end (covered b.payload) (le32 (checksum (covered b.payload))) (0 ∷ 0 ∷ 0 ∷ 0 ∷ [])
          _ (omega (arith, length-covered b.payload)) refl)
