-- ===== src/Protocol/Sound.antt =====
-- What a successful extraction says of the buffer.
use emserver.Base.{
  ℕ, ◌+◌, ◌-◌, ◌%◌, ◌^◌, ◌≤◌, ◌<◌, ◌≡◌, ◌≢◌, refl, sym, ap, ◌∙◌, [], ◌∷◌, ◌++◌, append_assoc, Bytes,
  IsByte, le32, from_le32, from_le32-lt, length, take, drop, All, All-append_right, dec_lt, ==→ne,
  drop-append, length-take, length-drop, take-append-drop, arith, none, some, done, crash, lt→ltb,
  le→ltb_false, ==→eq, sub64, if◌then◌else◌, ◌==◌, Bool, true, false, Bool-cases, inl, inr,
  length_error,
}
use emserver.Protocol.{
  Checksum, BaseProtocol, Extraction, magic, extract_from_raw_data, extract_checked, from_raw,
  size_of_int32, no_failure, invalid_checksum, ExtractionFailure,
}
use emserver.Protocol.Frame.{IsFrameable, frame, covered}
use emserver.Protocol.Steps.{
  extract_short, extract_complete, extract_partial, extract_sized_lem, extract_other,
}

pub split_four :
    (xs : Bytes) → 4 ≤ length xs → (s t u r : ℕ) × (rest : Bytes) × (xs ≡ s ∷ t ∷ u ∷ r ∷ rest)
split_four (s ∷ t ∷ u ∷ r ∷ rest) h = (s, t, u, r, rest, refl)
split_four [] h = absurd (omega arith)
split_four (s ∷ []) h = absurd (omega arith)
split_four (s ∷ t ∷ []) h = absurd (omega arith)
split_four (s ∷ t ∷ u ∷ []) h = absurd (omega arith)

-- A body of `n` bytes and a stored checksum.
pub split_whole :
    (n : ℕ) (xs : Bytes)
    → n + 4 ≤ length xs
    → (body : Bytes) × (s t u r : ℕ) × (rest : Bytes) × (xs ≡ body ++ (s ∷ t ∷ u ∷ r ∷ rest))
      × (length body ≡ n)
split_whole n xs h =
    let (s, t, u, r, rest, e) = split_four (drop n xs) (omega (arith, length-drop n xs)) in
    (
      take n xs,
      s,
      t,
      u,
      r,
      rest,
      sym (take-append-drop n xs) ∙ ap (λ ys. take n xs ++ ys) e,
      length-take n xs (omega arith),
    )

le32-from_le32 :
    (a b c d : ℕ)
    → IsByte a
    → IsByte b
    → IsByte c
    → IsByte d
    → le32 (from_le32 a b c d) ≡ a ∷ b ∷ c ∷ d ∷ []
unfolding le32 from_le32
le32-from_le32 a b c d ha hb hc hd = ground arith

pub from_raw_big :
    (p : Bytes) (w : ℕ)
    → 2 ^ 31 ≤ w
    → w < 2 ^ 32
    → from_raw p (size_of_int32 w) ≡ crash length_error
unfolding from_raw
from_raw_big p w lo hi =
    rw (le→ltb_false w (2 ^ 31) lo, lt→ltb (2 ^ 63 - 1) (w + 2 ^ 64 - 2 ^ 32) (omega arith))

accepted :
    (test : Bool) (a b : BaseProtocol) (why : ExtractionFailure)
    → (let found : Extraction = done (some a, no_failure) in
        let refused : Extraction = done (none, invalid_checksum) in
        (if test then found else refused) ≡ done (some b, why))
    → (test ≡ true) × (a ≡ b) × (why ≡ no_failure)
accepted true a b why e = (refl, cc, cc)
accepted false a b why e = cc

module _ (c : Checksum) where
  open c use {checksum, checksum-lt}

  extract_checked_big :
      (p : Bytes) (total : ℕ) (b : BaseProtocol) (r : ExtractionFailure)
      → 2 ^ 31 ≤ sub64 total 9 % 2 ^ 32
      → extract_checked c p total ≢ done (some b, r)
  unfolding extract_checked
  extract_checked_big p total b r h =
      ground (arith, from_raw_big (drop 5 p) (sub64 total 9 % 2 ^ 32) h (omega arith))

  -- What a buffer holds if a message `b` is extracted from its front.
  abbrev pub StartsWith : Bytes → BaseProtocol → Type 0
  StartsWith d b = (d ≡ frame c b ++ drop (length (frame c b)) d) × IsFrameable b

  frame-StartsWith :
      (d rest : Bytes) (b : BaseProtocol) → d ≡ frame c b ++ rest → IsFrameable b → StartsWith d b
  frame-StartsWith d rest b e h = (
    e
        ∙ ap (λ t. frame c b ++ t) (sym (drop-append (frame c b) rest))
        ∙ ap (λ t. frame c b ++ drop (length (frame c b)) t) (sym e),
    h,
  )

  frame_bytes :
      (w x y z : ℕ) (body : Bytes) (s t u r : ℕ) (rest : Bytes)
      → All IsByte (w ∷ x ∷ y ∷ z ∷ s ∷ t ∷ u ∷ r ∷ [])
      → from_le32 w x y z ≡ length body
      → checksum (magic ∷ w ∷ x ∷ y ∷ z ∷ body) ≡ from_le32 s t u r
      → magic ∷ w ∷ x ∷ y ∷ z ∷ (body ++ (s ∷ t ∷ u ∷ r ∷ rest))
        ≡ frame c (record { payload = body }) ++ rest
  unfolding frame covered
  frame_bytes w x y z body s t u r rest (hw, (hx, (hy, (hz, (hs, (ht, (hu, (hr, _)))))))) size sum =
      rw (← size, le32-from_le32 w x y z hw hx hy hz, sum, le32-from_le32 s t u r hs ht hu hr)
        (simp append_assoc)

  sound_complete :
      (w x y z : ℕ) (body : Bytes) (s t u r : ℕ) (rest : Bytes) (b : BaseProtocol)
      (why : ExtractionFailure)
      → All IsByte (w ∷ x ∷ y ∷ z ∷ s ∷ t ∷ u ∷ r ∷ [])
      → from_le32 w x y z ≡ length body
      → length body < 2 ^ 31
      → let d = magic ∷ w ∷ x ∷ y ∷ z ∷ (body ++ (s ∷ t ∷ u ∷ r ∷ rest)) in
        extract_from_raw_data c (some d) (length d) ≡ done (some b, why)
        → StartsWith d b × (why ≡ no_failure)
  sound_complete w x y z body s t u r rest b why bytes size h e =
      let test = checksum (magic ∷ w ∷ x ∷ y ∷ z ∷ body) == from_le32 s t u r in
      let (same, payload, reason) =
        accepted test (record { payload = body }) b why
          (sym (extract_complete c w x y z body s t u r rest size h) ∙ e) in
      let whole = frame_bytes w x y z body s t u r rest bytes size (==→eq _ _ same) in
      (rw (← payload) (frame-StartsWith _ rest _ whole h), reason)

  -- No message comes out of a size that is no positive int32_t, or of a buffer that is too short.
  sound_big :
      (w x y z : ℕ) (d : Bytes) (b : BaseProtocol) (why : ExtractionFailure)
      → from_le32 w x y z < 2 ^ 32
      → 2 ^ 31 ≤ from_le32 w x y z
      → extract_from_raw_data c (some (magic ∷ w ∷ x ∷ y ∷ z ∷ d)) (length d + 5)
        ≢ done (some b, why)
  sound_big w x y z [] b why small big e =
      cc (e, extract_short c (w ∷ x ∷ y ∷ z ∷ []) 5 (omega arith))
  sound_big w x y z (v ∷ d) b why small big e =
      let n = from_le32 w x y z in
      let total = (5 + (n + 4)) % 2 ^ 32 in
      ground (
        arith,
        extract_sized_lem c w x y z (v ∷ d) (length (v ∷ d) + 5) (omega arith),
        extract_checked_big (magic ∷ w ∷ x ∷ y ∷ z ∷ v ∷ d) total b why (omega arith),
      )

  sound_marked :
      (d : Bytes) (b : BaseProtocol) (why : ExtractionFailure)
      → All IsByte d
      → extract_from_raw_data c (some (magic ∷ d)) (length (magic ∷ d)) ≡ done (some b, why)
      → StartsWith (magic ∷ d) b × (why ≡ no_failure)
  sound_marked [] b why bytes e = absurd (cc (e, extract_short c [] 1 (omega arith)))
  sound_marked (w ∷ []) b why bytes e = absurd (cc (e, extract_short c (w ∷ []) 2 (omega arith)))
  sound_marked (w ∷ x ∷ []) b why bytes e =
      absurd (cc (e, extract_short c (w ∷ x ∷ []) 3 (omega arith)))
  sound_marked (w ∷ x ∷ y ∷ []) b why bytes e =
      absurd (cc (e, extract_short c (w ∷ x ∷ y ∷ []) 4 (omega arith)))
  sound_marked (w ∷ x ∷ y ∷ z ∷ d) b why (hw, (hx, (hy, (hz, hd)))) e =
      let n = from_le32 w x y z in
      let small = from_le32-lt w x y z hw hx hy hz in
      let size : length (magic ∷ w ∷ x ∷ y ∷ z ∷ d) ≡ length d + 5 = omega arith in
      elim (dec_lt n (2 ^ 31)) [
        | no big ↦ absurd (sound_big w x y z d b why small (omega arith) (rw size at e))
        | yes fits ↦ elim (dec_lt (length d) (n + 4)) [
          | yes less ↦ absurd (
              cc (
                e,
                extract_partial c w x y z d (length (magic ∷ w ∷ x ∷ y ∷ z ∷ d)) (omega arith)
                    (omega arith),
              ))
          | no enough ↦
              let (body, s, t, u, r, rest, split, len) = split_whole n d (omega arith) in
              let tail_bytes =
                All-append_right IsByte body (s ∷ t ∷ u ∷ r ∷ rest) (rw split at hd) in
              rw split (
                sound_complete w x y z body s t u r rest b why
                  (
                    hw,
                    (
                      hx,
                      (
                        hy,
                        (
                          hz,
                          (
                            tail_bytes.0,
                            (tail_bytes.1.0, (tail_bytes.1.1.0, (tail_bytes.1.1.1.0, tt))),
                          ),
                        ),
                      ),
                    ),
                  )
                  (sym len) (omega (arith, len)) (rw split at e))
        ]
      ]

  -- An extraction gives out a message only where the buffer starts with the frame of that very
  -- message, and the payload is below 2 GiB.
  pub extract_sound :
      (d : Bytes) (b : BaseProtocol) (why : ExtractionFailure)
      → All IsByte d
      → extract_from_raw_data c (some d) (length d) ≡ done (some b, why)
      → StartsWith d b × (why ≡ no_failure)
  extract_sound [] b why bytes e = unfold extract_from_raw_data in absurd (cc e)
  extract_sound (x ∷ d) b why bytes e = elim (Bool-cases (x == magic)) [
    | inl first ↦ let m = ==→eq x magic first in rw m (sound_marked d b why bytes.1 (rw m at e))
    | inr other ↦ absurd (cc (e, extract_other c x d (length (x ∷ d)) (==→ne x magic other)))
  ]
