-- ===== src/Protocol/Faults.antt =====
-- When an extraction answers at all. The total size is a uint32_t, and a size field close to
-- 2 ^ 32 makes it wrap.
use emserver.Base.{
  ℕ, zero, suc, ◌+◌, ◌%◌, ◌^◌, ◌≤◌, ◌<◌, ◌≡◌, refl, sym, subst, ◌∙◌, [], ◌∷◌, Bytes, from_le32,
  length, drop, arith, Option, some, done, crash, le→ltb_false, ==→eq, ==→ne, sub64, if◌then◌else◌,
  ◌==◌, Bool, true, false, Bool-cases, inl, inr, out_of_bounds, dec_lt,
}
use emserver.Protocol.{
  Checksum, BaseProtocol, Extraction, magic, extract_from_raw_data, extract_checked, read_u32,
  first_u32, ExtractionFailure,
}
use emserver.Protocol.Steps.{
  extract_short, extract_complete, extract_partial, extract_sized_lem, extract_other,
}
use emserver.Protocol.Sound.{split_whole}

-- At a magic byte, the size that is announced leaves room for the nine bytes around the payload.
abbrev pub SizeFits : Bytes → Type 0
SizeFits (b ∷ w ∷ x ∷ y ∷ z ∷ d) = b ≡ magic → from_le32 w x y z + 9 < 2 ^ 32
SizeFits _ = Unit {0}

abbrev pub Answers : Extraction → Type 0
Answers r = (a : Option BaseProtocol × ExtractionFailure) × (r ≡ done a)

if-Answers :
    (test : Bool) (a b : Option BaseProtocol × ExtractionFailure)
    → (let t : Extraction = done a in
        let f : Extraction = done b in Answers (if test then t else f))
if-Answers true a b = (a, refl)
if-Answers false a b = (b, refl)

drop_beyond : (n : ℕ) (xs : Bytes) → length xs ≤ n → drop n xs ≡ []
drop_beyond zero [] h = refl
drop_beyond zero (x ∷ xs) h = absurd (omega arith)
drop_beyond (suc n) [] h = refl
drop_beyond (suc n) (x ∷ xs) h = drop_beyond n xs (omega arith)

module _ (c : Checksum) where
  marked-Answers :
      (d : Bytes)
      → length (magic ∷ d) < 2 ^ 31
      → SizeFits (magic ∷ d)
      → Answers (extract_from_raw_data c (some (magic ∷ d)) (length (magic ∷ d)))
  marked-Answers [] h fits = (_, extract_short c [] 1 (omega arith))
  marked-Answers (w ∷ []) h fits = (_, extract_short c (w ∷ []) 2 (omega arith))
  marked-Answers (w ∷ x ∷ []) h fits = (_, extract_short c (w ∷ x ∷ []) 3 (omega arith))
  marked-Answers (w ∷ x ∷ y ∷ []) h fits = (_, extract_short c (w ∷ x ∷ y ∷ []) 4 (omega arith))
  marked-Answers (w ∷ x ∷ y ∷ z ∷ d) h fits =
      let n = from_le32 w x y z in
      elim (dec_lt (length d) (n + 4)) [
        | yes less ↦ (
          _,
          extract_partial c w x y z d (length (magic ∷ w ∷ x ∷ y ∷ z ∷ d)) (omega arith)
              (fits refl),
        )
        | no enough ↦
            let (body, s, t, u, r, rest, split, len) = split_whole n d (omega arith) in
            rw (split, extract_complete c w x y z body s t u r rest (sym len) (omega (arith, len)))
              (if-Answers _ _ _)
      ]

  -- An extraction from a buffer that is not empty ends with a message or with a reason, and
  -- reads nothing outside of the buffer, if the buffer is below 2 GiB and the announced size fits.
  pub extract-Answers :
      (d : Bytes)
      → 0 < length d
      → length d < 2 ^ 31
      → SizeFits d
      → Answers (extract_from_raw_data c (some d) (length d))
  extract-Answers [] pos h fits = absurd (omega arith)
  extract-Answers (b ∷ d) pos h fits = elim (Bool-cases (b == magic)) [
    | inl first ↦
        let m = ==→eq b magic first in
        rw m (marked-Answers d h (subst (λ x. SizeFits (x ∷ d)) m fits))
    | inr other ↦ (_, extract_other c b d (length (b ∷ d)) (==→ne b magic other))
  ]

  -- If the announced size is between 2 ^ 32 - 9 and 2 ^ 32 - 6, and one byte more has arrived,
  -- the extraction reads its checksum from a place before the buffer.
  pub extract_wraps :
      (w x y z b : ℕ) (d : Bytes)
      → 2 ^ 32 ≤ from_le32 w x y z + 9
      → from_le32 w x y z + 5 < 2 ^ 32
      → length d + 6 < 2 ^ 63
      → (let buffer = magic ∷ w ∷ x ∷ y ∷ z ∷ b ∷ d in
          extract_from_raw_data c (some buffer) (length buffer) ≡ crash out_of_bounds)
  unfolding extract_checked read_u32 first_u32
  extract_wraps w x y z b d lo hi h =
      let buffer = magic ∷ w ∷ x ∷ y ∷ z ∷ b ∷ d in
      let total = (5 + (from_le32 w x y z + 4)) % 2 ^ 32 in
      let wrapped : total + 2 ^ 32 ≡ from_le32 w x y z + 9 = omega arith in
      let n : ℕ = length buffer in
      let far : n ≤ sub64 total 4 = omega arith in
      extract_sized_lem c w x y z (b ∷ d) n (omega arith)
      ∙ rw (le→ltb_false n total (omega arith), drop_beyond (sub64 total 4) buffer far)
