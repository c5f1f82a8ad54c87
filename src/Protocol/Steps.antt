-- ===== src/Protocol/Steps.antt =====
-- The extraction on a buffer whose size field is written out byte by byte.
use emserver.Base.{
  ℕ, ◌+◌, ◌-◌, ◌%◌, ◌^◌, ◌≤◌, ◌<◌, ◌≡◌, ◌≢◌, refl, ap, ◌∙◌, ◌∷◌, ◌++◌, Bytes, from_le32, length,
  take, drop, length-append, drop-append, take-append, arith, none, some, done, crash,
  out_of_bounds, leb→le, le→leb, lt→leb, le→ltb_false, lt→ltb, ne→==, sub64, Bool-cases, inl, inr,
  ◌==◌, if◌then◌else◌, leb, ltb,
}
use emserver.Protocol.{
  Checksum, magic, extract_from_raw_data, extract_sized, extract_checked, slice, from_raw, read_u32,
  calculate_checksum, first_u32, size_of_int32, no_failure, need_more_data, invalid_first_byte,
  invalid_checksum,
}

module _ (c : Checksum) where
  open c use {checksum}

  pub extract_short :
      (d : Bytes) (n : ℕ)
      → n ≤ 5
      → extract_from_raw_data c (some (magic ∷ d)) n ≡ done (none, need_more_data)
  unfolding extract_from_raw_data
  extract_short d n h = ground arith

  pub extract_other :
      (b : ℕ) (d : Bytes) (n : ℕ)
      → b ≢ magic
      → extract_from_raw_data c (some (b ∷ d)) n ≡ done (none, invalid_first_byte)
  unfolding extract_from_raw_data
  extract_other b d n h = rw (ne→== b magic h)

  -- Behind the size field the extraction depends on the total size that it computes.
  pub extract_sized_lem :
      (w x y z : ℕ) (d : Bytes) (n : ℕ)
      → 5 < n
      → extract_from_raw_data c (some (magic ∷ w ∷ x ∷ y ∷ z ∷ d)) n ≡ (
          let total = (5 + (from_le32 w x y z + 4)) % 2 ^ 32 in
          if ltb n total
          then done (none, need_more_data)
          else extract_checked c (magic ∷ w ∷ x ∷ y ∷ z ∷ d) total)
  unfolding extract_from_raw_data extract_sized read_u32
  extract_sized_lem w x y z d n h = rw (lt→leb 5 n h)

  pub slice_in :
      (p : Bytes) (off n : ℕ) → off + n ≤ length p → slice p off n ≡ done (take n (drop off p))
  unfolding slice
  slice_in p off n h = rw (le→leb (off + n) (length p) h)

  pub slice_out : (p : Bytes) (off n : ℕ) → length p < off + n → slice p off n ≡ crash out_of_bounds
  unfolding slice
  slice_out p off n h = rw (lt→leb (length p) (off + n) h)

  pub calculate_checksum_front :
      (front tail : Bytes)
      → calculate_checksum c (front ++ tail) (length front) ≡ done (checksum front)
  unfolding calculate_checksum
  calculate_checksum_front front tail =
      rw (slice_in (front ++ tail) 0 (length front) (omega (arith, length-append front tail)))
        (ap (λ bs. done (checksum bs)) (take-append front tail))

  from_raw_front :
      (front tail : Bytes)
      → length front < 2 ^ 63
      → from_raw (front ++ tail) (length front) ≡ done (record { payload = front })
  unfolding from_raw
  from_raw_front front tail h =
      rw
        (
          le→ltb_false (2 ^ 63 - 1) (length front) (omega arith),
          slice_in (front ++ tail) 0 (length front) (omega (arith, length-append front tail)),
        )
        (ap (λ bs. done (record { payload = bs })) (take-append front tail))

  -- With the sizes in range, the stored checksum decides.
  pub extract_checked_lem :
      (v w x y z : ℕ) (body : Bytes) (s t u r : ℕ) (rest : Bytes)
      → length body < 2 ^ 31
      → extract_checked c (v ∷ w ∷ x ∷ y ∷ z ∷ (body ++ (s ∷ t ∷ u ∷ r ∷ rest))) (length body + 9)
        ≡ (if checksum (v ∷ w ∷ x ∷ y ∷ z ∷ body) == from_le32 s t u r
            then done (some (record { payload = body }), no_failure)
            else done (none, invalid_checksum))
  unfolding extract_checked read_u32 first_u32
  extract_checked_lem v w x y z body s t u r rest h =
      let front = v ∷ w ∷ x ∷ y ∷ z ∷ body in
      let tail = s ∷ t ∷ u ∷ r ∷ rest in
      let e : sub64 (length body + 9) 4 ≡ length front = omega arith in
      let f : size_of_int32 (sub64 (length body + 9) 9 % 2 ^ 32) ≡ length body = ground arith in
      rw
        (
          e,
          drop-append front tail,
          calculate_checksum_front front tail,
          f,
          from_raw_front body tail (omega arith),
        )
        refl

  -- A buffer that holds as much as its size field announces.
  pub extract_complete :
      (w x y z : ℕ) (body : Bytes) (s t u r : ℕ) (rest : Bytes)
      → from_le32 w x y z ≡ length body
      → length body < 2 ^ 31
      → let d = magic ∷ w ∷ x ∷ y ∷ z ∷ (body ++ (s ∷ t ∷ u ∷ r ∷ rest)) in
        extract_from_raw_data c (some d) (length d) ≡ (
          if checksum (magic ∷ w ∷ x ∷ y ∷ z ∷ body) == from_le32 s t u r
          then done (some (record { payload = body }), no_failure)
          else done (none, invalid_checksum))
  extract_complete w x y z body s t u r rest e h =
      let tail = s ∷ t ∷ u ∷ r ∷ rest in
      let total : (5 + (from_le32 w x y z + 4)) % 2 ^ 32 ≡ length body + 9 = omega arith in
      let n : ℕ = length (magic ∷ w ∷ x ∷ y ∷ z ∷ (body ++ tail)) in
      let available : length body + 9 ≤ n = omega (arith, length-append body tail) in
      extract_sized_lem w x y z (body ++ tail) n (omega arith)
      ∙ rw (total, le→ltb_false n (length body + 9) (omega arith))
          (extract_checked_lem magic w x y z body s t u r rest h)

  -- A buffer that holds less.
  pub extract_partial :
      (w x y z : ℕ) (d : Bytes) (n : ℕ)
      → n < from_le32 w x y z + 9
      → from_le32 w x y z + 9 < 2 ^ 32
      → extract_from_raw_data c (some (magic ∷ w ∷ x ∷ y ∷ z ∷ d)) n ≡ done (none, need_more_data)
  extract_partial w x y z d n h small = elim (Bool-cases (leb n 5)) [
    | inl few ↦ extract_short (w ∷ x ∷ y ∷ z ∷ d) n (leb→le n 5 few)
    | inr more ↦
        extract_sized_lem w x y z d n (ground arith)
        ∙ rw (lt→ltb n ((5 + (from_le32 w x y z + 4)) % 2 ^ 32) (omega arith))
  ]
