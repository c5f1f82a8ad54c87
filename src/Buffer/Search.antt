-- ===== src/Buffer/Search.antt =====
-- The loop of `messages` in steps: `pre` is what the marker has passed, `rest` what lies ahead.
use emserver.Base.{
  ℕ, suc, ◌+◌, ◌-◌, ◌≡◌, ◌≢◌, refl, sym, ap, ◌∙◌, List, [], ◌∷◌, ◌++◌, append-nil, append_assoc,
  Bytes, length, length-append, drop-append, arith, Option, none, some, Run, done, le→leb, ne→==,
  ==_refl,
}
use emserver.Protocol.{
  Checksum, BaseProtocol, magic, extract_from_raw_data, full_size, ExtractionFailure,
}
use emserver.Buffer.{messages_loop, find_magic, find_from, erase_front, take_item}

pub find_magic_here : (rest : Bytes) → find_magic (magic ∷ rest) ≡ 0
unfolding find_magic
find_magic_here rest = refl

pub find_magic_next :
    (b : ℕ) (rest : Bytes) → b ≢ magic → find_magic (b ∷ rest) ≡ suc (find_magic rest)
unfolding find_magic
find_magic_next b rest h = rw (ne→== b magic h)

find_from-append :
    (pre rest : Bytes) → find_from (pre ++ rest) (length pre) ≡ length pre + find_magic rest
unfolding find_from
find_from-append pre rest = rw (drop-append pre rest)

pub find_from_zero : (rest : Bytes) → find_from rest 0 ≡ find_magic rest
unfolding find_from
find_from_zero rest = omega arith

append_one : (pre : Bytes) (b : ℕ) (rest : Bytes) → (pre ++ (b ∷ [])) ++ rest ≡ pre ++ (b ∷ rest)
append_one pre b rest = append_assoc pre (b ∷ []) rest

module _ (c : Checksum) where
  -- The loop with its marker at the first magic byte of `rest`.
  unfoldable pub search : ℕ → Bytes → Bytes → List BaseProtocol → Run (List BaseProtocol × Bytes)
  search fuel pre rest ret = messages_loop c fuel (pre ++ rest) (length pre + find_magic rest) ret

  pub search_end :
      (fuel : ℕ) (pre : Bytes) (ret : List BaseProtocol)
      → search (suc fuel) pre [] ret ≡ done (ret, pre)
  unfolding search messages_loop
  search_end fuel pre ret =
      let e : length pre + find_magic [] ≡ length pre = unfold find_magic in omega arith in
      rw (append-nil pre, e, ==_refl (length pre))

  pub search_skip :
      (fuel : ℕ) (pre : Bytes) (b : ℕ) (rest : Bytes) (ret : List BaseProtocol)
      → b ≢ magic
      → search fuel pre (b ∷ rest) ret ≡ search fuel (pre ++ (b ∷ [])) rest ret
  unfolding search
  search_skip fuel pre b rest ret h =
      let e : length pre + find_magic (b ∷ rest) ≡ length (pre ++ (b ∷ [])) + find_magic rest =
        omega (arith, find_magic_next b rest h, length-append pre (b ∷ [])) in
      rw (append_one pre b rest, e)

  -- One round with the marker on a magic byte.
  round :
      (fuel : ℕ) (pre rest : Bytes) (ret : List BaseProtocol) (item : Option BaseProtocol)
      (why : ExtractionFailure)
      → extract_from_raw_data c (some (magic ∷ rest)) (length (magic ∷ rest)) ≡ done (item, why)
      → search (suc fuel) pre (magic ∷ rest) ret
        ≡ take_item (messages_loop c fuel) (pre ++ (magic ∷ rest)) (length pre) ret item
  unfolding search messages_loop
  round fuel pre rest ret item why e =
      let marker : length pre + find_magic (magic ∷ rest) ≡ length pre =
        omega (arith, find_magic_here rest) in
      let size = length-append pre (magic ∷ rest) in
      let left : length (pre ++ (magic ∷ rest)) - length pre ≡ length (magic ∷ rest) =
        omega arith in
      simp (
        marker,
        ne→== (length pre) (length (pre ++ (magic ∷ rest))) (omega arith),
        left,
        drop-append pre (magic ∷ rest),
        e,
      )

  pub search_miss :
      (fuel : ℕ) (pre rest : Bytes) (ret : List BaseProtocol) (why : ExtractionFailure)
      → extract_from_raw_data c (some (magic ∷ rest)) (length (magic ∷ rest)) ≡ done (none, why)
      → search (suc fuel) pre (magic ∷ rest) ret ≡ search fuel (pre ++ (magic ∷ [])) rest ret
  unfolding take_item search
  search_miss fuel pre rest ret why e =
      round fuel pre rest ret none why e
      ∙ (let pos : length pre + 1 ≡ length (pre ++ (magic ∷ [])) =
            omega (arith, length-append pre (magic ∷ [])) in
          rw (← append_one pre magic rest, pos, find_from-append (pre ++ (magic ∷ [])) rest))

  pub search_hit :
      (fuel : ℕ) (pre rest front tail : Bytes) (ret : List BaseProtocol) (b : BaseProtocol)
      (why : ExtractionFailure)
      → extract_from_raw_data c (some (magic ∷ rest)) (length (magic ∷ rest)) ≡ done (some b, why)
      → magic ∷ rest ≡ front ++ tail
      → full_size b ≡ length front
      → search (suc fuel) pre (magic ∷ rest) ret ≡ search fuel [] tail (ret ++ (b ∷ []))
  unfolding take_item erase_front search
  search_hit fuel pre rest front tail ret b why e split size =
      round fuel pre rest ret (some b) why e
      ∙ (let buffer : pre ++ (magic ∷ rest) ≡ (pre ++ front) ++ tail =
            ap (λ t. pre ++ t) split ∙ sym (append_assoc pre front tail) in
          let erased : length pre + full_size b ≡ length (pre ++ front) =
            omega (arith, length-append pre front) in
          let inside =
            le→leb (length (pre ++ front)) (length ((pre ++ front) ++ tail))
              (omega (arith, length-append (pre ++ front) tail)) in
          simp (buffer, erased, inside, drop-append (pre ++ front) tail, find_from_zero))
