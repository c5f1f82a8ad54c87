-- ===== src/Buffer/Trace.antt =====
-- The rounds of `messages` as a derivation, and the run that each derivation stands for.
use emserver.Base.{
  ℕ, zero, suc, ◌+◌, ◌-◌, ◌^◌, ◌≤◌, ◌<◌, ◌≡◌, ◌≢◌, refl, sym, ap, ◌∙◌, subst, List, [], ◌∷◌, ◌++◌,
  append-nil, append_assoc, Bytes, IsByte, All, All-drop, drop, length, length-append, arith, none,
  some, done, Bool-cases, ◌⊎◌, inl, inr, ==→eq, ==→ne, ◌==◌,
}
use emserver.Protocol.{Checksum, BaseProtocol, magic, extract_from_raw_data, ExtractionFailure}
use emserver.Protocol.Frame.{IsFrameable, frame, covered, length-frame, full_size-length}
use emserver.Protocol.RoundTrip.{extract-frame}
use emserver.Protocol.Sound.{extract_sound}
use emserver.Protocol.Faults.{SizeFits, Answers, extract-Answers}
use emserver.Buffer.{BufferProcessor, messages, find_from, find_magic}
use emserver.Buffer.Search.{
  search, search_end, search_skip, search_miss, search_hit, find_from_zero,
}

-- Every announced size in the buffer leaves room for the frame around its payload.
abbrev pub AllSizesFit : Bytes → Type 0
AllSizesFit [] = Unit {0}
AllSizesFit (b ∷ d) = SizeFits (b ∷ d) × AllSizesFit d

AllSizesFit-append_right : (xs ys : Bytes) → AllSizesFit (xs ++ ys) → AllSizesFit ys
AllSizesFit-append_right [] ys h = h
AllSizesFit-append_right (x ∷ xs) ys h = AllSizesFit-append_right xs ys h.1

module _ (c : Checksum) where
  -- Nothing is extracted from the front of `d`.
  abbrev pub Silent : Bytes → Type 0
  Silent d =
      (why : ExtractionFailure) × (extract_from_raw_data c (some d) (length d) ≡ done (none, why))

  -- `Trace pre rest ms left`: with the marker behind `pre` and `rest` ahead, the loop finds `ms`
  -- and leaves `left`.
  pub data Trace : Bytes → Bytes → List BaseProtocol → Bytes → Type 0 where
    finish : {pre : Bytes} → Trace pre [] [] pre
    skip :
        {pre rest left : Bytes} {ms : List BaseProtocol} (b : ℕ)
        → b ≢ magic
        → Trace (pre ++ (b ∷ [])) rest ms left
        → Trace pre (b ∷ rest) ms left
    miss :
        {pre rest left : Bytes} {ms : List BaseProtocol}
        → Silent (magic ∷ rest)
        → Trace (pre ++ (magic ∷ [])) rest ms left
        → Trace pre (magic ∷ rest) ms left
    hit :
        {pre rest left : Bytes} {ms : List BaseProtocol} (b : BaseProtocol) (tail : Bytes)
        → IsFrameable b
        → rest ≡ frame c b ++ tail
        → Trace [] tail ms left
        → Trace pre rest (b ∷ ms) left

  frame-marked : (b : BaseProtocol) (tail : Bytes) → (d : Bytes) × (frame c b ++ tail ≡ magic ∷ d)
  unfolding frame covered
  frame-marked b tail = (_, refl)

  search-hit :
      (fuel : ℕ) (pre tail : Bytes) (ret : List BaseProtocol) (b : BaseProtocol)
      → IsFrameable b
      → search c (suc fuel) pre (frame c b ++ tail) ret ≡ search c fuel [] tail (ret ++ (b ∷ []))
  search-hit fuel pre tail ret b h =
      let (d, e) = frame-marked b tail in
      rw e (
        search_hit c fuel pre d (frame c b) tail ret b _ (rw e at (extract-frame c b tail h))
          (sym e) (full_size-length c b h))

  -- With fuel for every byte ahead and one round more, the loop does what the derivation says.
  pub search-Trace :
      {pre rest left : Bytes} {ms : List BaseProtocol} (fuel : ℕ) (ret : List BaseProtocol)
      → Trace pre rest ms left
      → length rest ≤ fuel
      → search c (suc fuel) pre rest ret ≡ done (ret ++ ms, left)
  search-Trace fuel ret finish h = search_end c fuel _ ret ∙ rw append-nil
  search-Trace fuel ret (skip {pre} {rest} b n t) h =
      search_skip c (suc fuel) pre b rest ret n ∙ search-Trace fuel ret t (omega arith)
  search-Trace fuel ret (miss {pre} {rest} (why, e) t) h =
      let more : suc (fuel - 1) ≡ fuel = omega arith in
      search_miss c fuel pre rest ret why e
      ∙ ap (λ k. search c k (pre ++ (magic ∷ [])) rest ret) (sym more)
      ∙ search-Trace (fuel - 1) ret t (omega arith)
  search-Trace fuel ret (hit {pre} {rest} {left} {ms} b tail f e t) h =
      let size : suc (length tail) ≤ fuel =
        omega (arith, ap length e, length-append (frame c b) tail, length-frame c b) in
      let more : suc (fuel - 1) ≡ fuel = omega arith in
      ap (λ d. search c (suc fuel) pre d ret) e
      ∙ search-hit fuel pre tail ret b f
      ∙ ap (λ k. search c k [] tail (ret ++ (b ∷ []))) (sym more)
      ∙ search-Trace (fuel - 1) (ret ++ (b ∷ [])) t (omega arith)
      ∙ ap (λ bs. done (bs, left)) (append_assoc ret (b ∷ []) ms)

  -- So a derivation over the whole buffer determines what `messages` returns.
  pub messages-Trace :
      {ms : List BaseProtocol} {left : Bytes} (p : BufferProcessor)
      → Trace [] p.processing_buffer ms left
      → messages c p ≡ done (ms, record { processing_buffer = left })
  unfolding messages search
  messages-Trace p t =
      let d = p.processing_buffer in
      let start : find_from d 0 ≡ 0 + find_magic d = omega (arith, find_from_zero d) in
      rw (start, search-Trace (length d) [] t (omega arith))

  split-Answers :
      (d : Bytes)
      → Answers (extract_from_raw_data c (some d) (length d))
      → Silent d
        ⊎ ((b : BaseProtocol) × (why : ExtractionFailure) × (extract_from_raw_data c
                (some d)
                (length d)
              ≡ done (some b, why)))
  split-Answers d ((none, why), e) = inl (why, e)
  split-Answers d ((some b, why), e) = inr (b, why, e)

  -- `n` bounds the bytes ahead.
  pub trace :
      (n : ℕ) (pre rest : Bytes)
      → length rest < n
      → length rest < 2 ^ 31
      → All IsByte rest
      → AllSizesFit rest
      → (ms : List BaseProtocol) × (left : Bytes) × Trace pre rest ms left
  trace zero pre rest h size bytes fits = absurd (omega arith)
  trace (suc n) pre [] h size bytes fits = ([], pre, finish)
  trace (suc n) pre (b ∷ d) h size bytes fits = elim (Bool-cases (b == magic)) [
    | inr other ↦
        let (ms, left, t) =
          trace n (pre ++ (b ∷ [])) d (omega arith) (omega arith) bytes.1 fits.1 in
        (ms, left, skip b (==→ne b magic other) t)
    | inl first ↦
        elim (split-Answers (b ∷ d) (extract-Answers c (b ∷ d) (omega arith) size fits.0)) [
          | inl (why, e) ↦
              let (ms, left, t) =
                trace n (pre ++ (magic ∷ [])) d (omega arith) (omega arith) bytes.1 fits.1 in
              let m = ==→eq b magic first in
              (
                ms,
                left,
                subst (λ x. Trace pre (x ∷ d) ms left) (sym m)
                    (miss
                      (
                        why,
                        subst
                            (λ x.
                              extract_from_raw_data c (some (x ∷ d)) (length (x ∷ d))
                              ≡ done (none, why))
                            m e,
                      )
                      t),
              )
          | inr (found, why, e) ↦
              let ((starts, small), _) = extract_sound c (b ∷ d) found why bytes e in
              let tail = drop (length (frame c found)) (b ∷ d) in
              let shorter = length-append (frame c found) tail in
              let (ms, left, t) =
                trace n [] tail (omega (arith, shorter, ap length starts, length-frame c found))
                  (omega (arith, shorter, ap length starts))
                  (All-drop IsByte (length (frame c found)) (b ∷ d) bytes)
                  (AllSizesFit-append_right (frame c found) tail (subst AllSizesFit starts fits)) in
              (found ∷ ms, left, hit found tail small starts t)
        ]
  ]
