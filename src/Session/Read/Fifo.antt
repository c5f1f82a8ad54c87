-- ===== src/Session/Read/Fifo.antt =====
-- What the reader hands on is what has arrived, and it hands on all of it.
use emserver.Base.{
  ◌≤◌, ◌<◌, ◌≡◌, ◌⊎◌, inl, inr, refl, subst, sym, ap, ◌∙◌, List, [], ◌∷◌, ◌++◌, append-nil,
  append_assoc, flatten, flatten-append_one, length, length-append, take-append-drop,
  eq_nil_of_length, Option, none, some, Bytes, leb, ◌==◌, Bool-cases, some-injective, if_some,
  arith, ErrorCode,
}
use emserver.Session.Read.{
  Reading, idle, reads_exactly, completed, stopped, Reader, opened, ReadEvent, waits, arrives,
  transfers, fails, handles, wait_reading, transfer, fail, handler_read, handle, read_step,
  read_run,
}

abbrev pub arrivals : List ReadEvent → Bytes
arrivals [] = []
arrivals (arrives bs ∷ es) = bs ++ arrivals es
arrivals (_ ∷ es) = arrivals es

-- All the bytes that have got to the connection, wherever they are.
abbrev pub all_bytes : Reader → Bytes
all_bytes r = flatten r.handed ++ (r.buffer ++ r.arrived)

-- Nothing in m_buffer waits for bytes that have not arrived.
abbrev Settled : Reading → Bytes → Bytes → Type 0
Settled idle buffer arrived = buffer ≡ []
Settled (reads_exactly n) buffer arrived =
    (0 < n) × (((n ≡ 1) × (buffer ≡ [])) ⊎ (n ≤ length arrived))
Settled completed buffer arrived = Unit {0}
Settled stopped buffer arrived = Unit {0}

abbrev pub IsSettled : Reader → Type 0
IsSettled r = Settled r.reading r.buffer r.arrived

abbrev Kept : ReadEvent → Reader → Reader → Type 0
Kept e r r' = IsSettled r' × (all_bytes r' ≡ all_bytes r ++ arrivals (e ∷ []))

transfer-Kept :
    (reading : Reading) (r r' : Reader)
    → transfer reading r ≡ some r'
    → r.reading ≡ reading
    → Kept transfers r r'
unfolding transfer
transfer-Kept (reads_exactly n) r r' e same =
    let (fits, is) = if_some (leb n (length r.arrived)) _ r' e in
    subst (Kept transfers r) is
      (tt, simp (append-nil, append_assoc, take-append-drop n r.arrived) refl)
transfer-Kept idle r r' e same = absurd (cc e)
transfer-Kept completed r r' e same = absurd (cc e)
transfer-Kept stopped r r' e same = absurd (cc e)

handler_read-Kept : (r : Reader) → Kept handles r (handler_read r)
unfolding handler_read
handler_read-Kept r = elim (Bool-cases (length r.arrived == 0)) [
  | inl none_left ↦
      let empty : r.arrived ≡ [] = eq_nil_of_length r.arrived (ground arith) in
      simp (empty, append-nil, flatten-append_one) ((omega arith, inl (refl, refl)), refl)
  | inr some_left ↦
      rw some_left ((ground arith, inr (ground arith)), sym (append-nil (all_bytes r)))
]

handle-Kept : (reading : Reading) (r r' : Reader) → handle reading r ≡ some r' → Kept handles r r'
unfolding handle handler_read
handle-Kept completed r r' e = subst (Kept handles r) (some-injective e) (handler_read-Kept r)
handle-Kept idle r r' e = absurd (cc e)
handle-Kept (reads_exactly n) r r' e = absurd (cc e)
handle-Kept stopped r r' e = absurd (cc e)

waits-Kept :
    (reading : Reading) (r r' : Reader)
    → wait_reading reading r ≡ some r'
    → Settled reading r.buffer r.arrived
    → Kept waits r r'
unfolding wait_reading
waits-Kept idle r r' e none_kept =
    subst (Kept waits r) (some-injective e)
      ((omega arith, inl (refl, none_kept)), sym (append-nil (all_bytes r)))
waits-Kept (reads_exactly n) r r' e h = absurd (cc e)
waits-Kept completed r r' e h = absurd (cc e)
waits-Kept stopped r r' e h = absurd (cc e)

fail-Kept :
    (code : ErrorCode) (reading : Reading) (r r' : Reader)
    → fail code reading r ≡ some r'
    → Kept (fails code) r r'
unfolding fail
fail-Kept code (reads_exactly n) r r' e =
    subst (Kept (fails code) r) (some-injective e) (tt, sym (append-nil (all_bytes r)))
fail-Kept code idle r r' e = absurd (cc e)
fail-Kept code completed r r' e = absurd (cc e)
fail-Kept code stopped r r' e = absurd (cc e)

Settled-append :
    (reading : Reading) (buffer arrived bs : Bytes)
    → Settled reading buffer arrived
    → Settled reading buffer (arrived ++ bs)
Settled-append idle buffer arrived bs h = h
Settled-append (reads_exactly n) buffer arrived bs (pos, inl h) = (pos, inl h)
Settled-append (reads_exactly n) buffer arrived bs (pos, inr h) =
    (pos, inr (omega (arith, length-append arrived bs)))
Settled-append completed buffer arrived bs h = tt
Settled-append stopped buffer arrived bs h = tt

step-Kept : (e : ReadEvent) (r r' : Reader) → IsSettled r → read_step e r ≡ some r' → Kept e r r'
unfolding read_step
step-Kept waits r r' h e = waits-Kept r.reading r r' e h
step-Kept (arrives bs) r r' h e =
    subst (Kept (arrives bs) r) (some-injective e)
      (Settled-append r.reading r.buffer r.arrived bs h, simp (append-nil, append_assoc) refl)
step-Kept transfers r r' h e = transfer-Kept r.reading r r' e refl
step-Kept (fails code) r r' h e = fail-Kept code r.reading r r' e
step-Kept handles r r' h e = handle-Kept r.reading r r' e

arrivals-cons :
    (e : ReadEvent) (es : List ReadEvent) → arrivals (e ∷ es) ≡ arrivals (e ∷ []) ++ arrivals es
arrivals-cons (arrives bs) es = ap (λ t. t ++ arrivals es) (sym (append-nil bs))
arrivals-cons waits es = refl
arrivals-cons transfers es = refl
arrivals-cons (fails code) es = refl
arrivals-cons handles es = refl

read_run-cons :
    (e : ReadEvent) (es : List ReadEvent) (r r' : Reader)
    → read_run (e ∷ es) r ≡ some r'
    → (t : Reader) × (read_step e r ≡ some t) × (read_run es t ≡ some r')
unfolding read_run
read_run-cons e es r r' ran = found (read_step e r) refl ran
  where
    found :
        (o : Option Reader)
        → read_step e r ≡ o
        → elim o [ none ↦ none | some t ↦ read_run es t ] ≡ some r'
        → (t : Reader) × (read_step e r ≡ some t) × (read_run es t ≡ some r')
    found none stepped ran' = absurd (cc ran')
    found (some t) stepped ran' = (t, stepped, ran')

-- In whatever pieces the bytes arrive and the reads complete: the chunks that are handed on, what
-- stands in the session's buffer and what is still in the kernel's are the bytes that have arrived,
-- each once and in their order; and the session's buffer never waits for bytes to come.
pub read_in_order :
    (es : List ReadEvent) (r r' : Reader)
    → IsSettled r
    → read_run es r ≡ some r'
    → IsSettled r' × (all_bytes r' ≡ all_bytes r ++ arrivals es)
unfolding read_run
read_in_order [] r r' h ran =
    subst (λ t. IsSettled t × (all_bytes t ≡ all_bytes r ++ [])) (some-injective ran)
      (h, sym (append-nil (all_bytes r)))
read_in_order (e ∷ es) r r' h ran =
    let (t, stepped, ran') = read_run-cons e es r r' ran in
    let (h', first) = step-Kept e r t h stepped in
    let (q, all) = read_in_order es t r' h' ran' in
    (
      q,
      all
          ∙ ap (λ u. u ++ arrivals es) first
          ∙ append_assoc (all_bytes r) (arrivals (e ∷ [])) (arrivals es)
          ∙ ap (λ u. all_bytes r ++ u) (sym (arrivals-cons e es)),
    )

pub opened-IsSettled : IsSettled opened
unfolding opened
opened-IsSettled = refl
