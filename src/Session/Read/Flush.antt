-- ===== src/Session/Read/Flush.antt =====
-- What has arrived is handed on without further bytes.
use emserver.Base.{
  ℕ, ◌≤◌, ◌≡◌, ◌≢◌, inl, inr, refl, sym, ap, ◌∙◌, List, [], ◌∷◌, ◌++◌, append-nil, All, flatten,
  length, take, drop, drop-length, some, Bytes, leb, if_eq_true, arith, ErrorCode,
}
use emserver.Session.Read.{
  Reading, idle, reads_exactly, completed, stopped, Reader, opened, ReadEvent, waits, transfers,
  handles, wait_reading, transfer, handler_read, handle, read_step, read_run,
}
use emserver.Session.Read.Fifo.{arrivals, all_bytes, IsSettled, read_in_order, opened-IsSettled}

-- The session's own doing: no bytes arrive, and nothing fails.
abbrev pub IsOwn : ReadEvent → Type 0
IsOwn waits = Unit {0}
IsOwn transfers = Unit {0}
IsOwn handles = Unit {0}
IsOwn _ = ⊥

-- Everything has been handed on, and the session waits for the next byte.
abbrev pub IsFlushed : Reader → Type 0
IsFlushed r = (r.arrived ≡ []) × (r.buffer ≡ []) × (r.reading ≡ reads_exactly 1)

abbrev Flushes : Reader → Type 0
Flushes r =
    (es : List ReadEvent) × (r' : Reader) × All IsOwn es × (read_run es r ≡ some r') × IsFlushed r'

by_event : (e : ReadEvent) (r t : Reader) → IsOwn e → read_step e r ≡ some t → Flushes t → Flushes r
unfolding read_run
by_event e r t own stepped (es, r', owns, ran, flushed) =
    (e ∷ es, r', (own, owns), rw (stepped, read_run) ran, flushed)

flushed : (r : Reader) → IsFlushed r → Flushes r
unfolding read_run
flushed r h = ([], r, tt, refl, h)

-- A reader by its members.
abbrev at : Bytes → Bytes → Reading → List Bytes → List ErrorCode → Reader
at arrived buffer reading handed errors = record {
  arrived = arrived;
  buffer = buffer;
  reading = reading;
  handed = handed;
  errors = errors;
}

flush_last :
    (buffer : Bytes) (handed : List Bytes) (errors : List ErrorCode)
    → Flushes (at [] buffer completed handed errors)
unfolding read_step handle handler_read
flush_last buffer handed errors =
    by_event handles _ _ tt refl
      (flushed (at [] [] (reads_exactly 1) (handed ++ (buffer ∷ [])) errors) (refl, refl, refl))

flush_exactly :
    (arrived buffer : Bytes) (handed : List Bytes) (errors : List ErrorCode)
    → Flushes (at arrived buffer (reads_exactly (length arrived)) handed errors)
unfolding read_step transfer
flush_exactly arrived buffer handed errors =
    by_event transfers _
      (at (drop (length arrived) arrived) (buffer ++ take (length arrived) arrived) completed handed
        errors)
      tt (if_eq_true {b = leb (length arrived) (length arrived)} _ _ (ground arith))
      (rw (drop-length arrived)
        (flush_last (buffer ++ take (length arrived) arrived) handed errors))

flush_completed :
    (arrived buffer : Bytes) (handed : List Bytes) (errors : List ErrorCode)
    → Flushes (at arrived buffer completed handed errors)
unfolding read_step handle handler_read
flush_completed [] buffer handed errors = flush_last buffer handed errors
flush_completed (b ∷ bs) buffer handed errors =
    by_event handles _ (at (b ∷ bs) buffer (reads_exactly (length (b ∷ bs))) handed errors) tt
      (ground arith) (flush_exactly (b ∷ bs) buffer handed errors)

flush_enough :
    (n : ℕ) (arrived buffer : Bytes) (handed : List Bytes) (errors : List ErrorCode)
    → n ≤ length arrived
    → Flushes (at arrived buffer (reads_exactly n) handed errors)
unfolding read_step transfer
flush_enough n arrived buffer handed errors fits =
    by_event transfers _ _ tt (if_eq_true {b = leb n (length arrived)} _ _ (ground arith))
      (flush_completed _ _ handed errors)

flush_idle :
    (n : ℕ) (arrived : Bytes) (handed : List Bytes) (errors : List ErrorCode)
    → n ≡ 1
    → Flushes (at arrived [] (reads_exactly n) handed errors)
flush_idle n [] handed errors one =
    flushed (at [] [] (reads_exactly n) handed errors) (refl, refl, ap reads_exactly one)
flush_idle n (b ∷ bs) handed errors one = flush_enough n (b ∷ bs) [] handed errors (omega arith)

flush :
    (reading : Reading) (arrived buffer : Bytes) (handed : List Bytes) (errors : List ErrorCode)
    → reading ≢ stopped
    → IsSettled (at arrived buffer reading handed errors)
    → Flushes (at arrived buffer reading handed errors)
unfolding read_step wait_reading
flush idle arrived buffer handed errors h s =
    rw s (by_event waits _ _ tt refl (flush_idle 1 arrived handed errors refl))
flush (reads_exactly n) arrived buffer handed errors h (pos, inl (one, none_kept)) =
    rw none_kept (flush_idle n arrived handed errors one)
flush (reads_exactly n) arrived buffer handed errors h (pos, inr fits) =
    flush_enough n arrived buffer handed errors fits
flush completed arrived buffer handed errors h s = flush_completed arrived buffer handed errors
flush stopped arrived buffer handed errors h s = absurd (h refl)

flushed_bytes : (r : Reader) → IsFlushed r → all_bytes r ≡ flatten r.handed
flushed_bytes r (a, b, _) = simp (a, b, append-nil) refl

arrivals-own : (es : List ReadEvent) → All IsOwn es → arrivals es ≡ []
arrivals-own [] h = refl
arrivals-own (waits ∷ es) h = arrivals-own es h.1
arrivals-own (transfers ∷ es) h = arrivals-own es h.1
arrivals-own (handles ∷ es) h = arrivals-own es h.1
arrivals-own (_ ∷ es) h = absurd h.0

-- A connection that has handed on everything has handed on the bytes that have arrived.
pub flushed_arrivals :
    (es : List ReadEvent) (r : Reader)
    → read_run es opened ≡ some r
    → IsFlushed r
    → flatten r.handed ≡ arrivals es
flushed_arrivals es r ran h =
    let (_, all) = read_in_order es opened r opened-IsSettled ran in
    sym (flushed_bytes r h) ∙ all ∙ (unfold opened in refl)

-- Wherever a connection that has not failed has come to, it hands on all the bytes that have
-- arrived without waiting for another one.
pub read_flushes :
    (es : List ReadEvent) (r : Reader)
    → read_run es opened ≡ some r
    → r.reading ≢ stopped
    → (fs : List ReadEvent) × (r' : Reader) × All IsOwn fs
      × (read_run fs r ≡ some r')
      × IsFlushed r'
      × (flatten r'.handed ≡ arrivals es)
read_flushes es r ran running =
    let (settled, all) = read_in_order es opened r opened-IsSettled ran in
    let (fs, r', own, ran', done_) =
      flush r.reading r.arrived r.buffer r.handed r.errors running settled in
    let (_, all') = read_in_order fs r r' settled ran' in
    (
      fs,
      r',
      own,
      ran',
      done_,
      sym (flushed_bytes r' done_)
          ∙ all'
          ∙ ap (λ t. all_bytes r ++ t) (arrivals-own fs own)
          ∙ append-nil (all_bytes r)
          ∙ all
          ∙ (unfold opened in refl),
    )
