-- ===== src/Session/Send/Progress/Finishes.antt =====
-- What is sent gets onto the wire: nothing waits for ever, also where a notification comes before
-- the thread waits for it.
use emserver.Base.{
  ℕ, ◌+◌, ◌≡◌, refl, subst, sym, ap, ◌∙◌, List, [], ◌∷◌, ◌++◌, append-nil, map, flatten, length,
  take, drop, drop-length, Option, none, some, Bool, true, false, ◌&&◌, Bytes, leb, ltb, All, arith,
  ErrorCode, Bool-cases, inl, inr, if_eq_true, eq_nil_of_length,
}
use emserver.Session.Send.{
  Write, Holder, free, testing, entering, waiting, woken, Sender, connected, SendEvent, goes,
  times_out, transmits, completes, handles, begin_write, notified, holder_goes, holder_times_out,
  socket_takes, handler_runs, write_completes, send_step, send_run,
}
use emserver.Session.Send.Channel.{channel, IsSteady, Phase, at, connected-IsSending}
use emserver.Session.Send.Channel.Refines.{send_refines}
use emserver.Session.Send.Progress.{
  strings, total, total-run, IsOwn, IsQuiet, quiet_total, sent_total,
}

module _ (consumes : Bool) (prepare : Bytes → Bytes) where
  abbrev pub Finishes : Sender → Type 0
  Finishes s =
      (es : List SendEvent) × (s' : Sender) × All IsOwn es
      × (send_run consumes prepare es s ≡ some s')
      × IsQuiet s'

  by_event :
      (e : SendEvent) (s t : Sender)
      → IsOwn e
      → send_step consumes prepare e s ≡ some t
      → Finishes t
      → Finishes s
  unfolding send_run
  by_event e s t own stepped (es, s', owns, ran, quiet) =
      (e ∷ es, s', (own, owns), rw (stepped, send_run) ran, quiet)

  -- An idle sender without a thread has finished.
  idle_free :
      (stream wire : Bytes) (errors : List ErrorCode)
      → Finishes (at stream false [] [] free wire errors)
  unfolding send_run
  idle_free stream wire errors =
      ([], at stream false [] [] free wire errors, tt, refl, (refl, refl, refl))

  -- What is left to do once the write that is under way has ended.
  abbrev After : Holder → Type 0
  After holder =
      (stream wire : Bytes) (errors : List ErrorCode)
      → Finishes (at stream false [] [] (notified holder) wire errors)

  finish_sent :
      (gone : ℕ) (holder : Holder) (stream wire : Bytes) (errors : List ErrorCode)
      → After holder
      → Finishes (at stream true (record { gone = gone; left = [] } ∷ []) [] holder wire errors)
  unfolding send_step write_completes handler_runs
  finish_sent gone holder stream wire errors next =
      by_event completes _ _ tt refl (by_event handles _ _ tt refl (next _ wire _))

  finish_write :
      (w : Write) (holder : Holder) (stream wire : Bytes) (errors : List ErrorCode)
      → After holder
      → Finishes (at stream true (w ∷ []) [] holder wire errors)
  unfolding send_step socket_takes
  finish_write w holder stream wire errors next = elim (Bool-cases (ltb 0 (length w.left))) [
    | inl some_left ↦
        by_event (transmits (length w.left)) _
          (at stream true
            (record { gone = w.gone + length w.left; left = drop (length w.left) w.left } ∷ []) []
            holder (wire ++ take (length w.left) w.left) errors)
          tt
          (if_eq_true {b = ltb 0 (length w.left) && leb (length w.left) (length w.left)} _ _
            (ground arith))
          (rw (drop-length w.left)
            (finish_sent (w.gone + length w.left) holder stream _ errors next))
    | inr none_left ↦
        let sent : w.left ≡ [] = eq_nil_of_length w.left (ground arith) in
        subst
          (λ l.
            Finishes
              (at stream true (record { gone = w.gone; left = l } ∷ []) [] holder wire errors))
          (sym sent) (finish_sent w.gone holder stream wire errors next)
  ]

  -- A free thread, and one whose write begins as it goes on.
  free-After : After free
  unfolding notified
  free-After stream wire errors = idle_free stream wire errors

  begun :
      (chunk stream wire : Bytes) (errors : List ErrorCode)
      → Finishes (begin_write chunk (at stream false [] [] free wire errors))
  unfolding begin_write
  begun chunk stream wire errors = finish_write _ free _ wire errors free-After

  idle_testing :
      (chunk stream wire : Bytes) (errors : List ErrorCode)
      → Finishes (at stream false [] [] (testing chunk) wire errors)
  unfolding send_step holder_goes begin_write
  idle_testing chunk stream wire errors =
      by_event goes _ (begin_write chunk (at stream false [] [] free wire errors)) tt refl
        (begun chunk stream wire errors)

  idle_waiting :
      (chunk stream wire : Bytes) (errors : List ErrorCode)
      → Finishes (at stream false [] [] (waiting chunk) wire errors)
  unfolding send_step holder_times_out
  idle_waiting chunk stream wire errors =
      by_event times_out _ _ tt refl (idle_testing chunk stream wire errors)

  -- A sender whose write has ended: the notification of a thread that has yet to wait is lost, and
  -- it goes on when its wait times out.
  idle-Finishes :
      (holder : Holder) (stream wire : Bytes) (errors : List ErrorCode)
      → Finishes (at stream false [] [] holder wire errors)
  unfolding send_step holder_goes begin_write
  idle-Finishes free stream wire errors = idle_free stream wire errors
  idle-Finishes (testing chunk) stream wire errors = idle_testing chunk stream wire errors
  idle-Finishes (entering chunk) stream wire errors =
      by_event goes _ _ tt refl (idle_waiting chunk stream wire errors)
  idle-Finishes (waiting chunk) stream wire errors = idle_waiting chunk stream wire errors
  idle-Finishes (woken chunk) stream wire errors =
      by_event goes _ (begin_write chunk (at stream false [] [] free wire errors)) tt refl
        (begun chunk stream wire errors)

  opened-Finishes :
      (ws : List Write) (hs : List (Option ErrorCode × ℕ)) (holder : Holder) (mode : Bool)
      (stream wire : Bytes) (errors : List ErrorCode)
      → Phase ws hs holder mode stream
      → Finishes (at stream mode ws hs holder wire errors)
  unfolding send_step handler_runs
  opened-Finishes [] [] holder false stream wire errors p = idle-Finishes holder stream wire errors
  opened-Finishes (w ∷ []) [] holder true stream wire errors p =
      finish_write w holder stream wire errors (idle-Finishes (notified holder))
  opened-Finishes [] ((none, n) ∷ []) holder true stream wire errors p =
      by_event handles _ _ tt refl (idle-Finishes (notified holder) _ wire _)
  opened-Finishes [] [] holder true stream wire errors p = absurd (cc p.0)
  opened-Finishes (w ∷ []) [] holder false stream wire errors p = absurd (cc p.0)
  opened-Finishes [] ((none, n) ∷ []) holder false stream wire errors p = absurd (cc p.0)
  opened-Finishes _ _ holder mode stream wire errors p = absurd p

  strings-own : (es : List SendEvent) → All IsOwn es → (strings es ≡ []) × All IsSteady es
  strings-own [] h = (refl, tt)
  strings-own (goes ∷ es) h =
      let (none_sent, steady) = strings-own es h.1 in (none_sent, (tt, steady))
  strings-own (times_out ∷ es) h =
      let (none_sent, steady) = strings-own es h.1 in (none_sent, (tt, steady))
  strings-own (transmits n ∷ es) h =
      let (none_sent, steady) = strings-own es h.1 in (none_sent, (tt, steady))
  strings-own (completes ∷ es) h =
      let (none_sent, steady) = strings-own es h.1 in (none_sent, (tt, steady))
  strings-own (handles ∷ es) h =
      let (none_sent, steady) = strings-own es h.1 in (none_sent, (tt, steady))
  strings-own (_ ∷ es) h = absurd h.0

  -- Wherever a steady run has come to, it can come to rest without a further call, failure or
  -- unfounded end of a wait, and then everything that was sent is on the wire.
  pub send_finishes :
      (es : List SendEvent) (s : Sender)
      → All IsSteady es
      → send_run consumes prepare es connected ≡ some s
      → (fs : List SendEvent) × (s' : Sender) × All IsOwn fs
        × (send_run consumes prepare fs s ≡ some s')
        × IsQuiet s'
        × (s'.wire ≡ flatten (map prepare (strings es)))
  send_finishes es s h ran =
      let (p, _) = send_refines consumes prepare es connected s h connected-IsSending ran in
      let same : s ≡ at s.stream_send s.in_send_mode s.writes s.handlers s.holder s.wire s.errors =
        ap (λ b. record s { is_open = b }) p.0 in
      let (fs, s', own, ran', quiet) = subst Finishes (sym same) (
        opened-Finishes s.writes s.handlers s.holder s.in_send_mode s.stream_send s.wire s.errors
          p.1) in
      let (none_sent, steady) = strings-own fs own in
      let (_, seen) = send_refines consumes prepare fs s s' steady p ran' in
      (
        fs,
        s',
        own,
        ran',
        quiet,
        sym (quiet_total consumes prepare s' quiet)
            ∙ ap total seen
            ∙ total-run prepare fs (channel s)
            ∙ ap (λ t. total (channel s) ++ flatten (map prepare t)) none_sent
            ∙ append-nil (total (channel s))
            ∙ sent_total consumes prepare es s h ran,
      )
