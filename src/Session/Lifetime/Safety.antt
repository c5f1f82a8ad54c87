-- ===== src/Session/Lifetime/Safety.antt =====
-- When a session may be destroyed.
use emserver.Base.{
  ℕ, ◌≡◌, ◌≢◌, ◌⊎◌, inl, inr, refl, ap, List, [], ◌∷◌, ◌++◌, Option, none, some, Bool, true, Run,
  done, crash, Fault, use_after_free, self_join, go_on, Bytes, All, ErrorCode, operation_aborted,
  operation_not_supported, connection_aborted, other_error, Bool-cases,
}
use emserver.Session.Send.{
  Write, Holder, free, testing, entering, waiting, woken, Sender, connected, SendEvent, goes,
  times_out, handles, send_step, send_run, holder_goes, holder_times_out, handler_runs,
}
use emserver.Session.Read.{
  Reading, idle, reads_exactly, completed, stopped, ReadEvent, read_step, handle,
}
use emserver.Session.Read
use emserver.Session.Send.Channel.{IsSteady, connected-IsSending}
use emserver.Session.Send.Channel.Refines.{send_refines}
use emserver.Session.Send.Progress.{IsQuiet}
use emserver.Session.Lifetime.{
  Destroyer, io_thread, processing_thread, application_thread, aborted, close_socket, close_read,
  join_thread, destroy, Session, Life, alive, freed, LifeEvent, sends, reads, read_reports,
  destroys, touch, sender_moves, sending_step, report, read_handled, life_step, life_run,
}

-- handlerRead is not still to be called with an error on which it does more than return.
abbrev pub IsHarmless : Option ErrorCode → Type 0
IsHarmless none = Unit {0}
IsHarmless (some operation_aborted) = Unit {0}
IsHarmless (some _) = ⊥

-- handlerRead is not still to be called for bytes that have been read.
abbrev pub IsUnread : Reading → Type 0
IsUnread completed = ⊥
IsUnread _ = Unit {0}

-- Nothing is on its way from sendData to the end of handlerWrite, and no read has ended whose
-- handler is still to be called.
abbrev pub IsIdle : Session → Type 0
IsIdle s = IsQuiet s.sender × IsUnread s.reader.reading × IsHarmless s.failed

-- A freed session on whose address nothing but the handler of an aborted read is to be called.
abbrev IsBare : Life → Type 0
IsBare (alive s) = ⊥
IsBare (freed s) = IsIdle s

-- Where the destruction ends in a fault, that is the fault.
abbrev pub fault_of : Destroyer → Fault
fault_of processing_thread = self_join
fault_of _ = use_after_free

Stays : Run Life → Type 0
Stays r = (l : Life) × (r ≡ done l) × IsBare l

Holder-cases : (holder : Holder) → (holder ≡ free) ⊎ (holder ≢ free)
Holder-cases free = inl refl
Holder-cases (testing chunk) = inr (λ e. cc e)
Holder-cases (entering chunk) = inr (λ e. cc e)
Holder-cases (waiting chunk) = inr (λ e. cc e)
Holder-cases (woken chunk) = inr (λ e. cc e)

idle_cases :
    (ws : List Write) (hs : List (Option ErrorCode × ℕ))
    → ((ws ≡ []) × (hs ≡ [])) ⊎ (¬ ((ws ≡ []) × (hs ≡ [])))
idle_cases [] [] = inl (refl, refl)
idle_cases (w ∷ ws) hs = inr λ (e, _). cc e
idle_cases [] (h ∷ hs) = inr λ (_, e). cc e

module _ (consumes : Bool) (prepare : Bytes → Bytes) where
  -- What the destructor leaves.
  abbrev pub left_of : Session → Session
  left_of s = record s {
    sender = close_socket s.sender;
    failed = close_read s.reader.reading s.failed;
  }

  -- That a destruction ends in a fault, at once or in something that is called afterwards.
  abbrev pub Faults : Destroyer → Session → Type 0
  Faults d s =
      (es : List LifeEvent) × (life_run consumes prepare (destroys d ∷ es) (alive s)
        ≡ some (crash (fault_of d)))

  after-Faults :
      (d : Destroyer) (s : Session) (e : LifeEvent)
      → life_step consumes prepare e (freed (left_of s)) ≡ some (crash use_after_free)
      → Faults d s
  unfolding life_run life_step destroy join_thread
  after-Faults processing_thread s e h = ([], refl)
  after-Faults io_thread s e h = (e ∷ [], ap (λ o. go_on o (life_run consumes prepare [])) h)
  after-Faults application_thread s e h =
      (e ∷ [], ap (λ o. go_on o (life_run consumes prepare [])) h)

  close_socket-holder : (s : Sender) → (close_socket s).holder ≡ s.holder
  unfolding close_socket
  close_socket-holder s = elim (Bool-cases s.is_open) [ inl yes_ ↦ rw yes_ | inr no_ ↦ rw no_ ]

  -- The thread that is inside sendData goes on, or its wait times out.
  inside-Faults :
      (d : Destroyer) (s : Session) (holder : Holder)
      → s.sender.holder ≡ holder
      → holder ≢ free
      → Faults d s
  unfolding life_step sending_step sender_moves touch send_step holder_goes holder_times_out
  inside-Faults d s free e h = absurd (h refl)
  inside-Faults d s (testing chunk) e h =
      after-Faults d s (sends goes) (rw (close_socket-holder s.sender, e) refl)
  inside-Faults d s (entering chunk) e h =
      after-Faults d s (sends goes) (rw (close_socket-holder s.sender, e) refl)
  inside-Faults d s (woken chunk) e h =
      after-Faults d s (sends goes) (rw (close_socket-holder s.sender, e) refl)
  inside-Faults d s (waiting chunk) e h =
      after-Faults d s (sends times_out) (rw (close_socket-holder s.sender, e) refl)

  handler-Faults :
      (d : Destroyer) (s : Session) (h : Option ErrorCode × ℕ) (hs : List (Option ErrorCode × ℕ))
      → (close_socket s.sender).handlers ≡ h ∷ hs
      → Faults d s
  unfolding life_step sending_step sender_moves touch send_step handler_runs
  handler-Faults d s h hs e = after-Faults d s (sends handles) (rw e refl)

  completed-Faults : (d : Destroyer) (s : Session) → s.reader.reading ≡ completed → Faults d s
  unfolding life_step read_handled touch read_step handle
  completed-Faults d s e = after-Faults d s (reads Read.handles) (rw e refl)

  close_read-some :
      (reading : Reading) (code : ErrorCode) → close_read reading (some code) ≡ some code
  unfolding close_read
  close_read-some idle code = refl
  close_read-some (reads_exactly n) code = refl
  close_read-some completed code = refl
  close_read-some stopped code = refl

  reported-Faults :
      (d : Destroyer) (s : Session) (code : ErrorCode)
      → s.failed ≡ some code
      → code ≢ operation_aborted
      → Faults d s
  unfolding life_step report touch
  reported-Faults d s operation_aborted e h = absurd (h refl)
  reported-Faults d s operation_not_supported e h =
      after-Faults d s read_reports
        (rw (e, close_read-some s.reader.reading operation_not_supported) refl)
  reported-Faults d s connection_aborted e h =
      after-Faults d s read_reports
        (rw (e, close_read-some s.reader.reading connection_aborted) refl)
  reported-Faults d s (other_error n) e h =
      after-Faults d s read_reports (rw (e, close_read-some s.reader.reading (other_error n)) refl)

  busy_sender :
      (d : Destroyer) (s : Session) (ws : List Write) (hs : List (Option ErrorCode × ℕ))
      → s.sender.is_open ≡ true
      → s.sender.writes ≡ ws
      → s.sender.handlers ≡ hs
      → ¬ ((s.sender.writes ≡ []) × (s.sender.handlers ≡ []))
      → Faults d s
  unfolding close_socket aborted
  busy_sender d s [] [] opened ew eh busy = absurd (busy (ew, eh))
  busy_sender d s (w ∷ ws) [] opened ew eh busy =
      handler-Faults d s (some operation_aborted, w.gone) (aborted ws) (rw (opened, eh, ew))
  busy_sender d s ws (h ∷ hs) opened ew eh busy =
      handler-Faults d s h (hs ++ aborted ws) (rw (opened, eh, ew))

  busy_reader :
      (d : Destroyer) (s : Session) (reading : Reading) (failed : Option ErrorCode)
      → s.reader.reading ≡ reading
      → s.failed ≡ failed
      → ¬ (IsUnread reading × IsHarmless failed)
      → Faults d s
  busy_reader d s completed failed er ef busy = completed-Faults d s er
  busy_reader d s reading (some operation_not_supported) er ef busy =
      reported-Faults d s _ ef (λ e. cc e)
  busy_reader d s reading (some connection_aborted) er ef busy =
      reported-Faults d s _ ef (λ e. cc e)
  busy_reader d s reading (some (other_error n)) er ef busy = reported-Faults d s _ ef (λ e. cc e)
  busy_reader d s idle none er ef busy = absurd (busy (tt, tt))
  busy_reader d s (reads_exactly n) none er ef busy = absurd (busy (tt, tt))
  busy_reader d s stopped none er ef busy = absurd (busy (tt, tt))
  busy_reader d s idle (some operation_aborted) er ef busy = absurd (busy (tt, tt))
  busy_reader d s (reads_exactly n) (some operation_aborted) er ef busy = absurd (busy (tt, tt))
  busy_reader d s stopped (some operation_aborted) er ef busy = absurd (busy (tt, tt))

  -- A session that is not idle, its sender left by any steady run, or that is destroyed by its own
  -- processing thread, may not be destroyed. In its own thread the destructor joins the thread that
  -- runs it; in any other, there is something that can be called afterwards, a step of the thread
  -- inside sendData, handlerWrite, or handlerRead, that uses a member of the destroyed session.
  pub busy_destroyed :
      (sent : List SendEvent) (s : Session) (d : Destroyer)
      → All IsSteady sent
      → send_run consumes prepare sent connected ≡ some s.sender
      → (d ≡ processing_thread) ⊎ (¬ IsIdle s)
      → (es : List LifeEvent) × (life_run consumes prepare (destroys d ∷ es) (alive s)
          ≡ some (crash (fault_of d)))
  unfolding life_run life_step destroy join_thread
  busy_destroyed sent s d steady ran (inl own) = ([], rw own)
  busy_destroyed sent s d steady ran (inr busy) =
      let (p, _) =
        send_refines consumes prepare sent connected s.sender steady connected-IsSending ran in
      elim (Holder-cases s.sender.holder) [
        | inr inside ↦ inside-Faults d s s.sender.holder refl inside
        | inl no_holder ↦ elim (idle_cases s.sender.writes s.sender.handlers) [
          | inr sending ↦ busy_sender d s s.sender.writes s.sender.handlers p.0 refl refl sending
          | inl (no_writes, no_handlers) ↦
              busy_reader d s s.reader.reading s.failed refl refl
                λ (unread, harmless). busy ((no_holder, no_writes, no_handlers), unread, harmless)
        ]
      ]
