-- ===== src/Session/Send/Progress.antt =====
-- What is on the wire when everything has come to rest.
pub mod Finishes
use emserver.Base.{
  ℕ, ◌+◌, ◌≡◌, refl, subst, sym, ap, ◌∙◌, List, [], ◌∷◌, ◌++◌, append-nil, append_assoc, map,
  flatten, length, take, drop, take-append-drop, drop-length, Option, none, some, Bool, true, false,
  ◌&&◌, Bytes, leb, ltb, All, arith, ErrorCode, Bool-cases, inl, inr, if_eq_true, eq_nil_of_length,
}
use mathlib.Core.List.{map-append}
use emserver.Session.Send.{
  Write, Holder, free, testing, entering, waiting, woken, Sender, connected, SendEvent, calls, goes,
  times_out, wakes, transmits, completes, fails, handles, begin_write, notified, holder_goes,
  holder_times_out, socket_takes, handler_runs, write_completes, send_step, send_run,
}
use emserver.Session.Send.Channel.{
  Channel, channel, channel_step, channel_run, IsSteady, Phase, at, connected-IsSending,
}
use emserver.Session.Send.Channel.Refines.{send_refines}

-- The strings that are given to sendData.
abbrev pub strings : List SendEvent → List Bytes
strings [] = []
strings (calls str ∷ es) = str ∷ strings es
strings (_ ∷ es) = strings es

-- Everything that has been sent, carried or not.
abbrev pub total : Channel → Bytes
total ch = ch.carried ++ ch.pending

module _ (prepare : Bytes → Bytes) where
  flatten-append : (xss yss : List Bytes) → flatten (xss ++ yss) ≡ flatten xss ++ flatten yss
  flatten-append [] yss = refl
  flatten-append (xs ∷ xss) yss = simp (flatten-append xss yss, append_assoc)

  total-step :
      (e : SendEvent) (ch : Channel)
      → total (channel_step prepare e ch) ≡ total ch ++ flatten (map prepare (strings (e ∷ [])))
  unfolding channel_step
  total-step (calls str) ch = simp (append-nil, append_assoc) refl
  total-step (transmits n) ch = simp (append-nil, append_assoc, take-append-drop n ch.pending) refl
  total-step goes ch = sym (append-nil (total ch))
  total-step times_out ch = sym (append-nil (total ch))
  total-step wakes ch = sym (append-nil (total ch))
  total-step completes ch = sym (append-nil (total ch))
  total-step (fails code) ch = sym (append-nil (total ch))
  total-step handles ch = sym (append-nil (total ch))

  strings-cons :
      (e : SendEvent) (es : List SendEvent) → strings (e ∷ es) ≡ strings (e ∷ []) ++ strings es
  strings-cons (calls str) es = refl
  strings-cons (transmits n) es = refl
  strings-cons goes es = refl
  strings-cons times_out es = refl
  strings-cons wakes es = refl
  strings-cons completes es = refl
  strings-cons (fails code) es = refl
  strings-cons handles es = refl

  pub total-run :
      (es : List SendEvent) (ch : Channel)
      → total (channel_run prepare es ch) ≡ total ch ++ flatten (map prepare (strings es))
  unfolding channel_run
  total-run [] ch = sym (append-nil (total ch))
  total-run (e ∷ es) ch =
      let old = flatten (map prepare (strings (e ∷ []))) in
      let new = flatten (map prepare (strings es)) in
      let together : old ++ new ≡ flatten (map prepare (strings (e ∷ es))) =
        sym (flatten-append (map prepare (strings (e ∷ []))) (map prepare (strings es)))
        ∙ ap flatten (sym (map-append prepare (strings (e ∷ [])) (strings es)))
        ∙ ap (λ t. flatten (map prepare t)) (sym (strings-cons e es)) in
      total-run es (channel_step prepare e ch)
      ∙ ap (λ t. t ++ new) (total-step e ch)
      ∙ append_assoc (total ch) old new
      ∙ ap (λ t. total ch ++ t) together

-- A thread, the socket or a handler goes on; nobody sends, and nothing goes wrong.
abbrev pub IsOwn : SendEvent → Type 0
IsOwn goes = Unit {0}
IsOwn times_out = Unit {0}
IsOwn (transmits n) = Unit {0}
IsOwn completes = Unit {0}
IsOwn handles = Unit {0}
IsOwn _ = ⊥

-- No thread is in sendData, and no write is under way.
abbrev pub IsQuiet : Sender → Type 0
IsQuiet s = (s.holder ≡ free) × (s.writes ≡ []) × (s.handlers ≡ [])

module _ (consumes : Bool) (prepare : Bytes → Bytes) where
  pub quiet_total : (s : Sender) → IsQuiet s → total (channel s) ≡ s.wire
  quiet_total s (h, w, _) = simp (h, w, append-nil) refl

  pub sent_total :
      (es : List SendEvent) (s : Sender)
      → All IsSteady es
      → send_run consumes prepare es connected ≡ some s
      → total (channel s) ≡ flatten (map prepare (strings es))
  sent_total es s h ran =
      let (_, seen) = send_refines consumes prepare es connected s h connected-IsSending ran in
      ap total seen ∙ total-run prepare es (channel connected) ∙ (unfold connected in refl)

  -- A connection that has sent strings, in a steady run that has come to rest, has put exactly the
  -- prepared strings on the wire, in the order in which the threads have got the mutex.
  pub quiet_wire :
      (es : List SendEvent) (s : Sender)
      → All IsSteady es
      → send_run consumes prepare es connected ≡ some s
      → IsQuiet s
      → s.wire ≡ flatten (map prepare (strings es))
  quiet_wire es s h ran quiet = sym (quiet_total s quiet) ∙ sent_total es s h ran
