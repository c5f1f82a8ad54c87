-- ===== src/Session/Send/Channel/Refines.antt =====
-- A run of a sender is a run of the channel.
use emserver.Base.{
  ◌≡◌, refl, subst, sym, ap, ◌∙◌, List, [], ◌∷◌, Option, none, some, Bool, Bytes, All,
  some-injective,
}
use emserver.Session.Send.{Sender, SendEvent, send_step, send_run}
use emserver.Session.Send.Channel.{IsSteady, channel, channel_run, IsSending, at}
use emserver.Session.Send.Channel.Follows.{Follows, opened-Follows}

module _ (consumes : Bool) (prepare : Bytes → Bytes) where
  step-Follows :
      (e : SendEvent) (s s' : Sender)
      → IsSteady e
      → IsSending s
      → send_step consumes prepare e s ≡ some s'
      → Follows prepare e s s'
  step-Follows e s s' h p stepped =
      let same : s ≡ at s.stream_send s.in_send_mode s.writes s.handlers s.holder s.wire s.errors =
        ap (λ b. record s { is_open = b }) p.0 in
      opened-Follows consumes prepare e s.holder s.stream_send s.in_send_mode s.writes s.handlers
        s.wire s.errors s' h p.1 (ap (send_step consumes prepare e) (sym same) ∙ stepped)

  send_run-cons :
      (e : SendEvent) (es : List SendEvent) (s s' : Sender)
      → send_run consumes prepare (e ∷ es) s ≡ some s'
      → (t : Sender) × (send_step consumes prepare e s ≡ some t)
        × (send_run consumes prepare es t ≡ some s')
  unfolding send_run
  send_run-cons e es s s' ran = found (send_step consumes prepare e s) refl ran
    where
      found :
          (o : Option Sender)
          → send_step consumes prepare e s ≡ o
          → elim o [ none ↦ none | some t ↦ send_run consumes prepare es t ] ≡ some s'
          → (t : Sender) × (send_step consumes prepare e s ≡ some t)
            × (send_run consumes prepare es t ≡ some s')
      found none stepped ran' = absurd (cc ran')
      found (some t) stepped ran' = (t, stepped, ran')

  -- While no write fails and no wait ends for no reason, whatever the threads and the socket do is
  -- for the channel what the calls of sendData and the bytes that the socket takes are: no byte is
  -- lost, sent twice or out of its order, and at most one write is under way at a time.
  pub send_refines :
      (es : List SendEvent) (s s' : Sender)
      → All IsSteady es
      → IsSending s
      → send_run consumes prepare es s ≡ some s'
      → IsSending s' × (channel s' ≡ channel_run prepare es (channel s))
  unfolding send_run channel_run
  send_refines [] s s' h p ran =
      subst (λ t. IsSending t × (channel t ≡ channel s)) (some-injective ran) (p, refl)
  send_refines (e ∷ es) s s' h p ran =
      let (t, stepped, ran') = send_run-cons e es s s' ran in
      let (p', seen) = step-Follows e s t h.0 p stepped in
      let (q, all) = send_refines es t s' h.1 p' ran' in (q, all ∙ ap (channel_run prepare es) seen)
