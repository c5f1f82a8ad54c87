-- ===== src/Session/Send/Channel/Follows.antt =====
-- One event of a sender, and what it is for the channel.
use emserver.Base.{
  ℕ, ◌≤◌, ◌≡◌, ◌⊎◌, refl, subst, ap, List, [], ◌∷◌, ◌++◌, append-nil, length, length-drop, Option,
  none, some, Bool, true, false, ◌&&◌, Bytes, leb, ltb, arith, ErrorCode, Bool-cases,
  some-injective, if_some, inl, inr, eq_nil_of_length, take-append_le, drop-append_le,
}
use emserver.Session.Send.{
  Write, Holder, free, testing, entering, waiting, woken, Sender, SendEvent, calls, goes, times_out,
  wakes, transmits, completes, fails, handles, begin_write, notified, holder_goes, holder_times_out,
  socket_takes, handler_runs, write_completes, consumed, send_data, send_step,
}
use emserver.Session.Send.Channel.{
  IsSteady, held, unsent, channel, channel_step, NotWoken, Phase, IsSending, at,
}

-- One event keeps the phase, and is for the channel what it is to be.
abbrev pub Follows : (Bytes → Bytes) → SendEvent → Sender → Sender → Type 0
Follows prepare e s s' = IsSending s' × (channel s' ≡ channel_step prepare e (channel s))

held-notified : (holder : Holder) → held (notified holder) ≡ held holder
unfolding notified
held-notified (waiting chunk) = refl
held-notified free = refl
held-notified (testing chunk) = refl
held-notified (entering chunk) = refl
held-notified (woken chunk) = refl

-- The thread with the mutex may move on to any place but the one behind a notification.
Phase-holder :
    (ws : List Write) (hs : List (Option ErrorCode × ℕ)) (holder holder' : Holder) (mode : Bool)
    (stream : Bytes)
    → NotWoken holder'
    → Phase ws hs holder mode stream
    → Phase ws hs holder' mode stream
Phase-holder [] [] holder holder' mode stream h p = p
Phase-holder (w ∷ []) [] holder holder' mode stream h p = (p.0, h, p.2)
Phase-holder [] ((none, n) ∷ []) holder holder' mode stream h p = (p.0, h, p.2)
Phase-holder _ _ holder holder' mode stream h p = absurd p

-- A write begins only where none is under way.
begin-Follows :
    (chunk stream : Bytes) (mode : Bool) (ws : List Write) (hs : List (Option ErrorCode × ℕ))
    (holder : Holder) (wire : Bytes) (errors : List ErrorCode)
    → (mode ≡ false) ⊎ (holder ≡ woken chunk)
    → Phase ws hs holder mode stream
    → IsSending (begin_write chunk (at stream mode ws hs holder wire errors))
      × (channel (begin_write chunk (at stream mode ws hs holder wire errors))
          ≡ record { pending = unsent ws ++ chunk; carried = wire })
unfolding begin_write
begin-Follows chunk stream mode [] [] holder wire errors may p =
    let e : stream ≡ [] = eq_nil_of_length stream p.1 in
    simp (e, append-nil) ((refl, (refl, tt, omega arith)), refl)
begin-Follows chunk stream mode (w ∷ []) [] holder wire errors may p = absurd (grind (arith))
begin-Follows chunk stream mode [] ((none, n) ∷ []) holder wire errors may p =
    absurd (grind (arith))
begin-Follows chunk stream mode _ _ holder wire errors may p = absurd p

module _ (consumes : Bool) (prepare : Bytes → Bytes) where
  goes-Follows :
      (holder : Holder) (stream : Bytes) (mode : Bool) (ws : List Write)
      (hs : List (Option ErrorCode × ℕ)) (wire : Bytes) (errors : List ErrorCode) (s' : Sender)
      → Phase ws hs holder mode stream
      → holder_goes holder (at stream mode ws hs holder wire errors) ≡ some s'
      → Follows prepare goes (at stream mode ws hs holder wire errors) s'
  unfolding holder_goes channel_step
  goes-Follows free stream mode ws hs wire errors s' p e = absurd (cc e)
  goes-Follows (testing chunk) stream true ws hs wire errors s' p e =
      subst (Follows prepare goes (at stream true ws hs (testing chunk) wire errors))
        (some-injective e)
        ((refl, Phase-holder ws hs (testing chunk) (entering chunk) true stream tt p), refl)
  goes-Follows (testing chunk) stream false ws hs wire errors s' p e =
      subst (Follows prepare goes (at stream false ws hs (testing chunk) wire errors))
        (some-injective e)
        (begin-Follows chunk stream false ws hs (testing chunk) wire errors (inl refl) p)
  goes-Follows (entering chunk) stream mode ws hs wire errors s' p e =
      subst (Follows prepare goes (at stream mode ws hs (entering chunk) wire errors))
        (some-injective e)
        ((refl, Phase-holder ws hs (entering chunk) (waiting chunk) mode stream tt p), refl)
  goes-Follows (waiting chunk) stream mode ws hs wire errors s' p e = absurd (cc e)
  goes-Follows (woken chunk) stream mode ws hs wire errors s' p e =
      subst (Follows prepare goes (at stream mode ws hs (woken chunk) wire errors))
        (some-injective e)
        (begin-Follows chunk stream mode ws hs (woken chunk) wire errors (inr refl) p)

  times_out-Follows :
      (holder : Holder) (stream : Bytes) (mode : Bool) (ws : List Write)
      (hs : List (Option ErrorCode × ℕ)) (wire : Bytes) (errors : List ErrorCode) (s' : Sender)
      → Phase ws hs holder mode stream
      → holder_times_out holder (at stream mode ws hs holder wire errors) ≡ some s'
      → Follows prepare times_out (at stream mode ws hs holder wire errors) s'
  unfolding holder_times_out channel_step
  times_out-Follows (waiting chunk) stream mode ws hs wire errors s' p e =
      subst (Follows prepare times_out (at stream mode ws hs (waiting chunk) wire errors))
        (some-injective e)
        ((refl, Phase-holder ws hs (waiting chunk) (testing chunk) mode stream tt p), refl)
  times_out-Follows _ stream mode ws hs wire errors s' p e = absurd (cc e)

  calls-Follows :
      (str : Bytes) (holder : Holder) (stream : Bytes) (mode : Bool) (ws : List Write)
      (hs : List (Option ErrorCode × ℕ)) (wire : Bytes) (errors : List ErrorCode) (s' : Sender)
      → Phase ws hs holder mode stream
      → send_data consumes prepare str holder (at stream mode ws hs holder wire errors) ≡ some s'
      → Follows prepare (calls str) (at stream mode ws hs holder wire errors) s'
  unfolding send_data channel_step
  calls-Follows str free stream mode ws hs wire errors s' p e =
      subst (Follows prepare (calls str) (at stream mode ws hs free wire errors)) (some-injective e)
        (
          (refl, Phase-holder ws hs free (testing (prepare str)) mode stream tt p),
          rw (append-nil (unsent ws)),
        )
  calls-Follows str _ stream mode ws hs wire errors s' p e = absurd (cc e)

  transmits-Follows :
      (n : ℕ) (holder : Holder) (stream : Bytes) (mode : Bool) (ws : List Write)
      (hs : List (Option ErrorCode × ℕ)) (wire : Bytes) (errors : List ErrorCode) (s' : Sender)
      → Phase ws hs holder mode stream
      → socket_takes n ws (at stream mode ws hs holder wire errors) ≡ some s'
      → Follows prepare (transmits n) (at stream mode ws hs holder wire errors) s'
  unfolding socket_takes channel_step
  transmits-Follows n holder stream mode [] hs wire errors s' p e = absurd (cc e)
  transmits-Follows n holder stream mode (w ∷ []) [] wire errors s' p e =
      let (may, same) = if_some (ltb 0 n && leb n (length w.left)) _ s' e in
      let fits : n ≤ length w.left = ground arith in
      subst (Follows prepare (transmits n) (at stream mode (w ∷ []) [] holder wire errors)) same (
        (refl, (p.0, p.1, omega (arith, length-drop n w.left, p.2))),
        simp
            (
              append-nil,
              drop-append_le n w.left (held holder) fits,
              take-append_le n w.left (held holder) fits,
            )
            refl,
      )
  transmits-Follows n holder stream mode _ _ wire errors s' p e = absurd p

  consumed-le : (w : Write) (stream : Bytes) → length (consumed consumes w stream) ≤ length stream
  unfolding consumed
  consumed-le w stream = elim (Bool-cases consumes) [
    | inl yes_ ↦ rw yes_ (omega (arith, length-drop w.gone stream))
    | inr no_ ↦ rw no_ (omega arith)
  ]

  completes-Follows :
      (holder : Holder) (stream : Bytes) (mode : Bool) (ws : List Write)
      (hs : List (Option ErrorCode × ℕ)) (wire : Bytes) (errors : List ErrorCode) (s' : Sender)
      → Phase ws hs holder mode stream
      → write_completes consumes ws (at stream mode ws hs holder wire errors) ≡ some s'
      → Follows prepare completes (at stream mode ws hs holder wire errors) s'
  unfolding write_completes channel_step
  completes-Follows holder stream mode [] hs wire errors s' p e = absurd (cc e)
  completes-Follows holder stream mode (w ∷ []) [] wire errors s' p e =
      let (may, same) = if_some (leb (length w.left) 0) _ s' e in
      let sent : w.left ≡ [] = eq_nil_of_length w.left (ground arith) in
      subst (Follows prepare completes (at stream mode (w ∷ []) [] holder wire errors)) same (
        (refl, (p.0, p.1, omega (arith, consumed-le w stream, ap length sent, p.2))),
        simp sent refl,
      )
  completes-Follows holder stream mode _ _ wire errors s' p e = absurd p

  handles-Follows :
      (holder : Holder) (stream : Bytes) (mode : Bool) (ws : List Write)
      (hs : List (Option ErrorCode × ℕ)) (wire : Bytes) (errors : List ErrorCode) (s' : Sender)
      → Phase ws hs holder mode stream
      → handler_runs hs (at stream mode ws hs holder wire errors) ≡ some s'
      → Follows prepare handles (at stream mode ws hs holder wire errors) s'
  unfolding handler_runs channel_step
  handles-Follows holder stream mode [] ((none, n) ∷ []) wire errors s' p e =
      subst (Follows prepare handles (at stream mode [] ((none, n) ∷ []) holder wire errors))
        (some-injective e)
        ((refl, (refl, omega (arith, length-drop n stream, p.2))), rw (held-notified holder))
  handles-Follows holder stream mode [] [] wire errors s' p e = absurd (cc e)
  handles-Follows holder stream mode (w ∷ []) [] wire errors s' p e = absurd (cc e)
  handles-Follows holder stream mode _ _ wire errors s' p e = absurd p

  pub opened-Follows :
      (e : SendEvent) (holder : Holder) (stream : Bytes) (mode : Bool) (ws : List Write)
      (hs : List (Option ErrorCode × ℕ)) (wire : Bytes) (errors : List ErrorCode) (s' : Sender)
      → IsSteady e
      → Phase ws hs holder mode stream
      → send_step consumes prepare e (at stream mode ws hs holder wire errors) ≡ some s'
      → Follows prepare e (at stream mode ws hs holder wire errors) s'
  unfolding send_step
  opened-Follows (calls str) holder stream mode ws hs wire errors s' h p =
      calls-Follows str holder stream mode ws hs wire errors s' p
  opened-Follows goes holder stream mode ws hs wire errors s' h p =
      goes-Follows holder stream mode ws hs wire errors s' p
  opened-Follows times_out holder stream mode ws hs wire errors s' h p =
      times_out-Follows holder stream mode ws hs wire errors s' p
  opened-Follows wakes holder stream mode ws hs wire errors s' h p = absurd h
  opened-Follows (transmits n) holder stream mode ws hs wire errors s' h p =
      transmits-Follows n holder stream mode ws hs wire errors s' p
  opened-Follows completes holder stream mode ws hs wire errors s' h p =
      completes-Follows holder stream mode ws hs wire errors s' p
  opened-Follows (fails code) holder stream mode ws hs wire errors s' h p = absurd h
  opened-Follows handles holder stream mode ws hs wire errors s' h p =
      handles-Follows holder stream mode ws hs wire errors s' p
