-- ===== src/Session/Send/Channel.antt =====
-- What a connection promises to those who send on it: a channel that carries bytes in order.
pub mod Follows
pub mod Refines
use emserver.Base.{
  ℕ, ◌+◌, ◌≤◌, ◌≡◌, ◌⊎◌, refl, subst, sym, ap, ◌∙◌, List, [], ◌∷◌, ◌++◌, append-nil, length,
  length-drop, take, drop, Option, none, some, Bool, true, false, ◌&&◌, Bytes, leb, ltb, All, arith,
  ErrorCode, Bool-cases, some-injective, if_some, inl, inr, eq_nil_of_length, take-append_le,
  drop-append_le,
}
use emserver.Session.Send.{
  Write, Holder, free, testing, entering, waiting, woken, Sender, connected, SendEvent, calls, goes,
  times_out, wakes, transmits, completes, fails, handles, begin_write, notified, holder_goes,
  holder_times_out, socket_takes, handler_runs, write_completes, consumed, send_data, send_step,
  send_run,
}

-- The bytes that have been sent and not yet carried, and those that have been carried.
pub record Channel : Type 0 where
  pub pending : Bytes
  pub carried : Bytes

abbrev pub put : Bytes → Channel → Channel
put bs ch = record ch { pending = ch.pending ++ bs }

abbrev pub carry : ℕ → Channel → Channel
carry n ch = record { pending = drop n ch.pending; carried = ch.carried ++ take n ch.pending }

-- A write neither fails nor does a wait end for no reason.
abbrev pub IsSteady : SendEvent → Type 0
IsSteady wakes = ⊥
IsSteady (fails code) = ⊥
IsSteady _ = Unit {0}

abbrev pub held : Holder → Bytes
held free = []
held (testing chunk) = chunk
held (entering chunk) = chunk
held (waiting chunk) = chunk
held (woken chunk) = chunk

abbrev pub unsent : List Write → Bytes
unsent [] = []
unsent (w ∷ ws) = w.left ++ unsent ws

-- The channel that a sender stands for.
abbrev pub channel : Sender → Channel
channel s = record { pending = unsent s.writes ++ held s.holder; carried = s.wire }

module _ (prepare : Bytes → Bytes) where
  -- What an event is for the channel: a call puts a prepared string in, the socket carries bytes,
  -- and nothing else is seen.
  unfoldable pub channel_step : SendEvent → Channel → Channel
  channel_step (calls str) ch = put (prepare str) ch
  channel_step (transmits n) ch = carry n ch
  channel_step _ ch = ch

  unfoldable pub channel_run : List SendEvent → Channel → Channel
  unfolding channel_step
  channel_run [] ch = ch
  channel_run (e ∷ es) ch = channel_run es (channel_step e ch)

abbrev pub NotWoken : Holder → Type 0
NotWoken (woken chunk) = ⊥
NotWoken _ = Unit {0}

-- At most one write is under way or waits for its handler, and m_inSendMode says whether.
abbrev pub Phase : List Write → List (Option ErrorCode × ℕ) → Holder → Bool → Bytes → Type 0
Phase [] [] holder mode stream = (mode ≡ false) × (length stream ≡ 0)
Phase (w ∷ []) [] holder mode stream =
    (mode ≡ true) × NotWoken holder × (length stream ≡ w.gone + length w.left)
Phase [] ((none, n) ∷ []) holder mode stream = (mode ≡ true) × NotWoken holder × (length stream ≤ n)
Phase _ _ holder mode stream = ⊥

abbrev pub IsSending : Sender → Type 0
IsSending s = (s.is_open ≡ true) × Phase s.writes s.handlers s.holder s.in_send_mode s.stream_send

pub connected-IsSending : IsSending connected
unfolding connected
connected-IsSending = (refl, (refl, refl))

-- A sender by its members.
abbrev pub at :
    Bytes
    → Bool
    → List Write
    → List (Option ErrorCode × ℕ)
    → Holder
    → Bytes
    → List ErrorCode
    → Sender
at stream mode ws hs holder wire errors = record {
  is_open = true;
  stream_send = stream;
  in_send_mode = mode;
  writes = ws;
  handlers = hs;
  holder = holder;
  wire = wire;
  errors = errors;
}
