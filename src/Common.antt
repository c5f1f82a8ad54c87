-- ===== src/Common.antt =====
-- common/hdr/commonprocessor.h and common/src/commonprocessor.cpp: the bytes of one connection
-- on their way to the callback, through a thread of their own.
pub mod Unpack
pub mod Fifo
pub mod Delivery
mod Runs
use emserver.Base.{
  ℕ, ◌+◌, List, [], ◌∷◌, ◌++◌, Option, none, some, Bool, true, false, not, ◌&&◌, Run, done, ◌>>=◌,
  Bytes, if◌then◌else◌, ◌≡◌,
}
use emserver.Protocol.{Checksum, BaseProtocol, create, make_protocol_message}
use emserver.Buffer.{BufferProcessor, append_buffers, messages}
use emserver.Buffer

-- common.proto: a field that is not set is `none`.
pub record CommonMessage : Type 0 where
  pub code : Option ℕ
  pub payload : Option Bytes

pub record TransportContainer : Type 0 where
  pub contaiter_version : Option ℕ
  pub payload : Option Bytes

abbrev pub has {ℓ} : {A : Type ℓ} → Option A → Bool
has none = false
has (some a) = true

-- The value of a `bytes` field that is not set is the empty string.
abbrev pub bytes_or_empty : Option Bytes → Bytes
bytes_or_empty none = []
bytes_or_empty (some bs) = bs

-- IsInitialized: the required fields are set.
abbrev pub CommonMessage_is_initialized : CommonMessage → Bool
CommonMessage_is_initialized m = has m.code

abbrev pub container_is_initialized : TransportContainer → Bool
container_is_initialized t = has t.contaiter_version

-- What the generated classes do: SerializeAsString, and ParseFromString with what it has read and
-- whether it succeeded. A message whose required fields are set is read back as it was.
pub record CommonCodec : Type 0 where
  pub serialize_common : CommonMessage → Bytes
  pub parse_common : Bytes → CommonMessage × Bool
  pub serialize_container : TransportContainer → Bytes
  pub parse_container : Bytes → TransportContainer × Bool
  pub parse_common-serialize :
      (m : CommonMessage)
      → CommonMessage_is_initialized m ≡ true
      → parse_common (serialize_common m) ≡ (m, true)
  pub parse_container-serialize :
      (t : TransportContainer)
      → container_is_initialized t ≡ true
      → parse_container (serialize_container t) ≡ (t, true)

-- The members of CommonProcessor, the locals of its thread (`processor`, and in `pending` the
-- messages that the inner loop has yet to visit), and in `delivered` what the callback has been
-- called with.
pub record CommonProcessor : Type 0 where
  pub callback_registered : Bool
  pub acceptor_buffer : List Bytes
  pub need_exit : Bool
  pub processor : BufferProcessor
  pub pending : List BaseProtocol
  pub delivered : List CommonMessage

pub init : CommonProcessor
init = record {
  callback_registered = false;
  acceptor_buffer = [];
  need_exit = false;
  processor = Buffer.empty;
  pending = [];
  delivered = [];
}

pub register_callback : CommonProcessor → CommonProcessor
register_callback s = record s { callback_registered = true }

-- The body of the destructor before the join.
pub request_exit : CommonProcessor → CommonProcessor
request_exit s = record s { need_exit = true }

pub on_readed_chunk : CommonProcessor → Bytes → CommonProcessor
on_readed_chunk s chunk = record s { acceptor_buffer = s.acceptor_buffer ++ (chunk ∷ []) }

abbrev pub is_empty {ℓ} : {A : Type ℓ} → List A → Bool
is_empty [] = true
is_empty (x ∷ xs) = false

-- What happens to a processor: a chunk is read from the socket, the thread makes a step, the
-- callback is registered, the destructor begins.
pub data Event : Type 0 where
  reads : Bytes → Event
  thread : Bool → Event
  registers exits : Event

-- One round of the loop over the messages.
pub deliver : CommonProcessor → List BaseProtocol → Option CommonMessage → CommonProcessor
deliver s rest none = record s { pending = rest }
deliver s rest (some cmsg) =
    if s.need_exit
    then record s { pending = [] }
    else record s { pending = rest; delivered = s.delivered ++ (cmsg ∷ []) }

module _ (c : Checksum) where
  -- The loop's body from the swap of the buffers to the loop over the messages.
  pub take_chunks : CommonProcessor → Run CommonProcessor
  take_chunks s =
      let swapped = record s { acceptor_buffer = [] } in
      if not s.callback_registered
      then done swapped
      else (messages c (append_buffers s.processor s.acceptor_buffer) >>= λ (ms, processor).
          done (record swapped { processor = processor; pending = ms }))

module _ (codec : CommonCodec) where
  open codec use {serialize_common, parse_common, serialize_container, parse_container}

  -- The message that `prepareData` frames.
  unfoldable pub wrap : Bytes → BaseProtocol
  unfolding create
  wrap s =
      let msg : CommonMessage = record { code = some 1; payload = some s } in
      let tr_msg : TransportContainer = record {
        contaiter_version = some 1;
        payload = some (serialize_common msg);
      } in
      create (serialize_container tr_msg)

  -- What one message is unpacked to, if to anything. The result of the inner parse is not looked
  -- at: the callback gets whatever has been read.
  pub unpack : BaseProtocol → Option CommonMessage
  unpack b =
      let (tr_msg, is_extracted) = parse_container b.payload in
      if is_extracted && (container_is_initialized tr_msg && has tr_msg.payload)
      then some ((parse_common (bytes_or_empty tr_msg.payload)).0)
      else none

module _ (c : Checksum) (codec : CommonCodec) where
  unfoldable pub prepare_data : Bytes → Bytes
  unfolding wrap
  prepare_data s = make_protocol_message c (wrap codec s)

  -- One step of the thread; `timeout` says whether `wait_for` ends by its timeout, if it is called.
  -- A thread that has left its loop stays as it is.
  pub thread_step : Bool → CommonProcessor → List BaseProtocol → Run CommonProcessor
  unfolding deliver take_chunks unpack
  thread_step timeout s (b ∷ rest) = done (deliver s rest (unpack codec b))
  thread_step timeout s [] =
      if s.need_exit
      then done s
      else (if is_empty s.acceptor_buffer && timeout then done s else take_chunks c s)

  pub step : Event → CommonProcessor → Run CommonProcessor
  unfolding thread_step register_callback request_exit on_readed_chunk
  step (reads chunk) s = done (on_readed_chunk s chunk)
  step (thread timeout) s = thread_step timeout s s.pending
  step registers s = done (register_callback s)
  step exits s = done (request_exit s)

  -- The network's calls and the thread's steps in any order.
  pub run : List Event → CommonProcessor → Run CommonProcessor
  run [] s = done s
  run (e ∷ es) s = step e s >>= run es
