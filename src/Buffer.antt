-- ===== src/Buffer.antt =====
-- common/hdr/bufferprocessor.h and common/src/bufferprocessor.cpp: the bytes that have arrived,
-- and the messages that are cut out of them. An iterator into the buffer is an offset.
mod Runs
pub mod Search
pub mod Trace
pub mod Append
pub mod Carved
pub mod Embedded
pub mod Stream
use emserver.Base.{
  ℕ, zero, suc, ◌+◌, ◌-◌, ◌*◌, List, [], ◌∷◌, ◌++◌, Option, none, some, Run, done, crash, stuck,
  out_of_bounds, ◌>>=◌, Bytes, length, drop, leb, ◌==◌, if◌then◌else◌,
}
use emserver.Protocol.{
  Checksum, BaseProtocol, ExtractionFailure, magic, full_size, extract_from_raw_data,
}

pub record BufferProcessor : Type 0 where
  pub processing_buffer : Bytes

unfoldable pub empty : BufferProcessor
empty = record { processing_buffer = [] }

pub append_buffer : BufferProcessor → Bytes → BufferProcessor
append_buffer p chunk = record { processing_buffer = p.processing_buffer ++ chunk }

pub append_buffers : BufferProcessor → List Bytes → BufferProcessor
append_buffers p [] = p
append_buffers p (chunk ∷ chunks) = append_buffers (append_buffer p chunk) chunks

pub buffer_size : BufferProcessor → ℕ
buffer_size p = length p.processing_buffer

pub flush_buffer : BufferProcessor → BufferProcessor
flush_buffer p = record { processing_buffer = [] }

-- The distance from the start to the first magic byte, or to the end.
pub find_magic : Bytes → ℕ
find_magic [] = 0
find_magic (b ∷ bs) = let rest = find_magic bs in if b == magic then 0 else suc rest

-- std::find_if from the position `pos` on.
pub find_from : Bytes → ℕ → ℕ
unfolding find_magic
find_from buffer pos = pos + find_magic (drop pos buffer)

-- vector::erase of the first `n` bytes.
pub erase_front : ℕ → Bytes → Run Bytes
erase_front n buffer = if leb n (length buffer) then done (drop n buffer) else crash out_of_bounds

-- What the rest of the loop makes of the buffer, the marker and the messages found.
abbrev pub Continue : Type 0
Continue = Bytes → ℕ → List BaseProtocol → Run (List BaseProtocol × Bytes)

-- The rest of the loop's body, behind the extraction: `item` is cut out of the buffer, with all
-- that stands before it, or else the marker moves on.
pub take_item :
    Continue → Bytes → ℕ → List BaseProtocol → Option BaseProtocol → Run (List BaseProtocol × Bytes)
unfolding find_from erase_front
take_item continue buffer marker_pos ret (some b) =
    erase_front (marker_pos + full_size b) buffer >>= λ rest.
    continue rest (find_from rest 0) (ret ++ (b ∷ []))
take_item continue buffer marker_pos ret none =
    continue buffer (find_from buffer (marker_pos + 1)) ret

module _ (c : Checksum) where
  -- The loop of `messages`, from the test of its condition on. `marker_pos` is the result of the
  -- last std::find_if, and `ret` what has been found. The warning at a wrong checksum is left out.
  pub messages_loop : ℕ → Bytes → ℕ → List BaseProtocol → Run (List BaseProtocol × Bytes)
  unfolding take_item
  messages_loop zero buffer marker_pos ret = stuck
  messages_loop (suc fuel) buffer marker_pos ret =
      let round =
        extract_from_raw_data c (some (drop marker_pos buffer)) (length buffer - marker_pos)
        >>= λ (item, reason). take_item (messages_loop fuel) buffer marker_pos ret item in
      if marker_pos == length buffer then done (ret, buffer) else round

  -- The fuel is one more than the bytes of the buffer: each round passes one of them at least.
  pub messages : BufferProcessor → Run (List BaseProtocol × BufferProcessor)
  messages p =
      messages_loop (suc (length p.processing_buffer)) p.processing_buffer
        (find_from p.processing_buffer 0) []
      >>= λ (ret, buffer). done (ret, record { processing_buffer = buffer })
