-- ===== src/Protocol.antt =====
-- common/hdr/baseprotocol.h and common/src/baseprotocol.cpp: the frames that travel over TCP.
-- A frame is the magic byte, the payload's size, the payload and a checksum of all before it.
-- `size_t` has 64 bits and the host is little-endian. boost::crc_32_type is the parameter below.
mod Runs
pub mod Frame
pub mod Faults
pub mod Sound
pub mod RoundTrip
pub mod Steps
use emserver.Base.{
  ℕ, ◌+◌, ◌-◌, ◌%◌, ◌^◌, ◌<◌, List, [], ◌∷◌, ◌++◌, Option, none, some, Run, done, crash,
  out_of_bounds, length_error, ◌>>=◌, Bytes, le32, from_le32, sub64, length, take, drop, ltb, leb,
  ◌==◌, if◌then◌else◌,
}

-- The 32-bit checksum of Boost.CRC: a function of the bytes, with a `uint32_t` for its value.
pub record Checksum : Type 0 where
  pub checksum : Bytes → ℕ
  pub checksum-lt : (bs : Bytes) → checksum bs < 2 ^ 32

abbrev pub magic : ℕ
magic = b'$'

pub record BaseProtocol : Type 0 where
  pub payload : Bytes

pub data ExtractionFailure : Type 0 where
  no_failure need_more_data invalid_first_byte invalid_checksum : ExtractionFailure

-- The returned pointer and the reference parameter `reason`.
abbrev pub Extraction : Type 0
Extraction = Run (Option BaseProtocol × ExtractionFailure)

unfoldable pub create : Bytes → BaseProtocol
create payload = record { payload = payload }

-- uint32_t
unfoldable pub full_size : BaseProtocol → ℕ
full_size b = (length b.payload + 1 + 8) % 2 ^ 32

pub payload_size : BaseProtocol → ℕ
payload_size b = length b.payload % 2 ^ 32

-- `n` bytes from the offset `off` of the memory at `p`.
pub slice : Bytes → ℕ → ℕ → Run Bytes
slice p off n = if leb (off + n) (length p) then done (take n (drop off p)) else crash out_of_bounds

pub first_u32 : Bytes → Run ℕ
first_u32 (a ∷ b ∷ c ∷ d ∷ rest) = done (from_le32 a b c d)
first_u32 _ = crash out_of_bounds

pub read_u32 : Bytes → ℕ → Run ℕ
unfolding first_u32
read_u32 p off = first_u32 (drop off p)

-- A `memcpy` into the buffer, within its bounds.
overwrite : ℕ → Bytes → Bytes → Bytes
overwrite pos src buf = take pos buf ++ (src ++ drop (pos + length src) buf)

-- int32_t to size_t: the sign is extended.
abbrev pub size_of_int32 : ℕ → ℕ
size_of_int32 w = if ltb w (2 ^ 31) then w else w + 2 ^ 64 - 2 ^ 32

-- BaseProtocol(const uint8_t *pData, std::size_t dataSize). A vector of bytes holds at most
-- 2 ^ 63 - 1 of them.
pub from_raw : Bytes → ℕ → Run BaseProtocol
unfolding slice
from_raw p n =
    if ltb (2 ^ 63 - 1) n
    then crash length_error
    else (slice p 0 n >>= λ bs. done (record { payload = bs }))

-- Where `pData` points, and that it may be null: the bytes that can be read from there on.
abbrev pub Pointer : Type 0
Pointer = Option Bytes

module _ (c : Checksum) where
  open c use {checksum}

  -- What `reserve` is given is no more than a hint. `chPos` is a uint32_t.
  unfoldable pub make_protocol_message : BaseProtocol → Bytes
  unfolding overwrite le32
  make_protocol_message b =
      let payload_size = length b.payload % 2 ^ 32 in
      let ret = (magic ∷ le32 payload_size) ++ b.payload in
      let ch_pos = (1 + 4 + payload_size) % 2 ^ 32 in
      let ch_sum = checksum ret in overwrite ch_pos (le32 ch_sum) (ret ++ (0 ∷ 0 ∷ 0 ∷ 0 ∷ []))

  pub calculate_checksum : Bytes → ℕ → Run ℕ
  unfolding slice
  calculate_checksum p n = slice p 0 n >>= λ bs. done (checksum bs)

  -- From the second test of the available size on.
  pub extract_checked : Bytes → ℕ → Extraction
  unfolding calculate_checksum read_u32 from_raw
  extract_checked p total = do
    ch_sum ← read_u32 p (sub64 total 4)
    calc_sum ← calculate_checksum p (sub64 total 4)
    if calc_sum == ch_sum
        then (from_raw (drop 5 p) (size_of_int32 (sub64 total 9 % 2 ^ 32)) >>= λ item.
            done (some item, no_failure))
        else done (none, invalid_checksum)

  -- From the first test of the available size on; `total` is a uint32_t.
  extract_sized : Bytes → ℕ → Extraction
  unfolding extract_checked
  extract_sized p available =
      if leb available 5
      then done (none, need_more_data)
      else (read_u32 p 1 >>= λ msize.
          let total = (5 + (msize + 4)) % 2 ^ 32 in
          if ltb available total then done (none, need_more_data) else extract_checked p total)

  unfoldable pub extract_from_raw_data : Pointer → ℕ → Extraction
  unfolding extract_sized
  extract_from_raw_data none available = done (none, invalid_first_byte)
  extract_from_raw_data (some []) available = crash out_of_bounds
  extract_from_raw_data (some (b ∷ bs)) available =
      if b == magic then extract_sized (b ∷ bs) available else done (none, invalid_first_byte)
