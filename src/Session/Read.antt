-- ===== src/Session/Read.antt =====
-- TcpSession::waitReading and TcpSession::handlerRead. The kernel's buffer of the socket, what
-- arrives in it and when an operation completes are a choice of events.
pub mod Fifo
pub mod Flush
use emserver.Base.{
  ℕ, ◌+◌, ◌-◌, ◌≤◌, List, [], ◌∷◌, ◌++◌, length, take, drop, Option, none, some, Bytes, leb,
  if◌then◌else◌, ◌==◌, ErrorCode, operation_aborted,
}

-- What handlerRead waits for: no read has been asked for, async_read is to transfer exactly `n`
-- bytes, it has done so and the handler is to be called, or reading has ended with an error.
pub data Reading : Type 0 where
  idle : Reading
  reads_exactly : ℕ → Reading
  completed stopped : Reading

-- `arrived` is in the kernel's buffer; `handed` are the chunks that onReadedChunk has got; `errors`
-- is what onSessionError_ has been called with.
pub record Reader : Type 0 where
  pub arrived : Bytes
  pub buffer : Bytes
  pub reading : Reading
  pub handed : List Bytes
  pub errors : List ErrorCode

unfoldable pub opened : Reader
opened = record { arrived = []; buffer = []; reading = idle; handed = []; errors = [] }

-- The owner asks for reading, bytes arrive, async_read completes or fails, handlerRead is called.
pub data ReadEvent : Type 0 where
  waits : ReadEvent
  arrives : Bytes → ReadEvent
  transfers : ReadEvent
  fails : ErrorCode → ReadEvent
  handles : ReadEvent

-- waitReading, as the owners call it: once.
wait_reading : Reading → Reader → Option Reader
wait_reading idle r = some (record r { reading = reads_exactly 1 })
wait_reading _ r = none

transfer : Reading → Reader → Option Reader
transfer (reads_exactly n) r =
    if leb n (length r.arrived)
    then some (record r {
      arrived = drop n r.arrived;
      buffer = r.buffer ++ take n r.arrived;
      reading = completed;
    })
    else none
transfer _ r = none

reported : ErrorCode → List ErrorCode
reported operation_aborted = []
reported code = code ∷ []

fail : ErrorCode → Reading → Reader → Option Reader
unfolding reported
fail code (reads_exactly n) r =
    some (record r { reading = stopped; errors = r.errors ++ reported code })
fail code _ r = none

-- handlerRead without an error. `available` is what the kernel's buffer holds by then.
pub handler_read : Reader → Reader
handler_read r =
    let available = length r.arrived in
    if available == 0
    then record r { buffer = []; handed = r.handed ++ (r.buffer ∷ []); reading = reads_exactly 1 }
    else record r { reading = reads_exactly available }

unfoldable pub handle : Reading → Reader → Option Reader
unfolding handler_read
handle completed r = some (handler_read r)
handle _ r = none

unfoldable pub read_step : ReadEvent → Reader → Option Reader
unfolding wait_reading transfer fail handle
read_step waits r = wait_reading r.reading r
read_step (arrives bs) r = some (record r { arrived = r.arrived ++ bs })
read_step transfers r = transfer r.reading r
read_step (fails code) r = fail code r.reading r
read_step handles r = handle r.reading r

unfoldable pub read_run : List ReadEvent → Reader → Option Reader
read_run [] r = some r
read_run (e ∷ es) r = elim (read_step e r) [ none ↦ none | some r' ↦ read_run es r' ]
