-- ===== src/System/Carrier.antt =====
-- What the two programs need of the connection between them.
use emserver.Base.{◌≡◌, ap, List, map, Bytes}
use emserver.Common.{CommonMessage}
use emserver.Common.Delivery.{common_message}
use emserver.Emserver.Proto.{EmserverCodec}
use emserver.Emserver.{EmserverProcessor}
use emserver.Emserver.Dispatch.{in_mode}
use emserver.System.{receive_all}
use emserver.System.OverWire.{in_mode-common_message}

-- One direction of a connection: what can happen on it, the strings that are given to sendData then,
-- and the messages that the callback at the other end gets. These are the strings, each once and in
-- their order.
pub record Carrier : Type 1 where
  pub Trip : Type 0
  pub given : Trip → List Bytes
  pub Gets : Trip → List CommonMessage → Type 0
  pub carries : (t : Trip) → Gets t (map common_message (given t))

module _ (carrier : Carrier) where
  -- The owner of the other end processes what has been given as if it had been put into its common
  -- messages there and then.
  pub carried_processes :
      {S : Type 0} (messages : EmserverCodec) (p : EmserverProcessor S) (owner : S)
      (t : carrier.Trip)
      → p.work_mode_code ≡ 1
      → (ms : List CommonMessage) × carrier.Gets t ms
        × (receive_all messages p ms owner
            ≡ receive_all messages p (map (in_mode messages p) (carrier.given t)) owner)
  carried_processes messages p owner t mode = (
    map common_message (carrier.given t),
    carrier.carries t,
    ap (λ ms. receive_all messages p ms owner)
        (in_mode-common_message messages p (carrier.given t) mode),
  )
