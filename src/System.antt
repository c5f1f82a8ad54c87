-- ===== src/System.antt =====
-- The two programs on the two ends of a connection: registerReadCallback of
-- common/src/tcpsession.cpp has each message that arrives processed by the owner of the session.
pub mod Conversation
pub mod OverWire
pub mod Request
pub mod Carrier
pub mod Journey
pub mod ThereAndBack
pub mod Samples
mod Runs
use emserver.Base.{List, [], ◌∷◌, Run, done, ◌>>=◌}
use emserver.Common.{CommonMessage}
use emserver.Emserver.Proto.{EmserverCodec}
use emserver.Emserver.{EmserverProcessor, receive_common_message}

-- The messages in the order in which the callback gets them. What the processor returns is not
-- looked at.
unfoldable pub receive_all :
    {S : Type 0} → EmserverCodec → EmserverProcessor S → List CommonMessage → S → Run S
receive_all codec p [] s = done s
receive_all codec p (m ∷ ms) s =
    receive_common_message codec p m s >>= λ (_, s'). receive_all codec p ms s'
