-- ===== src/Session/Send/Wakes.antt =====
-- A wait that ends for no reason, as the standard allows for a condition variable.
use emserver.Base.{List, [], ◌∷◌, ◌++◌, length, Bool, Bytes}
use emserver.Session.Send.{SendEvent, calls, goes, wakes, transmits, completes}

module _ (consumes : Bool) (prepare : Bytes → Bytes) where
  -- The first thread's write is under way, the second thread waits and its wait ends; then the
  -- socket takes what it is given.
  abbrev pub overlap : Bytes → Bytes → List SendEvent
  overlap a b =
      calls a
      ∷ goes
      ∷ calls b
      ∷ goes
      ∷ goes
      ∷ wakes
      ∷ goes
      ∷ transmits (length (prepare a))
      ∷ completes
      ∷ transmits (length (prepare a ++ prepare b))
      ∷ []
