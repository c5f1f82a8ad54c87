-- ===== src/Api/Runs.antt =====
-- Runs of the C interface.
use emserver.Base.{◌≡◌, [], ◌∷◌, none, some, true, done, pos, negsuc}
use emserver.Server.Transport.{Network}
use emserver.Samples.Messages.{field_codec}
use emserver.Api.{server_create, server_release}
use emserver.Api.Lifetime.{perform_all, released_refuses, listens, closes, activates}

-- A network where each address is good.
open_network : Network
open_network = record { is_address = λ address. true; can_bind = λ address port. true }

released_refuses_example :
    perform_all open_network field_codec
      (listens none (pos 80) ∷ closes ∷ activates (pos 1) none ∷ [])
      (server_release (server_create none).1)
    ≡ done (some (negsuc 0) ∷ none ∷ some (negsuc 0) ∷ [], none)
released_refuses_example =
    released_refuses open_network field_codec
      (listens none (pos 80) ∷ closes ∷ activates (pos 1) none ∷ []) (server_create none).1
