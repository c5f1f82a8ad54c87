-- ===== src/System/Request.antt =====
-- A request of the client, from its call to the server's answer.
use emserver.Base.{List}
use emserver.Emserver.{receive_common_message}
use emserver.Emserver
use emserver.Client.{Session}
