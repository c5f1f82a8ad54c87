-- ===== src/Client/Lifetime/Runs.antt =====
-- Ends of a client.
use emserver.Base.{
  ◌≡◌, refl, List, [], ◌∷◌, none, some, true, done, other_error, use_after_free, crash,
  operation_aborted, arith,
}
use emserver.Client.Samples.{idle, client, open_session}
use emserver.Samples.Messages.{field_codec}
use emserver.Client.{EmserverAdapter, connection_close, call_found}
use emserver.Client.Facade.{destroy_adapter}
use emserver.Client.Transport.{close_connection, on_reconnect_timer_timeout}
use emserver.Client.Lifetime.{
  Completion, resolves, connects, expires, handler_resolved, handler_accepted, handler_step,
  at_rest, join, destroy_client,
}
use emserver.Client.Lifetime.Safety.{alone, Ends, attempt_destroyed}

abbrev resolving_client : EmserverAdapter
resolving_client = record client {
  transport = record client.transport { resolving = 1; connecting = 0; timer = true };
}

-- The one name is resolved, and the connection refused.
refused : List Completion
refused =
    resolves none
    ∷ connects (some (other_error 1)) open_session
    ∷ expires (some operation_aborted)
    ∷ []

attempt_destroyed_example :
    Ends refused (
      done (
        alone
          (record (close_connection resolving_client.transport) { resolving = 0; connecting = 0 })))
    × (destroy_client field_codec idle (resolves (some (other_error 2)) ∷ []) resolving_client
        ≡ some (crash use_after_free))
attempt_destroyed_example =
    attempt_destroyed field_codec idle resolving_client refused _ (other_error 2)
      (unfold refused in
        unfold destroy_client in
        unfold destroy_adapter in
        unfold connection_close in
        unfold call_found in
        unfold close_connection in
        unfold join in
        unfold handler_step in
        unfold handler_resolved in
        unfold handler_accepted in unfold at_rest in unfold on_reconnect_timer_timeout in refl)
      (omega arith)
