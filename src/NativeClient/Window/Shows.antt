-- ===== src/NativeClient/Window/Shows.antt =====
-- What the window shows when the user has disconnected.
use emserver.Base.{ℕ, ◌≡◌, refl, List, [], ◌∷◌, ◌++◌, none, some, true, false, done, Bytes}
use emserver.Emserver.Proto.{EmserverCodec}
use emserver.Client.{
  ConnectedState, not_connected, connection_close, call_found, cast_connected_state,
  connected_state_changed, connected_state_changing,
}
use emserver.Client.Facade.{destroy_adapter}
use emserver.NativeClient.Window.{
  Ui, Processor, ClientWgt, show_state, emit_state, watching, close_processor, destroy_processor,
  on_btn_connect_clicked, deliver_all,
}

-- The last state is the one that is shown.
deliver_all-last :
    (number : ℕ → Bytes) (states : List ConnectedState) (last : ConnectedState) (ui ui' : Ui)
    → deliver_all number (states ++ (last ∷ [])) ui ≡ show_state number last ui'
unfolding deliver_all show_state
deliver_all-last number [] last ui ui' = refl
deliver_all-last number (state ∷ states) last ui ui' =
    deliver_all-last number states last (show_state number state ui) ui'

-- When the user disconnects a window that gets the signals of its processor, the processor is gone,
-- and, whatever had been posted before, the window shows no connection in the end. The processor's
-- facade has its function for changes of the connection.
pub disconnected_shows :
    (codec : EmserverCodec) (number : ℕ → Bytes) (ip_addr : Bytes) (port f : ℕ) (p : Processor)
    (w : ClientWgt)
    → w.processor ≡ some p
    → p.is_connected ≡ true
    → p.facade.client_callbacks connected_state_changed ≡ some (connected_state_changing f)
    → (w' : ClientWgt) × (on_btn_connect_clicked codec false ip_addr port w ≡ done w')
      × (w'.processor ≡ none)
      × (deliver_all number w'.posted w'.ui ≡ show_state number not_connected w.ui)
unfolding on_btn_connect_clicked close_processor destroy_processor emit_state watching
    connection_close destroy_adapter call_found cast_connected_state
disconnected_shows codec number ip_addr port f p w has is_connected registered = (
  record w { processor = none; posted = w.posted ++ (not_connected ∷ []) },
  rw (has, registered, is_connected),
  refl,
  deliver_all-last number w.posted not_connected w.ui w.ui,
)
