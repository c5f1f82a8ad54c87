-- ===== src/NativeClient/Window.antt =====
-- examples/native_client/clientwgt.cpp: the window of the example client. The labels are by what they
-- show; the signals that are posted to the window by a queued connection come later, in their order.
-- A click of Qt is a call of the slot; QString::number is a parameter.
pub mod Shows
use emserver.Base.{
  ℕ, ◌≡◌, refl, sym, ap, ◌∙◌, List, [], ◌∷◌, ◌++◌, Option, none, some, Bool, true, false, not, Run,
  done, crash, null_pointer, ◌>>=◌, Bytes, if◌then◌else◌,
}
use emserver.Emserver.Proto.{EmserverCodec}
use emserver.Client.{
  EmserverAdapter, User, ConnectedState, not_connected, connection_open, connection_close,
  call_found, cast_connected_state, call_cast, connected_state_changed,
}
use emserver.Client
use emserver.Client.Facade.{
  register_callback_connected_state_changed, register_callback_capabilities,
  register_callback_sensor_activated, register_callback_server_runtime_notifications,
  destroy_adapter,
}
use emserver.NativeClient.{
  EmserverAdapterQt, created, on_connection_state_changed, send_request_capabilities,
}

pub record Label : Type 0 where
  pub text : Bytes
  pub is_visible : Bool

pub record Ui : Type 0 where
  pub remote_ip : Label
  pub remote_port : Label
  pub remote_separator : Bool
  pub local_ip : Label
  pub local_port : Label
  pub local_separator : Bool

-- m_processor with its facade, and whether its signal is connected to the window.
pub record Processor : Type 0 where
  pub adapter : EmserverAdapterQt
  pub facade : EmserverAdapter
  pub is_connected : Bool

pub record ClientWgt : Type 0 where
  pub ui : Ui
  pub processor : Option Processor
  pub posted : List ConnectedState

abbrev pub is_empty : Bytes → Bool
is_empty [] = true
is_empty (b ∷ bs) = false

-- ClientWgt::onClientConnected.
unfoldable pub show_state : (ℕ → Bytes) → ConnectedState → Ui → Ui
show_state number state ui =
    let remote = not (is_empty state.remote_point.interface) in
    let local = not (is_empty state.local_point.interface) in
    record {
      remote_ip = record { text = state.remote_point.interface; is_visible = remote };
      remote_port = record { text = number state.remote_point.port; is_visible = remote };
      remote_separator = remote;
      local_ip = record { text = state.local_point.interface; is_visible = local };
      local_port = record { text = number state.local_point.port; is_visible = local };
      local_separator = local;
    }

-- connect() with no sender does nothing.
unfoldable pub connect_transport : ClientWgt → ClientWgt
connect_transport w = elim w.processor [
  | none ↦ w
  | some p ↦ record w { processor = some (record p { is_connected = true }) }
]

-- The constructor, with the user interface that it has set up.
unfoldable pub create_window : Ui → ClientWgt
unfolding connect_transport
create_window ui = connect_transport (record { ui = ui; processor = none; posted = [] })

-- The facade of a new EmserverAdapterQt, with its four functions.
unfoldable pub create_facade : EmserverAdapter
unfolding register_callback_connected_state_changed register_callback_capabilities
    register_callback_sensor_activated register_callback_server_runtime_notifications
create_facade = register_callback_server_runtime_notifications 4 (
    register_callback_sensor_activated 3 (
      register_callback_capabilities 2 (register_callback_connected_state_changed 1 Client.create)))

-- The signal for a changed connection, which a connected window is posted.
unfoldable pub emit_state :
    ConnectedState → Processor → List ConnectedState → Processor × List ConnectedState
emit_state state p posted = (
  record p { adapter = on_connection_state_changed state p.adapter },
  if p.is_connected then posted ++ (state ∷ []) else posted,
)

-- The functions of EmserverAdapterQt do nothing to the facade.
unfoldable pub watching : User
watching = record {
  on_connected_state = λ f st a. done a;
  on_capabilities = λ f sensors id a. done a;
  on_sensor_activation = λ f state id a. done a;
  on_runtime_notification = λ f error a. done a;
}

module _ (codec : EmserverCodec) where
  -- EmserverAdapterQt::connectionClose. The facade calls onConnectionStateChanged.
  unfoldable pub close_processor :
      Processor → List ConnectedState → Run (Processor × List ConnectedState)
  unfolding emit_state watching
  close_processor p posted = connection_close codec watching p.facade >>= λ facade.
      done (emit_state not_connected (record p { facade = facade }) posted)

  -- The end of an EmserverAdapterQt, and with it of its facade.
  unfoldable pub destroy_processor : Option Processor → Run (Option Processor)
  unfolding watching
  destroy_processor none = done none
  destroy_processor (some p) = destroy_adapter codec watching p.facade >>= λ _. done none

  -- onBtnConnectClicked(true) up to connectTransport: a new processor takes the place of the old one.
  unfoldable pub open_processor : Bytes → ℕ → ClientWgt → Run ClientWgt
  unfolding destroy_processor create_facade
  open_processor ip_addr port w = destroy_processor w.processor >>= λ _. done (record w {
    processor = some (record {
      adapter = created;
      facade = connection_open create_facade ip_addr port;
      is_connected = false;
    });
  })

  unfoldable pub on_btn_connect_clicked : Bool → Bytes → ℕ → ClientWgt → Run ClientWgt
  unfolding open_processor connect_transport close_processor destroy_processor
  on_btn_connect_clicked true ip_addr port w =
      open_processor ip_addr port w >>= λ w'. done (connect_transport w')
  on_btn_connect_clicked false ip_addr port w = elim w.processor [
    | none ↦ crash null_pointer
    | some p ↦ close_processor p w.posted >>= λ (p', posted).
        destroy_processor (some p') >>= λ gone.
        done (record w { processor = gone; posted = posted })
  ]

  unfoldable pub on_btn_req_caps_clicked : ClientWgt → ClientWgt
  on_btn_req_caps_clicked w = elim w.processor [
    | none ↦ w
    | some p ↦
        let (adapter, facade) = send_request_capabilities codec p.adapter p.facade in
        record w { processor = some (record p { adapter = adapter; facade = facade }) }
  ]

  -- The destructor, what is left of m_processor included.
  unfoldable pub destroy_window : ClientWgt → Run (Option Processor)
  unfolding close_processor destroy_processor
  destroy_window w = elim w.processor [
    | none ↦ done none
    | some p ↦ close_processor p w.posted >>= λ (p', posted). destroy_processor (some p')
  ]

-- The posted signals are delivered.
unfoldable pub deliver_all : (ℕ → Bytes) → List ConnectedState → Ui → Ui
unfolding show_state
deliver_all number [] ui = ui
deliver_all number (state ∷ states) ui = deliver_all number states (show_state number state ui)
