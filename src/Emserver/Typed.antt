-- ===== src/Emserver/Typed.antt =====
-- The table of callbacks holds under each code a function of the code's type.
use emserver.Base.{
  ℕ, ◌≡◌, refl, Option, none, some, Bool, false, not, Run, done, Fault, Post, returns, Post-bind,
  if_both, ◌==◌, Bytes, ℤ,
}
use emserver.Common.{CommonMessage, bytes_or_empty}
use emserver.Emserver.Proto.{EmserverCodec}
use emserver.Emserver.{
  EmserverProcessor, Callback, capability_request, capability_response, runtime_notification,
  sensor_controls, sensor_activation, MethodCode, request_capabilites, response_capabilities,
  server_runtime_notification, sensor_control, sensor_activated, cast_request, cast_response,
  cast_notification, cast_control, cast_activated, number_or_zero, id_or_default, call,
  find_and_call, common_callback_processing, dispatch, receive_mode, receive_code,
  receive_common_message,
}

module _ {S : Type 0} (P : S → Type 0) (E : Fault → Type 0) where
  -- A function that keeps `P`, and whose faults are those of `E`.
  abbrev pub Keeps : {M : Type 0} → (M → ℤ → S → Run S) → Type 0
  Keeps {M} f = (msg : M) (id : ℤ) (s : S) → P s → Post P E (f msg id s)

  -- A function of the type that belongs to the code.
  abbrev pub Fits : MethodCode → Callback S → Type 0
  Fits request_capabilites (capability_request f) = Keeps f
  Fits response_capabilities (capability_response f) = Keeps f
  Fits server_runtime_notification (runtime_notification f) = Keeps f
  Fits sensor_control (sensor_controls f) = Keeps f
  Fits sensor_activated (sensor_activation f) = Keeps f
  Fits _ _ = ⊥

  abbrev pub FitsEach : EmserverProcessor S → Type 0
  FitsEach p =
      (code : MethodCode) (callback : Callback S)
      → p.callbacks code ≡ some callback
      → Fits code callback

  abbrev pub Kept : Run (Bool × S) → Type 0
  Kept = Post (λ r. P r.1) E

  -- That a callback is of one type.
  abbrev Casts : {M : Type 0} → (Callback S → Option (M → ℤ → S → Run S)) → Callback S → Type 0
  Casts {M} cast callback = (f : M → ℤ → S → Run S) × (cast callback ≡ some f) × Keeps f

  processing-Kept :
      {M : Type 0} (parse : Bytes → M × Bool) (cast : Callback S → Option (M → ℤ → S → Run S))
      (entry : Option (Callback S)) (response : Bytes) (id : ℤ) (s : S)
      → ((callback : Callback S) → entry ≡ some callback → Casts cast callback)
      → P s
      → Kept (common_callback_processing parse cast entry response id s)
  unfolding common_callback_processing find_and_call call
  processing-Kept parse cast none response id s typed h =
      if_both Kept (not (parse response).1) (returns h) (returns h)
  processing-Kept parse cast (some callback) response id s typed h =
      let (f, is, keeps) = typed callback refl in
      if_both Kept (not (parse response).1) (returns h)
        (rw (is, call) (Post-bind (keeps (parse response).0 id s h) λ s' h'. returns h'))

  request-Casts :
      (callback : Callback S) → Fits request_capabilites callback → Casts cast_request callback
  unfolding cast_request
  request-Casts (capability_request f) h = (f, refl, h)
  request-Casts (capability_response f) h = absurd h
  request-Casts (runtime_notification f) h = absurd h
  request-Casts (sensor_controls f) h = absurd h
  request-Casts (sensor_activation f) h = absurd h

  response-Casts :
      (callback : Callback S) → Fits response_capabilities callback → Casts cast_response callback
  unfolding cast_response
  response-Casts (capability_response f) h = (f, refl, h)
  response-Casts (capability_request f) h = absurd h
  response-Casts (runtime_notification f) h = absurd h
  response-Casts (sensor_controls f) h = absurd h
  response-Casts (sensor_activation f) h = absurd h

  notification-Casts :
      (callback : Callback S)
      → Fits server_runtime_notification callback
      → Casts cast_notification callback
  unfolding cast_notification
  notification-Casts (runtime_notification f) h = (f, refl, h)
  notification-Casts (capability_request f) h = absurd h
  notification-Casts (capability_response f) h = absurd h
  notification-Casts (sensor_controls f) h = absurd h
  notification-Casts (sensor_activation f) h = absurd h

  control-Casts :
      (callback : Callback S) → Fits sensor_control callback → Casts cast_control callback
  unfolding cast_control
  control-Casts (sensor_controls f) h = (f, refl, h)
  control-Casts (capability_request f) h = absurd h
  control-Casts (capability_response f) h = absurd h
  control-Casts (runtime_notification f) h = absurd h
  control-Casts (sensor_activation f) h = absurd h

  activated-Casts :
      (callback : Callback S) → Fits sensor_activated callback → Casts cast_activated callback
  unfolding cast_activated
  activated-Casts (sensor_activation f) h = (f, refl, h)
  activated-Casts (capability_request f) h = absurd h
  activated-Casts (capability_response f) h = absurd h
  activated-Casts (runtime_notification f) h = absurd h
  activated-Casts (sensor_controls f) h = absurd h

  module _ (codec : EmserverCodec) (p : EmserverProcessor S) where
    dispatch-Kept :
        (type : ℕ) (payload : Bytes) (id : ℤ) (s : S)
        → FitsEach p
        → P s
        → Kept (dispatch codec p type payload id s)
    unfolding dispatch
    dispatch-Kept type payload id s fits h =
        if_both Kept (type == 1)
          (processing-Kept codec.request.parse cast_request (p.callbacks request_capabilites)
            payload id s (λ cb e. request-Casts cb (fits request_capabilites cb e)) h)
          (if_both Kept (type == 2)
            (processing-Kept codec.capabilities.parse cast_response
              (p.callbacks response_capabilities) payload id s
              (λ cb e. response-Casts cb (fits response_capabilities cb e)) h)
            (if_both Kept (type == 3)
              (processing-Kept codec.notification.parse cast_notification
                (p.callbacks server_runtime_notification) payload id s
                (λ cb e. notification-Casts cb (fits server_runtime_notification cb e)) h)
              (if_both Kept (type == 5)
                (processing-Kept codec.control.parse cast_control (p.callbacks sensor_control)
                  payload id s (λ cb e. control-Casts cb (fits sensor_control cb e)) h)
                (if_both Kept (type == 6)
                  (processing-Kept codec.activated.parse cast_activated
                    (p.callbacks sensor_activated) payload id s
                    (λ cb e. activated-Casts cb (fits sensor_activated cb e)) h)
                  (returns h)))))

    code-Kept :
        (message : CommonMessage) (code : Option ℕ) (s : S)
        → FitsEach p
        → P s
        → Kept (receive_code codec p message code s)
    unfolding receive_code receive_mode
    code-Kept message none s fits h = returns h
    code-Kept message (some code) s fits h =
        let read = codec.server_common.parse (bytes_or_empty message.payload) in
        if_both Kept (not (code == p.work_mode_code)) {yes_ = done (false, s)} (returns h) (
          if_both Kept (not read.1) {yes_ = done (false, s)} (returns h) (
            dispatch-Kept (number_or_zero read.0.type) (bytes_or_empty read.0.payload)
              (id_or_default read.0.id) s fits h))

    -- Whatever message is received, a table of fitting functions keeps what they all keep, and
    -- brings in no fault of its own.
    pub receive-Kept :
        (message : CommonMessage) (s : S)
        → FitsEach p
        → P s
        → Kept (receive_common_message codec p message s)
    unfolding receive_common_message
    receive-Kept message s fits h = code-Kept message message.code s fits h
