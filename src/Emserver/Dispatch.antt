-- ===== src/Emserver/Dispatch.antt =====
-- Which callback a received message reaches.
use emserver.Base.{
  ℕ, ◌≡◌, refl, sym, ◌∙◌, Option, none, some, Bool, true, false, not, Run, done, ◌>>=◌, >>=-eq-done,
  Bytes, ℤ, arith, if◌then◌else◌, ◌==◌, ==_refl, if_eq_true, if_eq_false, Bool-cases, inl, inr,
}
use emserver.Common.{CommonMessage, bytes_or_empty}
use emserver.Emserver.Proto.{
  EmserverCodec, ServerCommonMessage, ProtoMessage, request, capabilities, notification, control,
  activated, message_is_initialized, message_serialize,
}
use emserver.Emserver.{
  MethodCode, request_capabilites, response_capabilities, server_runtime_notification,
  sensors_configuration_control, sensor_control, sensor_activated, Callback, capability_request,
  capability_response, runtime_notification, sensor_controls, sensor_activation, EmserverProcessor,
  method_number, make_message, receive_common_message, receive_code, receive_mode, dispatch,
  common_callback_processing, find_and_call, call, number_or_zero, id_or_default, cast_request,
  cast_response, cast_notification, cast_control, cast_activated,
}

-- The code under which the dispatch expects a message.
abbrev pub method_of : ProtoMessage → MethodCode
method_of (request m) = request_capabilites
method_of (capabilities m) = response_capabilities
method_of (notification m) = server_runtime_notification
method_of (control m) = sensor_control
method_of (activated m) = sensor_activated

-- A callback of the type that belongs to the message, applied to it.
abbrev pub invoke : {S : Type 0} → Callback S → ProtoMessage → Option (ℤ → S → Run S)
invoke (capability_request f) (request m) = some (f m)
invoke (capability_response f) (capabilities m) = some (f m)
invoke (runtime_notification f) (notification m) = some (f m)
invoke (sensor_controls f) (control m) = some (f m)
invoke (sensor_activation f) (activated m) = some (f m)
invoke _ _ = none

-- A run that reports `false` leaves the state `s`.
abbrev Untouched : {S : Type 0} → S → Run (Bool × S) → Type 0
Untouched {S} s r = (s' : S) → r ≡ done (false, s') → s' ≡ s

rejected : {S : Type 0} (s : S) → Untouched s (done (false, s))
rejected s s' e = cc

if-Untouched :
    {S : Type 0} {x y : Run (Bool × S)} (s : S) (b : Bool)
    → Untouched s x
    → Untouched s y
    → Untouched s (if b then x else y)
if-Untouched s true hx hy = hx
if-Untouched s false hx hy = hy

module _ (codec : EmserverCodec) {S : Type 0} (p : EmserverProcessor S) where
  -- A message in the common message of the processor's own mode.
  abbrev pub in_mode : Bytes → CommonMessage
  in_mode bytes = record { code = some p.work_mode_code; payload = some bytes }

  receive-make_message :
      (code : MethodCode) (m : ProtoMessage) (id : ℤ) (s : S)
      → message_is_initialized m ≡ true
      → receive_common_message codec p (in_mode (make_message codec code (some m) id)) s
        ≡ dispatch codec p (method_number code) (message_serialize codec m) id s
  unfolding receive_common_message make_message
  receive-make_message code m id s h =
      let msg : ServerCommonMessage = record {
        type = some (method_number code);
        payload = some (message_serialize codec m);
        id = some id;
      } in
      rw (==_refl p.work_mode_code, h, codec.server_common.parse-serialize msg refl)

  -- A message that one side makes under the code of its kind, and that arrives in the mode of the
  -- other side, calls the callback registered for it there with that message and its id, once.
  pub receive_calls :
      (m : ProtoMessage) (id : ℤ) (s : S) (callback : Callback S) (f : ℤ → S → Run S)
      → message_is_initialized m ≡ true
      → p.callbacks (method_of m) ≡ some callback
      → invoke callback m ≡ some f
      → receive_common_message codec p (in_mode (make_message codec (method_of m) (some m) id)) s
        ≡ (f id s >>= λ s'. done (true, s'))
  unfolding dispatch
  receive_calls (request m) id s (capability_request g) f h e i =
      receive-make_message request_capabilites (request m) id s h
      ∙ ground (arith, codec.request.parse-serialize m h, e, i)
  receive_calls (capabilities m) id s (capability_response g) f h e i =
      receive-make_message response_capabilities (capabilities m) id s h
      ∙ ground (arith, codec.capabilities.parse-serialize m h, e, i)
  receive_calls (notification m) id s (runtime_notification g) f h e i =
      receive-make_message server_runtime_notification (notification m) id s h
      ∙ ground (arith, codec.notification.parse-serialize m h, e, i)
  receive_calls (control m) id s (sensor_controls g) f h e i =
      receive-make_message sensor_control (control m) id s h
      ∙ ground (arith, codec.control.parse-serialize m h, e, i)
  receive_calls (activated m) id s (sensor_activation g) f h e i =
      receive-make_message sensor_activated (activated m) id s h
      ∙ ground (arith, codec.activated.parse-serialize m h, e, i)
  receive_calls _ id s _ f h e i = absurd (cc i)

  -- The dispatch has no case for the code `SensorsConfigurationControl`: such a message calls no
  -- callback, whatever is registered.
  pub receive-sensors_configuration_control :
      (m : ProtoMessage) (id : ℤ) (s : S)
      → message_is_initialized m ≡ true
      → receive_common_message codec p
          (in_mode (make_message codec sensors_configuration_control (some m) id))
          s
        ≡ done (false, s)
  unfolding dispatch
  receive-sensors_configuration_control m id s h =
      receive-make_message sensors_configuration_control m id s h

  call-false :
      {M : Type 0} (o : Option (M → ℤ → S → Run S)) (msg : M) (id : ℤ) (s s' : S)
      → call o msg id s ≡ done (false, s')
      → s' ≡ s
  unfolding call
  call-false none msg id s s' e = absurd (cc e)
  call-false (some f) msg id s s' e =
      let (t, _, e') = >>=-eq-done (f msg id s) (λ t. done (true, t)) e in absurd (cc e')

  processing-false :
      {M : Type 0} (parse : Bytes → M × Bool) (cast : Callback S → Option (M → ℤ → S → Run S))
      (entry : Option (Callback S)) (payload : Bytes) (id : ℤ) (s : S)
      → Untouched s (common_callback_processing parse cast entry payload id s)
  unfolding common_callback_processing find_and_call
  processing-false parse cast entry payload id s s' e = elim (Bool-cases (not (parse payload).1)) [
    | inl bad ↦ cc (e, if_eq_true _ _ bad)
    | inr good ↦ found entry (sym (if_eq_false _ _ good) ∙ e)
  ]
    where
      found :
          (o : Option (Callback S))
          → find_and_call cast o (parse payload).0 id s ≡ done (false, s')
          → s' ≡ s
      found none e' = cc
      found (some callback) e' = call-false (cast callback) (parse payload).0 id s s' e'

  dispatch-Untouched :
      (type : ℕ) (payload : Bytes) (id : ℤ) (s : S)
      → Untouched s (dispatch codec p type payload id s)
  unfolding dispatch
  dispatch-Untouched type payload id s =
      if-Untouched s (type == 1)
        (processing-false codec.request.parse cast_request (p.callbacks request_capabilites) payload
          id s)
        (if-Untouched s (type == 2)
          (processing-false codec.capabilities.parse cast_response
            (p.callbacks response_capabilities) payload id s)
          (if-Untouched s (type == 3)
            (processing-false codec.notification.parse cast_notification
              (p.callbacks server_runtime_notification) payload id s)
            (if-Untouched s (type == 5)
              (processing-false codec.control.parse cast_control (p.callbacks sensor_control)
                payload id s)
              (if-Untouched s (type == 6)
                (processing-false codec.activated.parse cast_activated
                  (p.callbacks sensor_activated) payload id s)
                (rejected s)))))

  receive_code-Untouched :
      (message : CommonMessage) (code : Option ℕ) (s : S)
      → Untouched s (receive_code codec p message code s)
  unfolding receive_code receive_mode
  receive_code-Untouched message none s = rejected s
  receive_code-Untouched message (some code) s =
      let (inner, is_ok) = codec.server_common.parse (bytes_or_empty message.payload) in
      if-Untouched s (not (code == p.work_mode_code)) (rejected s) (
        if-Untouched s (not is_ok) (rejected s) (
          dispatch-Untouched (number_or_zero inner.type) (bytes_or_empty inner.payload)
            (id_or_default inner.id) s))

  -- If the processor reports that it has not processed a message, no callback has been called: the
  -- state is what it was.
  pub receive-false :
      (message : CommonMessage) (s s' : S)
      → receive_common_message codec p message s ≡ done (false, s')
      → s' ≡ s
  unfolding receive_common_message
  receive-false message s s' = receive_code-Untouched message message.code s s'
