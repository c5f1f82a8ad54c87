-- ===== src/Api/Lifetime.antt =====
-- The C functions before a server is created and after it is released, and the start of a server.
use emserver.Base.{ℕ, ◌≡◌, refl, List, [], ◌∷◌, Option, none, some, Run, done, ◌>>=◌, Bytes, ℤ}
use emserver.Emserver.Proto.{EmserverCodec}
use emserver.Sensors.Server.{Sensors, SensorBase}
use emserver.Server.{error_one}
use emserver.Server.Transport.{Network}
use emserver.Api.{
  Global, server_register_callback_client_connected, server_register_callback_capabilities_request,
  server_register_callback_sensors_control_request, server_register_callback_logging, server_listen,
  server_close, server_release, server_runtime_error, send_capabilities, send_activesensor,
}

-- The calls of the interface but for the creation of a server.
pub data Call : Type 0 where
  registers_connected registers_capabilities registers_control registers_log : Option ℕ → Call
  listens : Option Bytes → ℤ → Call
  reports : ℤ → Bytes → Call
  closes releases : Call
  answers : ℤ → Sensors → Call
  activates : ℤ → Option SensorBase → Call

module _ (net : Network) (codec : EmserverCodec) where
  -- A call, with what it returns if it returns something.
  abbrev pub perform : Call → Global → Run (Option ℤ × Global)
  perform (registers_connected cb) g =
      let (ret, g') = server_register_callback_client_connected cb g in done (some ret, g')
  perform (registers_capabilities cb) g =
      let (ret, g') = server_register_callback_capabilities_request cb g in done (some ret, g')
  perform (registers_control cb) g =
      let (ret, g') = server_register_callback_sensors_control_request cb g in done (some ret, g')
  perform (registers_log cb) g = done (none, server_register_callback_logging cb g)
  perform (listens address port) g =
      server_listen net address port g >>= λ (ret, g'). done (some ret, g')
  perform (reports code description) g = done (none, server_runtime_error codec code description g)
  perform closes g = done (none, server_close g)
  perform releases g = done (none, server_release g)
  perform (answers id caps) g =
      send_capabilities codec id caps g >>= λ (ret, g'). done (some ret, g')
  perform (activates id sensor) g =
      send_activesensor codec id sensor g >>= λ (ret, g'). done (some ret, g')

  unfoldable pub perform_all : List Call → Global → Run (List (Option ℤ) × Global)
  perform_all [] g = done ([], g)
  perform_all (c ∷ cs) g =
      perform c g >>= λ (ret, g'). perform_all cs g' >>= λ (rets, g''). done (ret ∷ rets, g'')

  -- What a call returns where there is no server.
  abbrev pub refusal : Call → Option ℤ
  refusal (reports code description) = none
  refusal (registers_log cb) = none
  refusal closes = none
  refusal releases = none
  refusal _ = some error_one

  abbrev pub refusals : List Call → List (Option ℤ)
  refusals [] = []
  refusals (c ∷ cs) = refusal c ∷ refusals cs

  perform-none : (c : Call) → perform c none ≡ done (refusal c, none)
  unfolding server_register_callback_logging server_register_callback_client_connected
      server_register_callback_capabilities_request server_register_callback_sensors_control_request
      server_listen server_runtime_error server_close server_release send_capabilities
      send_activesensor
  perform-none (registers_connected cb) = refl
  perform-none (registers_capabilities cb) = refl
  perform-none (registers_control cb) = refl
  perform-none (registers_log cb) = refl
  perform-none (listens address port) = refl
  perform-none (reports code description) = refl
  perform-none closes = refl
  perform-none releases = refl
  perform-none (answers id caps) = refl
  perform-none (activates id sensor) = refl

  -- After server_release, and until a server is created, the functions may be called in any order:
  -- none of them crashes or makes a server, and those that return a code return -1.
  pub released_refuses :
      (cs : List Call) (g : Global) → perform_all cs (server_release g) ≡ done (refusals cs, none)
  unfolding perform_all server_release
  released_refuses cs g = all cs
    where
      all : (cs' : List Call) → perform_all cs' none ≡ done (refusals cs', none)
      all [] = refl
      all (c ∷ cs') = rw (perform-none c, all cs')
