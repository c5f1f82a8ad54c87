-- ===== src/System/ThereAndBack/Runs.antt =====
-- The request and the three strings of its answer over a connection.
use emserver.System.Samples.{
  codec, idle, program, open_session, client, peer, server, request_string, request_frame, asks,
  sends, has_sent, run_sends, reads_pieces, has_read, run_reads,
}
use emserver.Base.{List, take, drop, le32}
use emserver.Samples.{sum32, plain_codec}
use emserver.Protocol.{make_protocol_message}
use emserver.Protocol.Frame.{frame, covered}
use emserver.Common.{CommonProcessor, reads, thread, init, run, wrap, prepare_data}
use emserver.Session.Send.{
  Sender, SendEvent, calls, goes, transmits, completes, handles, connected, send_step, send_run,
}
use emserver.Session.Read.{
  Reader, ReadEvent, opened, reads_exactly, read_step, read_run, waits, arrives, transfers,
}
use emserver.Session.Read
use emserver.Base.{
  ◌≡◌, refl, [], ◌∷◌, ◌++◌, map, false, some, true, done, done-injective, pos, arith, Bytes,
}
use emserver.Emserver.{receive_common_message}
use emserver.Emserver.Dispatch.{in_mode}
use emserver.Server.{CServer, processor}
use emserver.Client.{parser_protocol}
use emserver.NativeServer.{application, capabilities_request}
use emserver.System.{receive_all}
use emserver.System.Journey.{Journey, Arrives, processor_events}
use emserver.System.ThereAndBack.{conversation_over_wire}
use emserver.Client.Exchange.{request_reaches_server}
use emserver.Client.Sent.{send_activated-sensor, send_method_call_result-sent}
use emserver.Server.Replies.{send_capabilities-array}
use emserver.Samples.Messages.Answers.{
  one, two, three, capabilities-one, activation-two, result-three,
}
use emserver.Session.Send.{completes}
use emserver.NativeServer.{on_client_capabilities_request, system_sensors, contact, thermometer}
use emserver.Base.{subst, sym, ap, ◌∙◌}

there : Journey
there = record {
  sent = sends;
  sender = has_sent;
  got = reads_pieces;
  reader = has_read;
  events = reads (take 7 request_frame) ∷ thread true ∷ reads (drop 7 request_frame) ∷ [];
  timeouts = true ∷ false ∷ [];
}

there-Arrives : Arrives true sum32 plain_codec there
unfolding there wrap plain_codec frame covered sum32 le32
there-Arrives = record {
  steady = (omega arith);
  sends = run_sends;
  quiet = (refl, refl, refl);
  reads = run_reads;
  same = refl;
  flushed = (refl, refl, refl);
  chunks = refl;
  alive = tt;
  clean = (omega arith);
  enough = (omega arith);
}

-- The three frames of the answer.
abbrev frame_one : Bytes
frame_one = 36 ∷ 31 ∷ 0 ∷ 0 ∷ 0 ∷ 1 ∷ 1 ∷ 1 ∷ 1 ∷ (one ++ (155 ∷ 0 ∷ 0 ∷ 0 ∷ []))

prepare_one : prepare_data sum32 plain_codec one ≡ frame_one
unfolding prepare_data sum32 plain_codec make_protocol_message
prepare_one = refl

abbrev frame_two : Bytes
frame_two = 36 ∷ 21 ∷ 0 ∷ 0 ∷ 0 ∷ 1 ∷ 1 ∷ 1 ∷ 1 ∷ (two ++ (121 ∷ 0 ∷ 0 ∷ 0 ∷ []))

prepare_two : prepare_data sum32 plain_codec two ≡ frame_two
unfolding prepare_data sum32 plain_codec make_protocol_message
prepare_two = refl

abbrev frame_three : Bytes
frame_three = 36 ∷ 17 ∷ 0 ∷ 0 ∷ 0 ∷ 1 ∷ 1 ∷ 1 ∷ 1 ∷ (three ++ (79 ∷ 0 ∷ 0 ∷ 0 ∷ []))

prepare_three : prepare_data sum32 plain_codec three ≡ frame_three
unfolding prepare_data sum32 plain_codec make_protocol_message
prepare_three = refl

abbrev answer_wire : Bytes
answer_wire = frame_one ++ (frame_two ++ frame_three)

abbrev sends_answer : List SendEvent
sends_answer =
    calls one
    ∷ goes
    ∷ transmits 40
    ∷ completes
    ∷ handles
    ∷ calls two
    ∷ goes
    ∷ transmits 30
    ∷ completes
    ∷ handles
    ∷ calls three
    ∷ goes
    ∷ transmits 26
    ∷ completes
    ∷ handles
    ∷ []

abbrev answer_sent : Sender
answer_sent = record has_sent { wire = answer_wire }

run_sends_answer :
    send_run true (prepare_data sum32 plain_codec) sends_answer connected ≡ some answer_sent
unfolding send_run send_step connected
run_sends_answer = rw (prepare_one, prepare_two, prepare_three, send_run)

abbrev reads_answer : List ReadEvent
reads_answer =
    waits ∷ arrives answer_wire ∷ transfers ∷ Read.handles ∷ transfers ∷ Read.handles ∷ []

abbrev answer_read : Reader
answer_read = record has_read { handed = answer_wire ∷ [] }

run_reads_answer : read_run reads_answer opened ≡ some answer_read
unfolding read_run read_step opened
run_reads_answer = refl

back : Journey
back = record {
  sent = sends_answer;
  sender = answer_sent;
  got = reads_answer;
  reader = answer_read;
  events = reads answer_wire ∷ [];
  timeouts = true ∷ true ∷ true ∷ true ∷ true ∷ true ∷ [];
}

back-Arrives : Arrives true sum32 plain_codec back
unfolding back wrap plain_codec frame covered sum32 le32
back-Arrives = record {
  steady = (omega arith);
  sends = run_sends_answer;
  quiet = (refl, refl, refl);
  reads = run_reads_answer;
  same = refl;
  flushed = (refl, refl, refl);
  chunks = refl;
  alive = tt;
  clean = (omega arith);
  enough = (omega arith);
}

abbrev half_answered : CServer
half_answered = record server { sent = one ∷ two ∷ [] }

abbrev has_answered : CServer
has_answered = record server { sent = one ∷ two ∷ three ∷ [] }

application_answers :
    (application codec program).caps_request capabilities_request (pos 7) server
    ≡ done (pos 0, half_answered)
unfolding application on_client_capabilities_request system_sensors
application_answers = rw (
  send_capabilities-array codec server peer (contact ∷ thermometer (pos 0) ∷ []) (pos 7) refl refl
      (tt, (tt, tt)),
  capabilities-one,
  send_activated-sensor codec (record server { sent = one ∷ [] }) peer (thermometer (pos 30))
      (pos 0) refl refl tt,
  activation-two,
)

server_answers :
    receive_common_message codec
      (processor codec (application codec program))
      (in_mode codec (processor codec (application codec program)) request_string)
      server
    ≡ done (true, has_answered)
server_answers =
    let (str, asked, answered) =
      request_reaches_server codec (application codec program) client open_session server
        half_answered capabilities_request (pos 0) refl refl (omega arith) refl
        application_answers in
    let same : (str ∷ []) ≡ (request_string ∷ []) = sym (ap (λ x. x.1.sent) asked) ∙ asks in
    let is : str ≡ request_string = cc same in
    subst
      (λ t.
        receive_common_message codec (processor codec (application codec program))
          (in_mode codec (processor codec (application codec program)) t) server
        ≡ done (true, has_answered))
      is
      (answered
        ∙ ap (λ t. done (true, t))
            (send_method_call_result-sent codec half_answered peer 7 (pos 0) refl refl
              ∙ rw result-three))

answers :
    receive_all codec
      (processor codec (application codec program))
      (map (in_mode codec (processor codec (application codec program))) (request_string ∷ []))
      server
    ≡ done has_answered
unfolding receive_all
answers = rw server_answers

conversation_over_wire_example :
    (q q' : CommonProcessor) × (s' : CServer) × (run sum32 plain_codec
        (processor_events true sum32 plain_codec there)
        init
      ≡ done q)
    × (receive_all codec (processor codec (application codec program)) q.delivered server ≡ done s')
    × (run sum32 plain_codec (processor_events true sum32 plain_codec back) init ≡ done q')
    × (receive_all codec (parser_protocol codec idle) q'.delivered client ≡ done client)
conversation_over_wire_example =
    conversation_over_wire true sum32 plain_codec codec idle program client client client client
      client open_session server peer capabilities_request 3 4 2 there back refl refl (omega arith)
      refl refl refl refl (unfold idle in refl) refl (unfold idle in refl) refl
      (unfold idle in refl) there-Arrives (unfold there in asks) back-Arrives
      (unfold there in unfold back in λ s' e. ap (λ x. x.sent) (done-injective (sym e ∙ answers)))
