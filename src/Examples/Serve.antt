-- ===== src/Examples/Serve.antt =====
-- flconc/net/tcp/tcp_connection.cc on a connection that gets two requests at once.
use flconc.Base.{
  ◌+◌, ◌*◌, ◌^◌, ◌<◌, ◌≡◌, refl, subst, false, Bytes, List, [], ◌∷◌, ◌++◌, arith, Returns, map,
  length, take, take_all, length-take_bound, length-take_le, same_bytes,
}
use flconc.Base.Int.{pos}
use flconc.Tcp.Buffer.{init}
use flconc.Tcp.Buffer.Refine.{HasRoom, Holds, init-Holds, Holds-front}
use flconc.Flconcpb.Data.{FlconcPbStruct}
use flconc.Flconcpb.Fields.{Fits}
use flconc.Flconcpb.Dispatch.{
  answer, answer_parsed, start_reply, parse_service_full_name, split_at_dot, find_service,
  answer_service, answer_method, called,
}
use flconc.Tcp.Connection.{TcpConnection, connected, Written}
use flconc.Tcp.Connection.Input.{InAll, Read, AtMost, input, input-Appends}
use flconc.Tcp.Connection.Output.{Accepts, more, done}
use flconc.Tcp.Connection.Execute.{server_connection, client_connection, execute_loop, server_round}
use flconc.Tcp.Connection.Execute.Rounds.{execute_loop-ends}
use flconc.Tcp.Connection.Execute.Serve.{stream, reply_to, AllFit}
use flconc.Tcp.Connection.Execute.Pipeline.{Answered, execute_loop-Answered}
use flconc.Tcp.Connection.Execute.EndToEnd.{Arrives, server_round-Sends}
use flconc.Examples.Dispatch.{services, request, generator}

abbrev requests : List FlconcPbStruct
requests = request ∷ request ∷ []

pub request-Fits : Fits request
request-Fits = record {
  msg_some = omega arith;
  msg_fits = omega arith;
  msg_text = (omega arith, tt);
  name_fits = omega arith;
  name_text = (omega arith, (omega arith, (omega arith, tt)));
  info_fits = omega arith;
  info_text = tt;
  code_range = omega arith;
  size_range = omega arith;
}

requests-AllFit : AllFit services requests
unfolding answer answer_parsed start_reply parse_service_full_name split_at_dot find_service
    answer_service answer_method called same_bytes
requests-AllFit =
    ((request-Fits, omega arith, omega arith), ((request-Fits, omega arith, omega arith), tt))

abbrev pub connection : TcpConnection
connection = record {
  m_state = connected;
  m_read_buffer = init 128;
  m_write_buffer = init 128;
  m_stop = false;
  m_is_over_time = false;
  m_reply_datas = [];
  closes = 0;
}

-- The read returns what waits, up to the number of bytes asked for.
abbrev arrival : Read
arrival = record { read = λ n. take n (stream requests); is_over_time = false }

arrival-AtMost : AtMost (arrival ∷ [])
arrival-AtMost = ((λ n. length-take_le n (stream requests)), tt)

arrival-InAll : InAll (length (stream requests)) (arrival ∷ [])
arrival-InAll = λ n. (length-take_bound n (stream requests), tt)

requests-small : 2 * (connection.m_read_buffer.m_write_index + length (stream requests)) < 2 ^ 31
unfolding init
requests-small = omega arith

input-Appends_example : Returns (input (arrival ∷ []) connection) (λ r.
    Holds r.0.m_read_buffer ([] ++ r.1)
    × (r.0.m_write_buffer ≡ connection.m_write_buffer)
    × (r.0.m_reply_datas ≡ connection.m_reply_datas))
unfolding input
input-Appends_example =
    input-Appends (arrival ∷ []) [] (length (stream requests)) connection arrival-AtMost
      arrival-InAll requests-small (init-Holds 128)

arrival-Arrives : Arrives arrival connection.m_read_buffer (stream requests)
unfolding init
arrival-Arrives = record {
  returned = λ n h. take_all n (stream requests) h;
  some_bytes = omega arith;
  room = omega arith;
  in_time = refl;
}

abbrev replies : Bytes
replies = stream (map (reply_to services) requests)

abbrev writes : List Written
writes = record { rt = pos (length replies); is_over_time = false } ∷ []

writes-Accepts : Accepts writes (length replies)
writes-Accepts =
    let whole : length replies + 0 ≡ length replies = omega arith in
    subst (Accepts writes) whole (more (length replies) (omega arith) done)

replies-HasRoom : HasRoom connection.m_write_buffer (length replies)
unfolding init answer answer_parsed start_reply parse_service_full_name split_at_dot find_service
    answer_service answer_method called same_bytes
replies-HasRoom = omega arith

server_round-Sends_example :
    Returns
      (server_round
        (server_connection services)
        (record { reads = arrival ∷ []; writes = writes })
        connection
        generator)
      (λ r. (r.2 ≡ replies) × Holds r.0.m_write_buffer [] × (r.1 ≡ generator))
server_round-Sends_example =
    server_round-Sends services requests arrival [] writes connection generator refl refl
      (init-Holds 128) (init-Holds 128) arrival-Arrives requests-AllFit writes-Accepts
      replies-HasRoom

-- A byte that starts nothing, behind the requests.
abbrev queue : Bytes
queue = stream requests ++ (9 ∷ [])

abbrev loaded : TcpConnection
loaded = record connection {
  m_read_buffer = record { m_read_index = 0; m_write_index = length queue; m_buffer = queue ++ [] };
}

loaded-Holds : Holds loaded.m_read_buffer queue
loaded-Holds = Holds-front queue []

abbrev stray : Bytes
stray = 9 ∷ []

execute_loop-Answered_example :
    Returns
      (execute_loop (server_connection services) 3 loaded generator)
      (Answered services requests stray [] loaded generator)
execute_loop-Answered_example =
    execute_loop-Answered services requests stray [] 3 loaded generator requests-AllFit
      ((λ e. omega (arith, e)), tt) loaded-Holds (init-Holds 128) replies-HasRoom (omega arith)

execute_loop-ends_example :
    execute_loop client_connection 100 loaded generator
    ≡ execute_loop client_connection 69 loaded generator
execute_loop-ends_example =
    execute_loop-ends client_connection 69 100 loaded generator queue loaded-Holds (omega arith)
      (omega arith)
