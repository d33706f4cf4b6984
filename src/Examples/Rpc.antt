-- ===== src/Examples/Rpc.antt =====
-- flconc/net: a call of the echo method, on the client and on the server.
use flconc.Base.{
  ℕ, ◌+◌, ◌≡◌, ◌<◌, refl, subst, true, false, Bytes, List, [], ◌∷◌, some, arith, Returns, length,
  take, take_all, same_bytes,
}
use flconc.Base.Int.{pos}
use flconc.Tcp.Buffer.{init}
use flconc.Tcp.Buffer.Refine.{HasRoom, init-Holds}
use flconc.Flconcpb.Data.{FlconcPbStruct, fresh_struct}
use flconc.Flconcpb.Encode.{pack}
use flconc.Flconcpb.Fields.{Fits, received}
use flconc.Flconcpb.Dispatch.{parse_service_full_name, split_at_dot, find_service}
use flconc.Flconcpb.Dispatch.Answer.{Served}
use flconc.Flconcpb.Controller.{
  FlconcPbRpcController, new_controller, set_local_addr, set_peer_addr,
}
use flconc.Tcp.Connection.{not_connected, Written, take_reply}
use flconc.Tcp.Connection.Input.{Read}
use flconc.Tcp.Connection.Output.{Accepts, more, done}
use flconc.Tcp.Connection.Execute.{Round, server_connection, server_round}
use flconc.Tcp.Connection.Execute.Serve.{stream}
use flconc.Tcp.Connection.Execute.EndToEnd.{Arrives}
use flconc.Tcp.Client.{TcpClient, replied, send_and_recv_flconc_pb, ConnectTry}
use flconc.Tcp.Client.Replied.{send_and_recv_flconc_pb-replied}
use flconc.Flconcpb.Channel.{RpcCall, Peer, call_method, choose_number}
use flconc.Flconcpb.Channel.Calls.{number_of, request_of, Answers}
use flconc.Flconcpb.Channel.Served.{reply_with, Serves, call_method-served}
use flconc.Examples.Dispatch.{echo, services, request, generator}
use flconc.Examples.Serve.{connection, request-Fits}

-- A socket in which these bytes wait.
abbrev socket : Bytes → Read
socket ys = record { read = λ n. take n ys; is_over_time = false }

socket-Arrives : (ys : Bytes) → 0 < length ys → length ys < 128 → Arrives (socket ys) (init 128) ys
unfolding init
socket-Arrives ys p l = record {
  returned = λ n h. take_all n ys h;
  some_bytes = p;
  room = omega arith;
  in_time = refl;
}

-- A peer that takes all bytes at once.
abbrev whole : ℕ → List Written
whole n = record { rt = pos n; is_over_time = false } ∷ []

whole-Accepts : (n : ℕ) → 0 < n → Accepts (whole n) n
whole-Accepts n p = let e : n + 0 ≡ n = omega arith in subst (Accepts (whole n)) e (more n p done)

abbrev bytes : Bytes
bytes = 1 ∷ 2 ∷ []

abbrev reply : FlconcPbStruct
reply = reply_with request bytes

reply-Fits : Fits reply
reply-Fits = request-Fits

abbrev accepted : ConnectTry
accepted = record { rt = pos 0; errno = 0; is_timeout = false }

abbrev client : TcpClient
client = record {
  m_connection = record connection { m_state = not_connected };
  has_timer = false;
  resets = 0;
  m_is_stop = false;
}

send_and_recv_flconc_pb-replied_example :
    Returns
      (send_and_recv_flconc_pb
        (accepted ∷ [])
        []
        ((socket (pack reply) ∷ []) ∷ [])
        (b'7' ∷ [])
        client
        generator)
      (λ r.
        (r.0 ≡ replied (received reply fresh_struct)) × (r.1.has_timer ≡ false) × (r.2 ≡ generator))
unfolding take_reply
send_and_recv_flconc_pb-replied_example =
    send_and_recv_flconc_pb-replied reply [] 0 [] (socket (pack reply)) [] [] [] client generator
      refl refl (init-Holds 128) done (init-Holds 128)
      (socket-Arrives (pack reply) (omega arith) (omega arith)) reply-Fits refl

abbrev call : RpcCall
call = record {
  full_name = b'S' ∷ b'.' ∷ b'e' ∷ [];
  request = some bytes;
  parses = λ xs. true;
  run_time_number = [];
  local_addr = 0;
  peer_addr = 1;
  encode_text = [];
  client_text = [];
  parse_text = [];
}

abbrev controller : FlconcPbRpcController
controller = record new_controller { m_msg_req = b'7' ∷ [] }

abbrev peer : Peer
peer = record {
  tries = accepted ∷ [];
  writes = whole (length (pack request));
  rounds = (socket (pack reply) ∷ []) ∷ [];
}

request-HasRoom : HasRoom (init 128) (length (pack request))
unfolding init
request-HasRoom = omega arith

peer-Answers : Answers peer request reply
peer-Answers = record {
  errno = 0;
  more_tries = [];
  accepts = refl;
  takes = whole-Accepts (length (pack request)) (omega arith);
  first = socket (pack reply);
  reads = [];
  rounds = [];
  delivers = refl;
  arrives = socket-Arrives (pack reply) (omega arith) (omega arith);
  same_number = refl;
  has_room = request-HasRoom;
}

abbrev round : Round
round = record {
  reads = socket (stream (request ∷ [])) ∷ [];
  writes = whole (length (stream (reply ∷ [])));
}

reply-HasRoom : HasRoom (init 128) (length (stream (reply ∷ [])))
unfolding init
reply-HasRoom = omega arith

server-Serves : Serves services request bytes connection round
unfolding Served parse_service_full_name split_at_dot find_service same_bytes
server-Serves = record {
  served = (b'S' ∷ [], b'e' ∷ [], echo, refl, refl, refl, refl, refl);
  fits = request-Fits;
  named = omega arith;
  small = omega arith;
  is_open = refl;
  in_time = refl;
  reads_empty = init-Holds 128;
  writes_empty = init-Holds 128;
  first = socket (stream (request ∷ []));
  later = [];
  delivers = refl;
  arrives = socket-Arrives (stream (request ∷ [])) (omega arith) (omega arith);
  takes = whole-Accepts (length (stream (reply ∷ []))) (omega arith);
  has_room = reply-HasRoom;
}

call_method-served_example :
    Returns
      (server_round (server_connection services) round connection generator)
      (λ r. r.2 ≡ stream (reply_with (request_of call controller generator bytes) bytes ∷ []))
    × Returns (call_method call peer controller generator) (λ r. r.0 ≡ record {
      is_back = true;
      controller = (number_of call controller generator).1;
      response = some bytes;
      runs_done = true;
    })
unfolding choose_number set_local_addr set_peer_addr
call_method-served_example =
    call_method-served call peer controller generator bytes bytes services connection round
      generator refl refl server-Serves peer-Answers
