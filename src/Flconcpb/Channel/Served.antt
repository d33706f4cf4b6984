-- ===== src/Flconcpb/Channel/Served.antt =====
-- flconc/net: a call from the channel of the client to the service and back. The two ends share the bytes.
use flconc.Base.{
  ◌^◌, ◌≡◌, ◌<◌, sym, ap, ◌∙◌, true, false, Bytes, List, [], ◌∷◌, some, Returns, subst, arith,
  length,
}
use flconc.Comm.MsgReq.{MsgReqUtil}
use flconc.Tcp.Buffer.Refine.{Holds, HasRoom}
use flconc.Flconcpb.Data.{FlconcPbStruct, fresh_struct}
use flconc.Flconcpb.Encode.{package_size}
use flconc.Flconcpb.Fields.{Fits, received}
use flconc.Flconcpb.Dispatch.{Entry, answer, answer_parsed, answer_service, answer_method, called}
use flconc.Flconcpb.Dispatch.Answer.{Served}
use flconc.Flconcpb.Controller.{FlconcPbRpcController}
use flconc.Tcp.Connection.{TcpConnection, connected}
use flconc.Tcp.Connection.Input.{Read}
use flconc.Tcp.Connection.Output.{Accepts}
use flconc.Tcp.Connection.Execute.{server_connection, server_round, Round}
use flconc.Tcp.Connection.Execute.Serve.{stream, reply_to}
use flconc.Tcp.Connection.Execute.EndToEnd.{Arrives, server_round-Sends}
use flconc.Flconcpb.Channel.{RpcCall, Peer, answered, call_method}
use flconc.Flconcpb.Channel.Calls.{number_of, request_of, Answers, call_method-answered}

-- The reply that carries what a method returned.
abbrev pub reply_with : FlconcPbStruct → Bytes → FlconcPbStruct
reply_with d bytes = record fresh_struct {
  service_full_name = d.service_full_name;
  msg_req = d.msg_req;
  pb_data = bytes;
}

reply_to-Served :
    (services : List Entry) (d : FlconcPbStruct) (bytes : Bytes)
    → Served services (received d fresh_struct) bytes
    → reply_to services d ≡ reply_with d bytes
unfolding answer answer_parsed answer_service answer_method called Served
reply_to-Served services d bytes (name, method, service, p, f, m, t, r) = simp (p, f, m, t, r)

reply_with-Fits :
    (d : FlconcPbStruct) (bytes : Bytes)
    → Fits d
    → package_size (reply_with d bytes) < 2 ^ 31
    → Fits (reply_with d bytes)
reply_with-Fits d bytes f small = record {
  msg_some = f.msg_some;
  msg_fits = f.msg_fits;
  msg_text = f.msg_text;
  name_fits = f.name_fits;
  name_text = f.name_text;
  info_fits = omega arith;
  info_text = tt;
  code_range = omega arith;
  size_range = small;
}

-- A server with the method that the call names, whose package it can read, and whose answer is
-- short enough; its connection is ready, gets the package of the call at once, and the peer takes all
-- that it writes.
pub record Serves (services : List Entry) (d : FlconcPbStruct) (bytes : Bytes) (c : TcpConnection)
    (w : Round) : Type 0 where
  pub served : Served services (received d fresh_struct) bytes
  pub fits : Fits d
  pub named : 0 < length d.service_full_name
  pub small : package_size (reply_with d bytes) < 2 ^ 31
  pub is_open : c.m_state ≡ connected
  pub in_time : c.m_is_over_time ≡ false
  pub reads_empty : Holds c.m_read_buffer []
  pub writes_empty : Holds c.m_write_buffer []
  pub first : Read
  pub later : List Read
  pub delivers : w.reads ≡ first ∷ later
  pub arrives : Arrives first c.m_read_buffer (stream (d ∷ []))
  pub has_room : HasRoom c.m_write_buffer (length (stream (reply_with d bytes ∷ [])))
  pub takes : Accepts w.writes (length (stream (reply_with d bytes ∷ [])))

server_round-replies :
    (services : List Entry) (d : FlconcPbStruct) (bytes : Bytes) (c : TcpConnection) (w : Round)
    (u : MsgReqUtil)
    → Serves services d bytes c w
    → Returns
        (server_round (server_connection services) w c u)
        (λ r. r.2 ≡ stream (reply_with d bytes ∷ []))
server_round-replies services d bytes c w u s =
    let is : reply_to services d ≡ reply_with d bytes = reply_to-Served services d bytes s.served in
    let (r, e, q) =
      server_round-Sends services (d ∷ []) s.first s.later w.writes c u s.is_open s.in_time
        s.reads_empty s.writes_empty s.arrives
        ((s.fits, s.named, subst (λ t. package_size t < 2 ^ 31) (sym is) s.small), tt)
        (subst (λ t. Accepts w.writes (length (stream (t ∷ [])))) (sym is) s.takes)
        (subst (λ t. HasRoom c.m_write_buffer (length (stream (t ∷ [])))) (sym is) s.has_room) in
    (
      r,
      subst (λ t. server_round (server_connection services) (record w { reads = t }) c u ≡ some r)
          (sym s.delivers) e,
      q.0 ∙ ap (λ t. stream (t ∷ [])) is,
    )

-- A call whose request is serialized and whose response parses from what the method of the service
-- returns, between a client and a connected server with empty buffers, each of which takes all that
-- the other sends. The package of the request fits, comes to the server in one read, in time, and is
-- strictly shorter than the room of its read buffer; that of the reply is shorter than 2 ^ 31, comes
-- to the client in one read, in time, and is strictly shorter than its read buffer of 128 bytes; and
-- the write buffers have room for both. Then the server sends exactly the package of the method's
-- bytes under the number of the call; and from these bytes the call comes back without an error,
-- with these bytes as its response, and `done` is run.
pub call_method-served :
    (call : RpcCall) (peer : Peer) (c : FlconcPbRpcController) (u : MsgReqUtil)
    (pb_data bytes : Bytes) (services : List Entry) (server : TcpConnection) (w : Round)
    (v : MsgReqUtil)
    → call.request ≡ some pb_data
    → call.parses bytes ≡ true
    → Serves services (request_of call c u pb_data) bytes server w
    → Answers peer (request_of call c u pb_data) (reply_with (request_of call c u pb_data) bytes)
    → Returns
        (server_round (server_connection services) w server v)
        (λ r. r.2 ≡ stream (reply_with (request_of call c u pb_data) bytes ∷ []))
      × Returns (call_method call peer c u) (λ r. r.0 ≡ record {
        is_back = true;
        controller = (number_of call c u).1;
        response = some bytes;
        runs_done = true;
      })
unfolding answered
call_method-served call peer c u pb_data bytes services server w v q p s a =
    let request : FlconcPbStruct = request_of call c u pb_data in
    let (r, e, t) =
      call_method-answered call peer c u pb_data (reply_with request bytes) q s.named
        s.fits.msg_some s.fits.size_range a (reply_with-Fits request bytes s.fits s.small) in
    (server_round-replies services request bytes server w v s, (r, e, t.0 ∙ simp p))
