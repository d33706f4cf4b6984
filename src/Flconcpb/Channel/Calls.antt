-- ===== src/Flconcpb/Channel/Calls.antt =====
-- flconc/net/flconcpb/flconcpb_rpc_channel.cc: a call whose peer answers.
use flconc.Base.{
  ℕ, ◌^◌, ◌≡◌, ◌<◌, refl, sym, ap₂, ◌∙◌, false, Bytes, List, ◌∷◌, some, Returns, length,
}
use flconc.Base.Int.{pos}
use flconc.Comm.MsgReq.{MsgReqUtil}
use flconc.Tcp.Buffer.{init}
use flconc.Tcp.Buffer.Refine.{init-Holds, HasRoom}
use flconc.Flconcpb.Data.{FlconcPbStruct, fresh_struct}
use flconc.Flconcpb.Encode.{package_size, pack, encoded, encode}
use flconc.Flconcpb.Fields.{Fits, received}
use flconc.Flconcpb.Dispatch.Answer.{encode-long}
use flconc.Flconcpb.Controller.{FlconcPbRpcController, set_local_addr, set_peer_addr}
use flconc.Tcp.Connection.{new_connection, take_reply}
use flconc.Tcp.Connection.Input.{Read}
use flconc.Tcp.Connection.Output.{Accepts}
use flconc.Tcp.Connection.Execute.EndToEnd.{Arrives}
use flconc.Tcp.Client.{TcpClient, new_client, ConnectTry, send_and_recv_flconc_pb}
use flconc.Tcp.Client.Replied.{send_and_recv_flconc_pb-replied}
use flconc.Flconcpb.Channel.{
  RpcCall, Peer, answered, ended, choose_number, send_request, call_serialized, call_method,
}

-- The controller of a call, with its addresses.
abbrev pub addressed : RpcCall → FlconcPbRpcController → FlconcPbRpcController
addressed call c = set_peer_addr (some call.peer_addr) (set_local_addr (some call.local_addr) c)

-- The number, the controller and the generator of a call.
abbrev pub number_of :
    RpcCall → FlconcPbRpcController → MsgReqUtil → Bytes × FlconcPbRpcController × MsgReqUtil
number_of call c u = choose_number call (addressed call c) u

-- The package of a call.
abbrev pub request_of : RpcCall → FlconcPbRpcController → MsgReqUtil → Bytes → FlconcPbStruct
request_of call c u pb_data = record fresh_struct {
  service_full_name = call.full_name;
  pb_data = pb_data;
  msg_req = (number_of call c u).0;
}

-- The peer accepts the connection and the bytes, for which the buffer has room, and answers with the package
-- of the reply, in one read and strictly shorter than the read buffer.
pub record Answers (peer : Peer) (request reply : FlconcPbStruct) : Type 0 where
  pub errno : ℕ
  pub more_tries : List ConnectTry
  pub accepts : peer.tries ≡ record { rt = pos 0; errno = errno; is_timeout = false } ∷ more_tries
  pub has_room : HasRoom (init 128) (length (pack request))
  pub takes : Accepts peer.writes (length (pack request))
  pub first : Read
  pub reads : List Read
  pub rounds : List (List Read)
  pub delivers : peer.rounds ≡ (first ∷ reads) ∷ rounds
  pub arrives : Arrives first (init 128) (pack reply)
  pub same_number : reply.msg_req ≡ request.msg_req

-- When the request is serialized, the call has a service name and a number, and the package is shorter
-- than 2 ^ 31; and the peer accepts the connection, takes the package and answers it with the package
-- of a reply that fits, in one read that does not fill the read buffer: the call comes back with what `CallMethod` makes of exactly this reply.
pub call_method-answered :
    (call : RpcCall) (peer : Peer) (c : FlconcPbRpcController) (u : MsgReqUtil) (pb_data : Bytes)
    (d : FlconcPbStruct)
    → call.request ≡ some pb_data
    → 0 < length call.full_name
    → 0 < length (number_of call c u).0
    → package_size (request_of call c u pb_data) < 2 ^ 31
    → Answers peer (request_of call c u pb_data) d
    → Fits d
    → Returns (call_method call peer c u) (λ r.
      (r.0 ≡ answered call (number_of call c u).1 (received d fresh_struct))
      × (r.1 ≡ (number_of call c u).2))
unfolding call_method call_serialized send_request ended new_client new_connection take_reply
call_method-answered call peer c u pb_data d s name number small a f =
    let request : FlconcPbStruct = request_of call c u pb_data in
    let v : MsgReqUtil = (number_of call c u).2 in
    let (e, g, (held, same, is, _)) =
      encode-long request v (init-Holds 128) name number small a.has_room in
    let client : TcpClient = record new_client {
      m_connection = record (new_client.m_connection) { m_write_buffer = e.0 };
    } in
    let (r, h, (got, _, gen)) =
      send_and_recv_flconc_pb-replied d (pack request) a.errno a.more_tries a.first a.reads
        peer.writes a.rounds client v refl refl held a.takes (init-Holds 128) a.arrives f refl in
    let whole : encode (init 128) request v ≡ some (e.0, encoded request, v) =
      g ∙ ap₂ (λ x y. some (e.0, x, y)) is same in
    let sent : send_and_recv_flconc_pb peer.tries peer.writes peer.rounds request.msg_req client v
        ≡ some r =
      rw (a.accepts, a.delivers, sym a.same_number) h in
    (
      (answered call (number_of call c u).1 (received d fresh_struct), v),
      simp (s, whole, sent, got, gen),
      (refl, refl),
    )
