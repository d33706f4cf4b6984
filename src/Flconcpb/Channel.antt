-- ===== src/Flconcpb/Channel.antt =====
-- flconc/net/flconcpb/flconcpb_rpc_channel.cc: `CallMethod`, and the state of
-- flconcpb_rpc_async_channel.cc. Protobuf is a parameter: the request serialized, or `none`, and whether
-- the response parses from given bytes. The number of the run time is empty where there is none; the
-- text of a failed call is a parameter too. The client's timer gets the controller's time.
pub mod Calls
pub mod Served
use flconc.Base.{
  ℕ, Bool, true, false, Bytes, List, [], ◌∷◌, Option, none, some, if◌then◌else◌, ◌>>=◌, is_empty,
  not,
}
use flconc.Base.Int.{ℤ, pos, eq_ℤ}
use flconc.Comm.MsgReq.{MsgReqUtil, gen_msg_number}
use flconc.Tcp.Buffer.{TcpBuffer}
use flconc.Flconcpb.Data.{FlconcPbStruct, fresh_struct}
use flconc.Flconcpb.Encode.{encode}
use flconc.Flconcpb.Controller.{
  FlconcPbRpcController, set_error, set_msg_req, set_local_addr, set_peer_addr,
}
use flconc.Tcp.Connection.{Written}
use flconc.Tcp.Connection.Input.{Read}
use flconc.Tcp.Client.{
  TcpClient, new_client, ConnectTry, CallEnd, call_waits, parked, replied, returned,
  send_and_recv_flconc_pb,
}

abbrev pub error_failed_deserialize : ℤ
error_failed_deserialize = pos 10000003

abbrev pub error_failed_encode : ℤ
error_failed_encode = pos 10000005

-- What a call is given. The texts are those of the code and of the client.
pub record RpcCall : Type 0 where
  pub full_name : Bytes
  pub request : Option Bytes
  pub parses : Bytes → Bool
  pub run_time_number : Bytes
  pub local_addr : ℕ
  pub peer_addr : ℕ
  pub encode_text : Bytes
  pub client_text : Bytes
  pub parse_text : Bytes

-- What the peer and the system answer.
pub record Peer : Type 0 where
  pub tries : List ConnectTry
  pub writes : List Written
  pub rounds : List (List Read)

-- The call has come back, or it waits or is parked; the response that was parsed; and whether `done`
-- is run, where it is not null.
pub record Outcome : Type 0 where
  pub is_back : Bool
  pub controller : FlconcPbRpcController
  pub response : Option Bytes
  pub runs_done : Bool

abbrev pub gives_up : FlconcPbRpcController → Outcome
gives_up c = record { is_back = true; controller = c; response = none; runs_done = false }

-- Once a reply is there.
unfoldable pub answered : RpcCall → FlconcPbRpcController → FlconcPbStruct → Outcome
answered call c d =
    if call.parses d.pb_data
    then if eq_ℤ d.err_code (pos 0)
      then record { is_back = true; controller = c; response = some d.pb_data; runs_done = true }
      else record {
        is_back = true;
        controller = set_error d.err_code d.err_info c;
        response = some d.pb_data;
        runs_done = false;
      }
    else gives_up (set_error error_failed_deserialize call.parse_text c)

-- `if (rt != 0)`
unfoldable pub ended : RpcCall → FlconcPbRpcController → CallEnd → Outcome
ended call c (replied d) = answered call c d
ended call c (returned rt) = gives_up (set_error rt call.client_text c)
ended call c _ = record { is_back = false; controller = c; response = none; runs_done = false }

-- The number of the call, the controller and the generator.
unfoldable pub choose_number :
    RpcCall → FlconcPbRpcController → MsgReqUtil → Bytes × FlconcPbRpcController × MsgReqUtil
choose_number call c u =
    if not (is_empty c.m_msg_req)
    then (c.m_msg_req, c, u)
    else if not (is_empty call.run_time_number)
    then (call.run_time_number, set_msg_req call.run_time_number c, u)
    else ((gen_msg_number u).0, set_msg_req (gen_msg_number u).0 c, (gen_msg_number u).1)

-- From behind `encode` on.
unfoldable pub send_request :
    RpcCall
    → Peer
    → FlconcPbRpcController
    → TcpBuffer × FlconcPbStruct × MsgReqUtil
    → Option (Outcome × MsgReqUtil)
send_request call peer c (out, d, u) =
    if d.encode_succ
    then (send_and_recv_flconc_pb peer.tries peer.writes peer.rounds d.msg_req
          (record new_client {
            m_connection = record (new_client.m_connection) { m_write_buffer = out };
          })
          u
        >>= λ r. some (ended call c r.0, r.2))
    else some (gives_up (set_error error_failed_encode call.encode_text c), u)

unfoldable pub call_serialized :
    RpcCall
    → Peer
    → FlconcPbRpcController
    → MsgReqUtil
    → Option Bytes
    → Option (Outcome × MsgReqUtil)
call_serialized call peer c u none = some (gives_up c, u)
call_serialized call peer c u (some pb_data) =
    let number = choose_number call c u in
    encode new_client.m_connection.m_write_buffer
      (record fresh_struct {
        service_full_name = call.full_name;
        pb_data = pb_data;
        msg_req = number.0;
      })
      number.2
    >>= send_request call peer number.1

unfoldable pub call_method :
    RpcCall → Peer → FlconcPbRpcController → MsgReqUtil → Option (Outcome × MsgReqUtil)
call_method call peer c u =
    call_serialized call peer
      (set_peer_addr (some call.peer_addr) (set_local_addr (some call.local_addr) c)) u call.request
