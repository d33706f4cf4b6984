-- ===== src/Examples/Dispatch.antt =====
-- flconc/net/flconcpb/flconcpb_rpc_dispatcher.cc with one service, which echoes its request.
use flconc.Base.{◌^◌, ◌<◌, true, List, [], ◌∷◌, ◌++◌, some, length, arith, Returns, same_bytes}
use flconc.Comm.MsgReq.{MsgReqUtil}
use flconc.Tcp.Buffer.{init}
use flconc.Tcp.Buffer.Refine.{HasRoom, Holds, init-Holds}
use flconc.Flconcpb.Data.{FlconcPbStruct, fresh_struct}
use flconc.Flconcpb.Encode.{package_size, pack}
use flconc.Flconcpb.Dispatch.{
  Service, Entry, split_at_dot, parse_service_full_name, find_service, called, answer_method,
  answer_service, answer_parsed, answer, start_reply, dispatch,
}
use flconc.Flconcpb.Dispatch.Answer.{Replies, Verdict, Served, dispatch-Replies}

abbrev pub echo : Service
echo = record {
  find_method = λ m. same_bytes m (b'e' ∷ []);
  request_name = λ m. b'R' ∷ [];
  parses = λ m pb_data. true;
  respond = λ m pb_data. some pb_data;
}

abbrev pub services : List Entry
services = record { name = b'S' ∷ []; service = some echo } ∷ []

abbrev pub request : FlconcPbStruct
request = record fresh_struct {
  msg_req = b'7' ∷ [];
  service_full_name = b'S' ∷ b'.' ∷ b'e' ∷ [];
  pb_data = 1 ∷ 2 ∷ [];
}

abbrev pub generator : MsgReqUtil
generator = record { m_msg_req_len = 20; t_msg_req_nu = []; t_max_msg_req_nu = []; urandom = [] }

small : package_size (answer services request (start_reply request generator).0) < 2 ^ 31
unfolding answer answer_parsed start_reply parse_service_full_name split_at_dot find_service
    answer_service answer_method called same_bytes
small = omega arith

reply-HasRoom :
    HasRoom (init 128) (length (pack (answer services request (start_reply request generator).0)))
unfolding init answer answer_parsed start_reply parse_service_full_name split_at_dot find_service
    answer_service answer_method called same_bytes
reply-HasRoom = omega arith

dispatch-Replies_example : Returns (dispatch services request (init 128) generator) (λ s.
    (r : FlconcPbStruct) × Holds s.0 ([] ++ pack r)
    × Replies request r
    × Verdict (Served services request r.pb_data) r)
dispatch-Replies_example =
    dispatch-Replies services request generator (init-Holds 128) (omega arith) (omega arith) small
      reply-HasRoom
