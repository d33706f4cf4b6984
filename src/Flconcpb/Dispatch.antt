-- ===== src/Flconcpb/Dispatch.antt =====
-- flconc/net/flconcpb/flconcpb_rpc_dispatcher.cc: `dispatch` and `registerService`. A protobuf service is a
-- parameter: a record of what the dispatcher asks of it, as functions of the method and the bytes.
-- The codec of the connection is that of FlconcPb. The message number that is set in the run time
-- for the log is left out.
pub mod Answer
pub mod Services
use flconc.Base.{
  ℕ, Bool, true, false, Bytes, List, [], ◌∷◌, ◌++◌, Option, none, some, ◌==◌, if◌then◌else◌, ◌>>=◌,
  is_empty, same_bytes,
}
use flconc.Base.Int.{ℤ, pos}
use flconc.Comm.MsgReq.{MsgReqUtil, gen_msg_number}
use flconc.Tcp.Buffer.{TcpBuffer}
use flconc.Flconcpb.Data.{FlconcPbStruct, fresh_struct}
use flconc.Flconcpb.Encode.{encode}

-- `FindMethodByName`, the full name of the request's type, `ParseFromString`, and `CallMethod`
-- with `SerializeToString`, where `none` is a failed serialization.
pub record Service : Type 0 where
  pub find_method : Bytes → Bool
  pub request_name : Bytes → Bytes
  pub parses : Bytes → Bytes → Bool
  pub respond : Bytes → Bytes → Option Bytes

-- An entry of `m_service_map`; the pointer may be null.
pub record Entry : Type 0 where
  pub name : Bytes
  pub service : Option Service

abbrev pub error_failed_serialize : ℤ
error_failed_serialize = pos 10000004

abbrev pub error_service_not_found : ℤ
error_service_not_found = pos 10000008

abbrev pub error_method_not_found : ℤ
error_method_not_found = pos 10000009

abbrev pub error_parse_service_name : ℤ
error_parse_service_name = pos 10000010

-- `full_name.find(".")` and the two `substr`: what stands before the first dot and behind it.
unfoldable pub split_at_dot : Bytes → Option (Bytes × Bytes)
split_at_dot [] = none
split_at_dot (c ∷ cs) =
    let rest = split_at_dot cs in
    if c == b'.' then some ([], cs) else do r ← rest; some (c ∷ r.0, r.1)

-- The service and the method, or `none` for false.
unfoldable pub parse_service_full_name : Bytes → Option (Bytes × Bytes)
parse_service_full_name full_name = if is_empty full_name then none else split_at_dot full_name

-- `m_service_map.find`, and the test of the pointer.
unfoldable pub find_service : Bytes → List Entry → Option Service
find_service name [] = none
find_service name (e ∷ es) =
    let rest = find_service name es in if same_bytes e.name name then e.service else rest

-- `m_service_map[service_name] = service`
unfoldable pub register_service : Bytes → Option Service → List Entry → List Entry
register_service name service [] = record { name = name; service = service } ∷ []
register_service name service (e ∷ es) =
    let rest = register_service name service es in
    if same_bytes e.name name then record { name = name; service = service } ∷ es else e ∷ rest

abbrev in_brackets : Bytes → Bytes → Bytes
in_brackets text name = text ++ (b'[' ∷ name) ++ (b']' ∷ [])

abbrev cannot_parse : Bytes
cannot_parse =
    b'c' ∷ b'a' ∷ b'n' ∷ b'n' ∷ b'o' ∷ b't' ∷ b' ' ∷ b'p' ∷ b'a' ∷ b'r' ∷ b's' ∷ b'e' ∷ b' ' ∷ b's'
    ∷ b'e' ∷ b'r' ∷ b'v' ∷ b'i' ∷ b'c' ∷ b'e' ∷ b'_' ∷ b'n' ∷ b'a' ∷ b'm' ∷ b'e' ∷ b':' ∷ []

abbrev not_found_service : Bytes
not_found_service =
    b'n' ∷ b'o' ∷ b't' ∷ b' ' ∷ b'f' ∷ b'o' ∷ b'u' ∷ b'n' ∷ b'd' ∷ b' ' ∷ b's' ∷ b'e' ∷ b'r' ∷ b'v'
    ∷ b'i' ∷ b'c' ∷ b'e' ∷ b'_' ∷ b'n' ∷ b'a' ∷ b'm' ∷ b'e' ∷ b':' ∷ []

abbrev not_found_method : Bytes
not_found_method =
    b'n' ∷ b'o' ∷ b't' ∷ b' ' ∷ b'f' ∷ b'o' ∷ b'u' ∷ b'n' ∷ b'd' ∷ b' ' ∷ b'm' ∷ b'e' ∷ b't' ∷ b'h'
    ∷ b'o' ∷ b'd' ∷ b'_' ∷ b'n' ∷ b'a' ∷ b'm' ∷ b'e' ∷ b':' ∷ []

abbrev faild_to_parse : Bytes
faild_to_parse =
    b'f' ∷ b'a' ∷ b'i' ∷ b'l' ∷ b'd' ∷ b' ' ∷ b't' ∷ b'o' ∷ b' ' ∷ b'p' ∷ b'a' ∷ b'r' ∷ b's' ∷ b'e'
    ∷ b' ' ∷ b'r' ∷ b'e' ∷ b'q' ∷ b'u' ∷ b'e' ∷ b's' ∷ b't' ∷ b' ' ∷ b'd' ∷ b'a' ∷ b't' ∷ b'a'
    ∷ b',' ∷ b' ' ∷ b'r' ∷ b'e' ∷ b'q' ∷ b'u' ∷ b'e' ∷ b's' ∷ b't' ∷ b'.' ∷ b'n' ∷ b'a' ∷ b'm'
    ∷ b'e' ∷ b':' ∷ []

abbrev failed_to_serilize : Bytes
failed_to_serilize =
    b'f' ∷ b'a' ∷ b'i' ∷ b'l' ∷ b'e' ∷ b'd' ∷ b' ' ∷ b't' ∷ b'o' ∷ b' ' ∷ b's' ∷ b'e' ∷ b'r' ∷ b'i'
    ∷ b'l' ∷ b'i' ∷ b'z' ∷ b'e' ∷ b' ' ∷ b'r' ∷ b'e' ∷ b'l' ∷ b'p' ∷ b'y' ∷ b' ' ∷ b'd' ∷ b'a'
    ∷ b't' ∷ b'a' ∷ []

abbrev pub failed : FlconcPbStruct → ℤ → Bytes → FlconcPbStruct
failed reply code info = record reply { err_code = code; err_info = info }

-- The reply after `CallMethod`.
unfoldable pub called : FlconcPbStruct → Option Bytes → FlconcPbStruct
called reply none = failed (record reply { pb_data = [] }) error_failed_serialize failed_to_serilize
called reply (some pb_data) = record reply { pb_data = pb_data }

-- The reply once the service is found.
unfoldable pub answer_method : Service → Bytes → Bytes → FlconcPbStruct → FlconcPbStruct
answer_method service method pb_data reply =
    if service.find_method method
    then if service.parses method pb_data
      then called reply (service.respond method pb_data)
      else failed reply error_failed_serialize
          (in_brackets faild_to_parse (service.request_name method))
    else failed reply error_method_not_found (in_brackets not_found_method method)

unfoldable pub answer_service :
    Option Service → Bytes → Bytes → Bytes → FlconcPbStruct → FlconcPbStruct
answer_service none name method pb_data reply =
    failed reply error_service_not_found (in_brackets not_found_service name)
answer_service (some service) name method pb_data reply = answer_method service method pb_data reply

unfoldable pub answer_parsed :
    List Entry → Option (Bytes × Bytes) → FlconcPbStruct → FlconcPbStruct → FlconcPbStruct
answer_parsed services none d reply =
    failed reply error_parse_service_name (in_brackets cannot_parse d.service_full_name)
answer_parsed services (some (name, method)) d reply =
    answer_service (find_service name services) name method d.pb_data reply

-- `reply_pk` as it is encoded at the end of each branch.
unfoldable pub answer : List Entry → FlconcPbStruct → FlconcPbStruct → FlconcPbStruct
answer services d reply =
    answer_parsed services (parse_service_full_name d.service_full_name) d reply

-- `reply_pk` before the branches, and the generator.
unfoldable pub start_reply : FlconcPbStruct → MsgReqUtil → FlconcPbStruct × MsgReqUtil
start_reply d u =
    let reply : FlconcPbStruct = record fresh_struct {
      service_full_name = d.service_full_name;
      msg_req = d.msg_req;
    } in
    if is_empty d.msg_req
    then (record reply { msg_req = (gen_msg_number u).0 }, (gen_msg_number u).1)
    else (reply, u)

-- The out buffer of the connection, the reply and the generator after `dispatch`.
unfoldable pub dispatch :
    List Entry
    → FlconcPbStruct
    → TcpBuffer
    → MsgReqUtil
    → Option (TcpBuffer × FlconcPbStruct × MsgReqUtil)
dispatch services d out u = encode out (answer services d (start_reply d u).0) (start_reply d u).1
