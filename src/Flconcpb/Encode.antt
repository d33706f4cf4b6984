-- ===== src/Flconcpb/Encode.antt =====
-- flconc/net/flconcpb/flconcpb_codec.cc: `encode` and `encodePbData`. `none` is a fault. The sum of the lengths
-- is exact below 2 ^ 31; from there on `malloc` gets a negative or wrapped size.
use flconc.Base.{
  ℕ, ◌+◌, ◌^◌, true, false, Bytes, [], ◌∷◌, ◌++◌, Option, none, some, ltb, if◌then◌else◌, ◌>>=◌,
  length, is_empty,
}
use flconc.Base.Int.{pos}
use flconc.Comm.MsgReq.{MsgReqUtil, gen_msg_number}
use flconc.Tcp.Buffer.{TcpBuffer, write_to_buffer}
use flconc.Flconcpb.Word.{int32, net32}
use flconc.Flconcpb.Data.{FlconcPbStruct}

abbrev pub pb_start : ℕ
pb_start = 2

abbrev pub pb_end : ℕ
pb_end = 3

-- `2 * sizeof(char) + 6 * sizeof(int32_t)` and the four strings
abbrev pub package_size : FlconcPbStruct → ℕ
package_size d =
    26 + length d.pb_data + length d.service_full_name + length d.msg_req + length d.err_info

-- The bytes that `encodePbData` stores one behind the other, for a package of `pk_len` bytes.
abbrev pub pack : FlconcPbStruct → Bytes
pack d =
    pb_start
    ∷ (net32 (int32 (package_size d))
        ++ (net32 (int32 (length d.msg_req))
            ++ (d.msg_req
                ++ (net32 (int32 (length d.service_full_name))
                    ++ (d.service_full_name
                        ++ (net32 d.err_code
                            ++ (net32 (int32 (length d.err_info))
                                ++ (d.err_info
                                    ++ (d.pb_data ++ (net32 (pos 1) ++ (pb_end ∷ [])))))))))))

-- `if (data->msg_req.empty()) …`
unfoldable pub with_msg_req : FlconcPbStruct → MsgReqUtil → FlconcPbStruct × MsgReqUtil
with_msg_req d u =
    if is_empty d.msg_req
    then (
      record d {
        msg_req = (gen_msg_number u).0;
        msg_req_len = int32 (length (gen_msg_number u).0);
      },
      (gen_msg_number u).1,
    )
    else (d, u)

-- The struct after the last lines of `encodePbData`.
abbrev pub encoded : FlconcPbStruct → FlconcPbStruct
encoded d = record d {
  pk_len = int32 (package_size d);
  msg_req_len = int32 (length d.msg_req);
  service_name_len = int32 (length d.service_full_name);
  err_info_len = int32 (length d.err_info);
  check_num = pos 1;
  encode_succ = true;
}

-- The bytes, or `none` within the result for `nullptr`.
unfoldable pub encode_pb_data :
    FlconcPbStruct → MsgReqUtil → Option (Option Bytes × FlconcPbStruct × MsgReqUtil)
encode_pb_data d u =
    if is_empty d.service_full_name
    then some (none, record d { encode_succ = false }, u)
    else let (d', u') = with_msg_req d u in
      if ltb (package_size d') (2 ^ 31) then some (some (pack d'), encoded d', u') else none

unfoldable pub finish_encode :
    TcpBuffer
    → Option Bytes × FlconcPbStruct × MsgReqUtil
    → Option (TcpBuffer × FlconcPbStruct × MsgReqUtil)
finish_encode buf (none, d, u) = some (buf, record d { encode_succ = false }, u)
finish_encode buf (some re, d, u) = do buf' ← write_to_buffer buf re; some (buf', d, u)

unfoldable pub encode :
    TcpBuffer → FlconcPbStruct → MsgReqUtil → Option (TcpBuffer × FlconcPbStruct × MsgReqUtil)
unfolding encode_pb_data finish_encode
encode buf d u = encode_pb_data d u >>= finish_encode buf
