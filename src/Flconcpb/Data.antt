-- ===== src/Flconcpb/Data.antt =====
-- flconc/net/flconcpb/flconcpb_data.h and flconc/net/base/abstract_data.h.
use flconc.Base.{Bool, false, Bytes, []}
use flconc.Base.Int.{ℤ, pos, negsuc}

pub record FlconcPbStruct : Type 0 where
  pub decode_succ : Bool
  pub encode_succ : Bool
  pub pk_len : ℤ
  pub msg_req_len : ℤ
  pub msg_req : Bytes
  pub service_name_len : ℤ
  pub service_full_name : Bytes
  pub err_code : ℤ
  pub err_info_len : ℤ
  pub err_info : Bytes
  pub pb_data : Bytes
  pub check_num : ℤ

-- `FlconcPbStruct()`
abbrev pub fresh_struct : FlconcPbStruct
fresh_struct = record {
  decode_succ = false;
  encode_succ = false;
  pk_len = pos 0;
  msg_req_len = pos 0;
  msg_req = [];
  service_name_len = pos 0;
  service_full_name = [];
  err_code = pos 0;
  err_info_len = pos 0;
  err_info = [];
  pb_data = [];
  check_num = negsuc 0;
}
