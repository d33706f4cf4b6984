-- ===== src/Examples/Codec.antt =====
-- flconc/net/flconcpb/flconcpb_codec.cc on a small request.
use flconc.Base.{◌≡◌, Bytes, [], ◌∷◌, ◌++◌, length, arith, Returns, drop}
use flconc.Base.Int.{negsuc}
use flconc.Comm.MsgReq.{MsgReqUtil}
use flconc.Tcp.Buffer.{TcpBuffer, init}
use flconc.Tcp.Buffer.Refine.{HasRoom, Holds, Holds-front, init-Holds}
use flconc.Flconcpb.Data.{FlconcPbStruct, fresh_struct}
use flconc.Flconcpb.Encode.{package_size, pack, encode, encoded}
use flconc.Flconcpb.Decode.{decode}
use flconc.Flconcpb.Fields.{Fits, received}
use flconc.Flconcpb.RoundTrip.{decode-pack, decode-encode}

abbrev request : FlconcPbStruct
request = record fresh_struct {
  msg_req = b'4' ∷ b'2' ∷ [];
  service_full_name = b'S' ∷ b'.' ∷ b'm' ∷ [];
  err_code = negsuc 6;
  err_info = b'e' ∷ [];
  pb_data = 0 ∷ 2 ∷ 3 ∷ [];
}

request-Fits : Fits request
request-Fits = record {
  msg_some = omega arith;
  msg_fits = omega arith;
  msg_text = (omega arith, (omega arith, tt));
  name_fits = omega arith;
  name_text = (omega arith, (omega arith, (omega arith, tt)));
  info_fits = omega arith;
  info_text = (omega arith, tt);
  code_range = omega arith;
  size_range = omega arith;
}

abbrev generator : MsgReqUtil
generator = record { m_msg_req_len = 20; t_msg_req_nu = []; t_max_msg_req_nu = []; urandom = [] }

request-HasRoom : HasRoom (init 128) (length (pack request))
unfolding init
request-HasRoom = omega arith

decode-encode_example : Returns (encode (init 128) request generator) (λ r.
    (r.1 ≡ encoded request)
    × (r.2 ≡ generator)
    × Returns (decode r.0 fresh_struct) (λ s. (s.1 ≡ received request fresh_struct) × Holds s.0 []))
decode-encode_example =
    decode-encode request fresh_struct generator request-Fits (omega arith) request-HasRoom
      (init-Holds 128)

-- A byte that starts nothing, the package, and the first byte of the next.
abbrev stray : Bytes
stray = 9 ∷ []

abbrev next : Bytes
next = 2 ∷ []

abbrev stream : Bytes
stream = stray ++ (pack request ++ next)

abbrev incoming : TcpBuffer
incoming = record { m_read_index = 0; m_write_index = 37; m_buffer = stream ++ (0 ∷ []) }

incoming-Holds : Holds incoming stream
incoming-Holds = Holds-front stream (0 ∷ [])

decode-pack_example :
    Returns
      (decode incoming fresh_struct)
      (λ r. (r.1 ≡ received request fresh_struct) × Holds r.0 (drop (package_size request) stream))
decode-pack_example =
    decode-pack incoming stray next request request-Fits (omega arith, tt) incoming-Holds
      fresh_struct
