-- ===== src/Flconcpb/Decode.antt =====
-- flconc/net/flconcpb/flconcpb_codec.cc: `decode`. `none` is a fault: memory touched outside the
-- vector or one of the fixed arrays, or a string of a negative size.
use flconc.Base.{
  ℕ, zero, suc, ◌+◌, ◌-◌, ◌^◌, ◌&&◌, true, false, Bytes, [], ◌∷◌, Option, none, some, ltb, leb,
  ◌==◌, if◌then◌else◌, ◌>>=◌, length, get_elem?,
}
use flconc.Base.Int.{ℤ, pos, negsuc, pos_part, sub_ℕ, ◌+ℤ◌, ◌-ℤ◌, ltb_ℤ}
use flconc.Tcp.Buffer.{TcpBuffer, copy, recycle_read}
use flconc.Flconcpb.Word.{get_int32_from_net_byte}
use flconc.Flconcpb.Encode.{pb_start, pb_end}
use flconc.Flconcpb.Data.{FlconcPbStruct}

-- A package found: its first and last index, and its `pk_len`.
pub record Found : Type 0 where
  pub start_index : ℕ
  pub end_index : ℕ
  pub pk_len : ℤ

-- `tmp[j] == PB_END`; an index before the vector is a fault.
unfoldable pub ends_at : Bytes → ℕ → ℤ → ℤ → Option (Option Found)
ends_at tmp i pk_len (negsuc _) = none
ends_at tmp i pk_len (pos j) = do
  c ← get_elem? tmp j
  some (
      if c == pb_end
      then some (record { start_index = i; end_index = j; pk_len = pk_len })
      else none)

-- At a `PB_START` that is not the last byte written. Where `int j` overflows it is negative in practice and
-- indexes before the buffer, a fault; `w` is itself an `int`.
unfoldable pub sized_at : Bytes → ℕ → ℕ → Option (Option Found)
sized_at tmp w i = do
  pk_len ← get_int32_from_net_byte tmp (i + 1)
  let j = pos i +ℤ pk_len -ℤ pos 1
  if ltb_ℤ j (pos w)
      then ends_at tmp i pk_len j
      else if ltb_ℤ j (pos (2 ^ 31))
      then some none
      else none

-- The body of the loop: does a whole package start at `i`?
unfoldable pub starts_at : Bytes → ℕ → ℕ → Option (Option Found)
starts_at tmp w i = do
  c ← get_elem? tmp i
  if c == pb_start && ltb (i + 1) w then sized_at tmp w i else some none

-- `for (i = start_index; i < writeIndex; ++i)`, with so many rounds left
unfoldable pub find_pack : Bytes → ℕ → ℕ → ℕ → Option (Option Found)
find_pack tmp w zero i = some none
find_pack tmp w (suc rounds) i = do
  found ← starts_at tmp w i
  elim found [ some f ↦ some (some f) | none ↦ find_pack tmp w rounds (i + 1) ]

abbrev pub up_to_nul : Bytes → Bytes
up_to_nul [] = []
up_to_nul (c ∷ cs) = if c == 0 then [] else c ∷ up_to_nul cs

-- `char s[size] = {0}; memcpy(&s[0], &tmp[i], len); std::string(s)`
unfoldable pub copy_string : ℕ → Bytes → ℕ → ℤ → Option Bytes
copy_string size tmp i len = do
  read ← copy tmp i len
  if ltb size (length read)
      then none
      else if length (up_to_nul read) == size
      then none
      else some (up_to_nul read)

-- `pb_data_len`
abbrev pub data_len : FlconcPbStruct → ℤ
data_len d = d.pk_len -ℤ d.service_name_len -ℤ d.msg_req_len -ℤ d.err_info_len -ℤ pos 2 -ℤ pos 24

-- From `pb_data_index` on. Each of these stages ends with the struct as an early return leaves it,
-- or hands it to the next; a length that got past its copy is not negative.
unfoldable pub read_pb_data : Bytes → ℕ → ℕ → FlconcPbStruct → Option FlconcPbStruct
read_pb_data tmp end_index i d = if leb end_index i then some d else do
  pb_data ← copy tmp i (data_len d)
  some (record d { pb_data = pb_data; decode_succ = true })

-- From `err_code_index` on.
unfoldable pub read_err_info : Bytes → ℕ → ℕ → FlconcPbStruct → Option FlconcPbStruct
read_err_info tmp end_index i d = do
  err_code ← get_int32_from_net_byte tmp i
  if leb end_index (i + 4) then some (record d { err_code = err_code }) else do
    len ← get_int32_from_net_byte tmp (i + 4)
    err_info ← copy_string 512 tmp (i + 8) len
    read_pb_data tmp end_index (i + 8 + pos_part len)
        (record d { err_code = err_code; err_info_len = len; err_info = err_info })

-- From `service_name_len_index` on.
unfoldable pub read_service_name : Bytes → ℕ → ℕ → FlconcPbStruct → Option FlconcPbStruct
read_service_name tmp end_index i d =
    if leb end_index i then some d else if leb end_index (i + 4) then some d else do
      len ← get_int32_from_net_byte tmp i
      if ltb_ℤ d.pk_len len then some (record d { service_name_len = len }) else do
        name ← copy_string 512 tmp (i + 4) len
        read_err_info tmp end_index (i + 4 + pos_part len)
            (record d { service_name_len = len; service_full_name = name })

-- The branches on `msg_req_len`.
unfoldable pub read_msg_req_of : Bytes → ℕ → ℕ → FlconcPbStruct → ℤ → Option FlconcPbStruct
read_msg_req_of tmp end_index i d (pos zero) = some (record d { msg_req_len = pos zero })
read_msg_req_of tmp end_index i d len = do
  msg_req ← copy_string 50 tmp (i + 4) len
  read_service_name tmp end_index (i + 4 + pos_part len)
      (record d { msg_req_len = len; msg_req = msg_req })

-- From `msg_req_len_index` on.
unfoldable pub read_msg_req : Bytes → ℕ → ℕ → FlconcPbStruct → Option FlconcPbStruct
read_msg_req tmp end_index i d =
    if leb end_index i
    then some d
    else do len ← get_int32_from_net_byte tmp i; read_msg_req_of tmp end_index i d len

-- The struct and the buffer after `decode`.
unfoldable pub decode_found :
    TcpBuffer → FlconcPbStruct → Option Found → Option (TcpBuffer × FlconcPbStruct)
decode_found buf d none = some (buf, d)
decode_found buf d (some f) = do
  buf' ← recycle_read buf (sub_ℕ (f.end_index + 1) f.start_index)
  d' ←
      read_msg_req buf.m_buffer f.end_index (f.start_index + 5)
        (record d { pk_len = f.pk_len; decode_succ = false })
  some (buf', d')

unfoldable pub decode : TcpBuffer → FlconcPbStruct → Option (TcpBuffer × FlconcPbStruct)
decode buf d = do
  found ←
      find_pack buf.m_buffer buf.m_write_index (buf.m_write_index - buf.m_read_index)
        buf.m_read_index
  decode_found buf d found
