-- ===== src/Flconcpb/RoundTrip.antt =====
-- flconc/net/flconcpb/flconcpb_codec.cc: `decode` reads back what `encode` wrote.
use flconc.Base.{
  is_empty-long, ℕ, suc, ◌+◌, ◌-◌, ◌^◌, ◌≤◌, ◌<◌, ◌≡◌, refl, sym, ap, ◌∙◌, subst, Bytes, [], ◌∷◌,
  ◌++◌, some, arith, lt→ltb, length, drop, length-append, append_assoc, append-nil, drop-append,
  take-append-drop, Returns,
}
use flconc.Base.Int.{pos, sub_ℕ}
use flconc.Comm.MsgReq.{MsgReqUtil}
use flconc.Tcp.Buffer.{TcpBuffer}
use flconc.Tcp.Buffer.Refine.{Holds, Holds-length, HasRoom, write-Holds}
use flconc.Tcp.Buffer.Reads.{recycle_read-Holds}
use flconc.Flconcpb.Word.{StandsAt-next}
use flconc.Flconcpb.Data.{FlconcPbStruct}
use flconc.Flconcpb.Encode.{
  package_size, pack, encode, encode_pb_data, with_msg_req, encoded, finish_encode,
}
use flconc.Flconcpb.Decode.{find_pack, decode_found, decode}
use flconc.Flconcpb.Fields.{
  Fits, framed, body, body-framed, length-body, pack-framed, received, read_fields,
}
use flconc.Flconcpb.Scan.{NoStart, find_pack-NoStart, find_pack-framed, found}

-- A package is as long as its length field says.
pub length-pack : (d : FlconcPbStruct) → Fits d → length (pack d) ≡ package_size d
length-pack d f =
    ap length (sym (append-nil (pack d)) ∙ pack-framed d [] f ∙ body-framed d [])
    ∙ omega (arith, length-append (body d) (3 ∷ []), length-body d)

module _ (buf : TcpBuffer) (junk rest : Bytes) (d : FlconcPbStruct) (f : Fits d) (n : NoStart junk)
    (h : Holds buf (junk ++ (pack d ++ rest))) where
  abbrev behind : Bytes
  behind = drop (buf.m_write_index - buf.m_read_index) (drop buf.m_read_index buf.m_buffer)

  junk_stands : drop buf.m_read_index buf.m_buffer ≡ junk ++ framed d (rest ++ behind)
  junk_stands =
      sym (
        take-append-drop (buf.m_write_index - buf.m_read_index)
          (drop buf.m_read_index buf.m_buffer))
      ∙ ap (λ t. t ++ behind) h.holds
      ∙ append_assoc junk (pack d ++ rest) behind
      ∙ ap (◌++◌ junk) (append_assoc (pack d) rest behind ∙ pack-framed d (rest ++ behind) f)

  abbrev start : ℕ
  start = buf.m_read_index + length junk

  framed_stands : drop start buf.m_buffer ≡ framed d (rest ++ behind)
  framed_stands =
      StandsAt-next buf.m_buffer buf.m_read_index start junk (framed d (rest ++ behind)) refl
        junk_stands

  held : length (junk ++ (pack d ++ rest)) ≡ length junk + package_size d + length rest
  held =
      omega
        (arith, length-append junk (pack d ++ rest), length-append (pack d) rest, length-pack d f)

  inside : start + package_size d ≤ buf.m_write_index
  inside = omega (arith, held, Holds-length h)

  scanned :
      find_pack buf.m_buffer buf.m_write_index
        (buf.m_write_index - buf.m_read_index)
        buf.m_read_index
      ≡ some (
          some
            (found buf.m_buffer buf.m_write_index start d (rest ++ behind) f framed_stands inside))
  scanned =
      find_pack-NoStart buf.m_buffer buf.m_write_index (buf.m_write_index - buf.m_read_index)
        (suc (package_size d - 1 + length rest)) buf.m_read_index start junk
        (framed d (rest ++ behind)) n junk_stands (omega (arith, held, Holds-length h)) refl
      ∙ find_pack-framed buf.m_buffer buf.m_write_index start d (rest ++ behind) f framed_stands
          inside (package_size d - 1 + length rest)

  -- Behind bytes that cannot start a package, `decode` reads the package of a struct that fits and
  -- takes as many bytes off the front of the buffer as the package has.
  pub decode-pack :
      (prior : FlconcPbStruct)
      → Returns (decode buf prior) (λ r.
        (r.1 ≡ received d prior) × Holds r.0 (drop (package_size d) (junk ++ (pack d ++ rest))))
  unfolding decode decode_found
  decode-pack prior =
      let (buf', p, q) = recycle_read-Holds (package_size d) h (omega (arith, held)) in
      let count : sub_ℕ (start + package_size d - 1 + 1) start ≡ pos (package_size d) =
        ground arith in
      (
        (buf', received d prior),
        rw (
          scanned,
          count,
          p,
          read_fields buf.m_buffer start d (rest ++ behind) f framed_stands prior,
        ),
        (refl, q),
      )

-- With a service name and a message number the package is encoded and the generator left alone.
encode_pb_data-Fits :
    (d : FlconcPbStruct) (u : MsgReqUtil)
    → Fits d
    → 0 < length d.service_full_name
    → encode_pb_data d u ≡ some (some (pack d), encoded d, u)
unfolding encode_pb_data with_msg_req
encode_pb_data-Fits d u f p = rw (
  is_empty-long d.service_full_name p,
  is_empty-long d.msg_req f.msg_some,
  lt→ltb (package_size d) (2 ^ 31) f.size_range,
)

-- A struct that fits is encoded into a buffer that has room for its package, and the package read back from the buffer it was written to: the
-- strings, the error code and the payload arrive, and the buffer is empty again.
pub decode-encode :
    {buf : TcpBuffer} (d prior : FlconcPbStruct) (u : MsgReqUtil)
    → Fits d
    → 0 < length d.service_full_name
    → HasRoom buf (length (pack d))
    → Holds buf []
    → Returns (encode buf d u) (λ r.
      (r.1 ≡ encoded d)
      × (r.2 ≡ u)
      × Returns (decode r.0 prior) (λ s. (s.1 ≡ received d prior) × Holds s.0 []))
unfolding encode
decode-encode {buf} d prior u f p room h =
    let (buf', e, (w, _)) = write-Holds (pack d) room h in
    let held : Holds buf' (pack d ++ []) = subst (Holds buf') (sym (append-nil (pack d))) w in
    let (s, t, r) = decode-pack buf' [] [] d f tt held prior in
    let emptied : drop (package_size d) (pack d ++ []) ≡ [] =
      drop-append (package_size d) 0 (pack d) [] (omega (arith, length-pack d f)) in
    (
      (buf', encoded d, u),
      rw (encode_pb_data-Fits d u f p, finish_encode, e),
      (refl, refl, (s, t, (r.0, subst (Holds s.0) emptied r.1))),
    )

-- Of bytes that cannot start a package `decode` takes none, and leaves the struct as it was.
pub decode-NoStart :
    {buf : TcpBuffer} (xs : Bytes) (prior : FlconcPbStruct)
    → NoStart xs
    → Holds buf xs
    → decode buf prior ≡ some (buf, prior)
unfolding decode decode_found find_pack
decode-NoStart {buf} xs prior n h =
    let rounds : ℕ = buf.m_write_index - buf.m_read_index in
    let behind : Bytes = drop rounds (drop buf.m_read_index buf.m_buffer) in
    let stands : drop buf.m_read_index buf.m_buffer ≡ xs ++ behind =
      sym (take-append-drop rounds (drop buf.m_read_index buf.m_buffer))
      ∙ ap (λ t. t ++ behind) h.holds in
    rw
      (find_pack-NoStart buf.m_buffer buf.m_write_index rounds 0 buf.m_read_index
        (buf.m_read_index + length xs) xs behind n stands (omega (arith, Holds-length h)) refl)
      refl
