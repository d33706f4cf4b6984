-- ===== src/Http/Codec/Reads.antt =====
-- flconc/net/http/http_codec.cc: `decode` takes one whole request off the buffer, or nothing.
use flconc.Base.{
  ℕ, ◌+◌, ◌-◌, ◌≡◌, refl, sym, ap, ◌∙◌, ◌⊎◌, inl, inr, true, false, Bytes, List, [], ◌∷◌, ◌++◌,
  some, arith, length, drop, take-front, drop-append, append_assoc, length-append, ◌==◌, Returns,
  subst, Bool-cases,
}
use flconc.Base.Int.{pos, ltb_ℤ, eq_ℤ, ◌+ℤ◌, pos-add}
use flconc.Tcp.Buffer.{TcpBuffer}
use flconc.Tcp.Buffer.Refine.{Holds}
use flconc.Tcp.Buffer.Reads.{get_buffer_string-Holds, recycle_read-Holds}
use flconc.Http.Header.{g_crlf}
use flconc.Http.Message.{post, HttpRequest, find_str, atoi}
use flconc.Http.Codec.{
  g_crlf_double, is_post, finish_decode, decode_content, content_length_of, decode_body,
  decode_header, decode_rest, decode_line, decode, parse_http_request_line,
  parse_http_request_header, parse_http_request_content,
}
use flconc.Http.Codec.Find.{find_str-append}

-- The request, taken off the front of the buffer.
abbrev Takes : HttpRequest → Bytes → TcpBuffer × HttpRequest → Type 0
Takes request rest r = (r.1 ≡ record request { decode_succ = true }) × Holds r.0 rest

finish_decode-Takes :
    {buf : TcpBuffer} (front rest : Bytes) (request : HttpRequest)
    → Holds buf (front ++ rest)
    → Returns (finish_decode buf request (pos (length front))) (Takes request rest)
unfolding finish_decode
finish_decode-Takes {buf} front rest request h =
    let (b, e, q) = recycle_read-Holds (length front) h (omega (arith, length-append front rest)) in
    (
      (b, record request { decode_succ = true }),
      simp e,
      (refl, subst (Holds b) (drop-append (length front) 0 front rest (omega arith)) q),
    )

-- With a content of which nothing is missing.
decode_content-Takes :
    {buf : TcpBuffer} (front body rest : Bytes) (request : HttpRequest)
    → Holds buf (front ++ (body ++ rest))
    → (request.m_request_method ≡ some post) ⊎ (body ≡ [])
    → Returns
        (decode_content buf request
          (length (front ++ (body ++ rest)))
          (length front)
          (body ++ rest)
          (pos (length body)))
        (Takes (parse_http_request_content request body) rest)
unfolding decode_content parse_http_request_content
decode_content-Takes {buf} front [] rest request h m =
    let long : ltb_ℤ (pos (length (front ++ rest) - length front)) (pos 0) ≡ false = ground arith in
    elim (Bool-cases (is_post request.m_request_method)) [
      | inl p ↦ simp (long, p) (finish_decode-Takes front rest request h)
      | inr p ↦ simp (long, p) (finish_decode-Takes front rest request h)
    ]
decode_content-Takes {buf} front (c ∷ body) rest request h (inr e) = absurd (cc e)
decode_content-Takes {buf} front (c ∷ body) rest request h (inl m) =
    let whole : List ℕ = c ∷ body in
    let long : ltb_ℤ (pos (length (front ++ (whole ++ rest)) - length front)) (pos (length whole))
        ≡ false =
      ground (arith, length-append front (whole ++ rest), length-append whole rest) in
    let posts : is_post request.m_request_method ≡ true = ap is_post m in
    let some_ : eq_ℤ (pos (length whole)) (pos 0) ≡ false = ground arith in
    let count : pos (length front) +ℤ pos (length whole) ≡ pos (length (front ++ whole)) =
      pos-add (length front) (length whole) ∙ ap pos (sym (length-append front whole)) in
    let queue : Holds buf ((front ++ whole) ++ rest) =
      subst (Holds buf) (sym (append_assoc front whole rest)) h in
    let (r, e, q) =
      finish_decode-Takes (front ++ whole) rest (record request { m_request_body = whole }) queue in
    (r, simp (long, posts, some_, count, take-front whole rest, e), q)

-- A request as it stands in the stream: the line, the header behind it and the content.
abbrev pub request_text : Bytes → Bytes → Bytes → Bytes
request_text line headers tail = line ++ (g_crlf ++ (headers ++ (g_crlf_double ++ tail)))

-- No line end and no empty line before the end of the line and of the header.
abbrev pub IsLine : Bytes → Type 0
IsLine line = find_str g_crlf (line ++ g_crlf) ≡ some (length line)

abbrev pub IsHeader : Bytes → Type 0
IsHeader headers = find_str g_crlf_double (headers ++ g_crlf_double) ≡ some (length headers)

module _ (line headers tail : Bytes) where
  abbrev front : Bytes
  front = line ++ (g_crlf ++ (headers ++ g_crlf_double))

  front-append : front ++ tail ≡ request_text line headers tail
  front-append =
      append_assoc line (g_crlf ++ (headers ++ g_crlf_double)) tail
      ∙ ap (λ t. line ++ (g_crlf ++ t)) (append_assoc headers g_crlf_double tail)

  length-front : length front ≡ length line + 2 + length headers + 4
  length-front = omega (
    arith,
    length-append line (g_crlf ++ (headers ++ g_crlf_double)),
    length-append headers g_crlf_double,
  )

  line_found : IsLine line → find_str g_crlf (request_text line headers tail) ≡ some (length line)
  line_found h =
      ap (find_str g_crlf) (sym (append_assoc line g_crlf (headers ++ (g_crlf_double ++ tail))))
      ∙ find_str-append g_crlf (line ++ g_crlf) (headers ++ (g_crlf_double ++ tail)) (length line) h

  header_found :
      IsHeader headers
      → find_str g_crlf_double (headers ++ (g_crlf_double ++ tail)) ≡ some (length headers)
  header_found h =
      ap (find_str g_crlf_double) (sym (append_assoc headers g_crlf_double tail))
      ∙ find_str-append g_crlf_double (headers ++ g_crlf_double) tail (length headers) h

  length-text :
      length (request_text line headers tail) ≡ length line + 2 + length headers + 4 + length tail
  length-text = ap length (sym front-append) ∙ omega (arith, length-append front tail, length-front)

  -- From the header on.
  decode_rest-header :
      (buf : TcpBuffer) (r₁ r₂ : HttpRequest) (total : ℕ)
      → IsHeader headers
      → parse_http_request_header r₁ headers ≡ some r₂
      → decode_rest buf total (length line + 2) (headers ++ (g_crlf_double ++ tail)) (true, r₁)
        ≡ decode_body buf r₂ total (length front) tail
  unfolding decode_rest decode_header
  decode_rest-header buf r₁ r₂ total h p =
      let count : length line + 2 + length headers + 4 ≡ length front = sym length-front in
      let behind : drop (length headers + 4) (headers ++ (g_crlf_double ++ tail)) ≡ tail =
        drop-append (length headers + 4) 4 headers (g_crlf_double ++ tail) refl in
      simp (header_found h, take-front headers (g_crlf_double ++ tail), p, count, behind)

  decode_line-rest :
      (buf : TcpBuffer) (request r₁ : HttpRequest)
      → parse_http_request_line request line ≡ some (true, r₁)
      → decode_line buf request (request_text line headers tail) (some (length line))
        ≡ decode_rest buf
            (length (request_text line headers tail))
            (length line + 2)
            (headers ++ (g_crlf_double ++ tail))
            (true, r₁)
  unfolding decode_line
  decode_line-rest buf request r₁ p =
      let more : (length line == length (request_text line headers tail) - 2) ≡ false =
        ground (arith, length-text) in
      let behind : drop (length line + 2) (request_text line headers tail)
          ≡ headers ++ (g_crlf_double ++ tail) =
        drop-append (length line + 2) 2 line (g_crlf ++ (headers ++ (g_crlf_double ++ tail)))
          refl in
      simp (more, take-front line (g_crlf ++ (headers ++ (g_crlf_double ++ tail))), p, behind)

-- When the buffer holds a request line, a header and a content that is as long as `Content-Length` says,
-- and then other bytes, and the line and the header are parsed, and the method is POST or the content
-- is empty: `decode` succeeds, the request is the parsed one with the content as its body, and
-- exactly its bytes are gone from the buffer; the bytes behind them are still there.
pub decode-Takes :
    {buf : TcpBuffer} (line headers body rest : Bytes) (request r₁ r₂ : HttpRequest)
    → Holds buf (request_text line headers (body ++ rest))
    → IsLine line
    → IsHeader headers
    → parse_http_request_line request line ≡ some (true, r₁)
    → parse_http_request_header r₁ headers ≡ some r₂
    → atoi (content_length_of r₂).0 ≡ pos (length body)
    → (r₂.m_request_method ≡ some post) ⊎ (body ≡ [])
    → Returns (decode buf request) (λ r.
      (r.1
        ≡ record (parse_http_request_content (content_length_of r₂).1 body) { decode_succ = true })
      × Holds r.0 rest)
unfolding decode decode_body
decode-Takes {buf} line headers body rest request r₁ r₂ h l k p q n m =
    let queue : Holds buf (front line headers (body ++ rest) ++ (body ++ rest)) =
      subst (Holds buf) (sym (front-append line headers (body ++ rest))) h in
    let same : ((content_length_of r₂).1.m_request_method ≡ some post) ⊎ (body ≡ []) =
      unfold content_length_of in m in
    let (r, e, t) =
      decode_content-Takes (front line headers (body ++ rest)) body rest (content_length_of r₂).1
        queue same in
    (
      r,
      simp
          (
            get_buffer_string-Holds h,
            line_found line headers (body ++ rest) l,
            decode_line-rest line headers (body ++ rest) buf request r₁ p,
            decode_rest-header line headers (body ++ rest) buf r₁ r₂ _ k q,
            sym (ap length (front-append line headers (body ++ rest))),
            n,
          )
          e,
      t,
    )

-- A request line that ends the string is taken for a whole request: `decode` reports success, and has
-- neither parsed the line nor taken a byte off the buffer.
pub decode-line_only :
    {buf : TcpBuffer} (line : Bytes) (request : HttpRequest)
    → Holds buf (line ++ g_crlf)
    → IsLine line
    → decode buf request ≡ some (buf, record request { decode_succ = true })
unfolding decode decode_line
decode-line_only line request h l =
    let ends : (length line == length (line ++ g_crlf) - 2) ≡ true =
      ground (arith, length-append line g_crlf) in
    simp (get_buffer_string-Holds h, l, ends)
