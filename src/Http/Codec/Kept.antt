-- ===== src/Http/Codec/Kept.antt =====
-- flconc/net/http/http_codec.cc: `decode` without success leaves the buffer alone.
use mathlib.Core.Option.{some-injective}
use flconc.Base.{
  ℕ, ◌+◌, ◌-◌, ◌≡◌, sym, ap, ◌∙◌, ◌⊎◌, inl, inr, Bool, true, false, Bytes, Option, none, some,
  length, take, drop, ◌==◌, Bool-cases, >>=-eq-some, ◌&&◌, not,
}
use flconc.Base.Int.{ℤ, pos, ltb_ℤ, eq_ℤ}
use flconc.Tcp.Buffer.{TcpBuffer, recycle_read, get_buffer_string}
use flconc.Http.Header.{g_crlf}
use flconc.Http.Message.{HttpRequest, find_str}
use flconc.Http.Codec.{
  g_crlf_double, is_post, finish_decode, decode_content, content_length_of, decode_body,
  decode_header, decode_rest, decode_line, decode, parse_http_request_line,
  parse_http_request_header,
}

-- Either the buffer is as before, or the request is complete.
abbrev Kept : TcpBuffer → TcpBuffer × HttpRequest → Type 0
Kept buf r = (r.0 ≡ buf) ⊎ (r.1.decode_succ ≡ true)

finish_decode-Kept :
    (buf : TcpBuffer) (request : HttpRequest) (n : ℤ) (r : TcpBuffer × HttpRequest)
    → finish_decode buf request n ≡ some r
    → Kept buf r
unfolding finish_decode
finish_decode-Kept buf request n r h =
    let (b, e, q) = >>=-eq-some (recycle_read buf n) _ h in
    inr (sym (ap (λ t. t.1.decode_succ) (some-injective _ _ q)))

kept :
    (buf : TcpBuffer) (request : HttpRequest) (r : TcpBuffer × HttpRequest)
    → some (buf, request) ≡ some r
    → Kept buf r
kept buf request r h = inl (ap (λ t. t.0) (sym (some-injective _ _ h)))

decode_content-Kept :
    (buf : TcpBuffer) (request : HttpRequest) (total read_size : ℕ) (tmp : Bytes) (n : ℤ)
    (r : TcpBuffer × HttpRequest)
    → decode_content buf request total read_size tmp n ≡ some r
    → Kept buf r
unfolding decode_content
decode_content-Kept buf request total read_size tmp n r h =
    elim (Bool-cases (ltb_ℤ (pos (total - read_size)) n)) [
      | inl e ↦ kept buf request r (rw e at h)
      | inr e ↦ elim (Bool-cases (is_post request.m_request_method && not (eq_ℤ n (pos 0)))) [
        | inl p ↦ finish_decode-Kept buf _ _ r (rw (e, p) at h)
        | inr p ↦ finish_decode-Kept buf _ _ r (rw (e, p) at h)
      ]
    ]

decode_header-Kept :
    (buf : TcpBuffer) (request : HttpRequest) (total read_size : ℕ) (tmp : Bytes) (o : Option ℕ)
    (r : TcpBuffer × HttpRequest)
    → decode_header buf request total read_size tmp o ≡ some r
    → Kept buf r
unfolding decode_header decode_body
decode_header-Kept buf request total read_size tmp none r h = kept buf request r h
decode_header-Kept buf request total read_size tmp (some j) r h =
    let (request', e, q) = >>=-eq-some (parse_http_request_header request (take j tmp)) _ h in
    decode_content-Kept buf (content_length_of request').1 total (read_size + j + 4) _ _ r q

decode_rest-Kept :
    (buf : TcpBuffer) (total read_size : ℕ) (tmp : Bytes) (p : Bool × HttpRequest)
    (r : TcpBuffer × HttpRequest)
    → decode_rest buf total read_size tmp p ≡ some r
    → Kept buf r
unfolding decode_rest
decode_rest-Kept buf total read_size tmp (false, request) r h = kept buf request r h
decode_rest-Kept buf total read_size tmp (true, request) r h =
    decode_header-Kept buf request total read_size tmp (find_str g_crlf_double tmp) r h

decode_line-Kept :
    (buf : TcpBuffer) (request : HttpRequest) (tmp : Bytes) (o : Option ℕ)
    (r : TcpBuffer × HttpRequest)
    → decode_line buf request tmp o ≡ some r
    → Kept buf r
unfolding decode_line
decode_line-Kept buf request tmp none r h = kept buf request r h
decode_line-Kept buf request tmp (some i) r h = elim (Bool-cases (i == length tmp - 2)) [
  | inl e ↦ kept buf (record request { decode_succ = true }) r (rw e at h)
  | inr e ↦
      let (p, g, q) = >>=-eq-some (parse_http_request_line request (take i tmp)) _ (rw e at h) in
      decode_rest-Kept buf (length tmp) (i + 2) (drop (i + 2) tmp) p r q
]

-- Whatever the unread bytes are, when `decode` returns without success the buffer is as it was: a request
-- that is not complete, or that is refused, loses no byte.
pub decode-keeps :
    (buf : TcpBuffer) (request : HttpRequest) (r : TcpBuffer × HttpRequest)
    → decode buf request ≡ some r
    → r.1.decode_succ ≡ false
    → r.0 ≡ buf
unfolding decode
decode-keeps buf request r h f =
    let (tmp, e, q) = >>=-eq-some (get_buffer_string buf) _ h in
    elim (decode_line-Kept buf request tmp (find_str g_crlf tmp) r q) [
      | inl same ↦ same
      | inr done ↦ absurd (cc (sym f ∙ done))
    ]
