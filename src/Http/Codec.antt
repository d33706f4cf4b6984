-- ===== src/Http/Codec.antt =====
-- flconc/net/http/http_codec.cc: `encode`, `decode` and what they call. `none` is a fault or an exception.
pub mod Find
pub mod Reads
pub mod Kept
pub mod Line
use flconc.Base.{
  ℕ, zero, suc, ◌+◌, ◌-◌, ◌&&◌, ◌||◌, Bool, true, false, Bytes, List, [], ◌∷◌, ◌++◌, Option, none,
  some, ltb, leb, ◌==◌, if◌then◌else◌, ◌>>=◌, is_empty, same_bytes, length, take, drop, not,
}
use flconc.Base.Int.{ℤ, pos, negsuc, pos_part, ◌+ℤ◌, ltb_ℤ, eq_ℤ}
use flconc.Tcp.Buffer.{TcpBuffer, write_to_buffer, get_buffer_string, recycle_read}
use flconc.Comm.StringUtil.{find_first_of}
use flconc.Http.Header.{Field, g_crlf, find_value, value_or_make, to_http_string}
use flconc.Http.Message.{
  HttpMethod, get, post, HttpRequest, HttpResponse, find_str, find_last_of, to_upper, atoi, decimal,
  split_str_to_map,
}

abbrev pub g_crlf_double : Bytes
g_crlf_double = 13 ∷ 10 ∷ 13 ∷ 10 ∷ []

abbrev pub get_text : Bytes
get_text = b'G' ∷ b'E' ∷ b'T' ∷ []

abbrev pub post_text : Bytes
post_text = b'P' ∷ b'O' ∷ b'S' ∷ b'T' ∷ []

abbrev pub http_1_1 : Bytes
http_1_1 = b'H' ∷ b'T' ∷ b'T' ∷ b'P' ∷ b'/' ∷ b'1' ∷ b'.' ∷ b'1' ∷ []

abbrev pub http_1_0 : Bytes
http_1_0 = b'H' ∷ b'T' ∷ b'T' ∷ b'P' ∷ b'/' ∷ b'1' ∷ b'.' ∷ b'0' ∷ []

abbrev pub after_scheme : Bytes
after_scheme = b':' ∷ b'/' ∷ b'/' ∷ []

abbrev pub content_length : Bytes
content_length =
    b'C' ∷ b'o' ∷ b'n' ∷ b't' ∷ b'e' ∷ b'n' ∷ b't' ∷ b'-' ∷ b'L' ∷ b'e' ∷ b'n' ∷ b'g' ∷ b't' ∷ b'h'
    ∷ []

abbrev pub space : Bytes
space = b' ' ∷ []

-- The text that `encode` prints. A code that was never set is undefined behaviour.
unfoldable pub response_text : HttpResponse → Option ℕ → Option Bytes
response_text response none = none
response_text response (some code) = some (
    response.m_response_version
    ++ (space
        ++ (decimal code
            ++ (space
                ++ (response.m_response_info
                    ++ (g_crlf
                        ++ (to_http_string response.m_response_header
                            ++ (g_crlf ++ response.m_response_body))))))))

unfoldable pub encode : TcpBuffer → HttpResponse → Option (TcpBuffer × HttpResponse)
encode buf response = do
  http_res ← response_text response response.m_response_code
  buf' ← write_to_buffer buf http_res
  some (buf', record response { encode_succ = true })

unfoldable pub parse_method : Bytes → Option HttpMethod
parse_method text =
    if same_bytes text get_text
    then some get
    else if same_bytes text post_text
    then some post
    else none

unfoldable pub is_version : Bytes → Bool
is_version text = same_bytes text http_1_1 || same_bytes text http_1_0

-- The path and the query, once the scheme and the host are gone. The flag is what the function returns.
unfoldable pub read_query : HttpRequest → Bytes → Option ℕ → Option (Bool × HttpRequest)
read_query request url none = some (true, record request { m_request_path = url })
read_query request url (some j) = do
  maps ← split_str_to_map (drop (j + 1) url) (b'&' ∷ []) (b'=' ∷ []) request.m_query_maps
  some (
    true,
    record request {
      m_request_path = take j url;
      m_request_query = drop (j + 1) url;
      m_query_maps = maps;
    },
  )

unfoldable pub read_path : HttpRequest → Bytes → Option (Bool × HttpRequest)
read_path request url = read_query request url (find_first_of (b'?' ∷ []) url)

-- Behind `://`, from the host on.
unfoldable pub read_host : HttpRequest → Bytes → Option ℕ → Option (Bool × HttpRequest)
read_host request url none = some (true, request)
read_host request url (some j) =
    if j + 1 == length url then some (true, request) else read_path request (drop (j + 1) url)

unfoldable pub read_url : HttpRequest → Bytes → Option ℕ → Option (Bool × HttpRequest)
read_url request url none = read_path request url
read_url request url (some j) =
    if leb (length url) (j + 3)
    then some (false, request)
    else read_host request (drop (j + 3) url) (find_first_of (b'/' ∷ []) (drop (j + 3) url))

-- From the version on, with the method set.
unfoldable pub read_version : HttpRequest → Bytes → Bytes → Option (Bool × HttpRequest)
read_version request version url =
    if is_version version
    then read_url (record request { m_request_version = version }) url (find_str after_scheme url)
    else some (false, request)

unfoldable pub read_method :
    HttpRequest → Bytes → Bytes → Option HttpMethod → Option (Bool × HttpRequest)
read_method request version url none = some (false, request)
read_method request version url (some m) =
    read_version (record request { m_request_method = some m }) version url

-- The line at its first and its last space.
unfoldable pub read_line : HttpRequest → Bytes → Option ℕ → Option ℕ → Option (Bool × HttpRequest)
read_line request tmp (some s1) (some s2) =
    if s1 == s2
    then some (false, request)
    else read_method request (to_upper (drop (s2 + 1) tmp)) (take (s2 - s1 - 1) (drop (s1 + 1) tmp))
        (parse_method (to_upper (take s1 tmp)))
read_line request tmp _ _ = some (false, request)

unfoldable pub parse_http_request_line : HttpRequest → Bytes → Option (Bool × HttpRequest)
parse_http_request_line request tmp =
    read_line request tmp (find_first_of space tmp) (find_last_of b' ' tmp)

-- It returns true whatever the header is.
unfoldable pub parse_http_request_header : HttpRequest → Bytes → Option HttpRequest
parse_http_request_header request str =
    if ltb (length str) 4 || same_bytes str g_crlf_double then some request else do
      maps ← split_str_to_map str g_crlf (b':' ∷ []) request.m_requeset_header
      some (record request { m_requeset_header = maps })

unfoldable pub parse_http_request_content : HttpRequest → Bytes → HttpRequest
parse_http_request_content request str =
    if is_empty str then request else record request { m_request_body = str }

abbrev pub is_post : Option HttpMethod → Bool
is_post (some post) = true
is_post _ = false

-- `tmp.substr(0, content_len)`: a negative count is a huge `size_t`.
abbrev pub first_bytes : ℤ → Bytes → Bytes
first_bytes (pos n) tmp = take n tmp
first_bytes (negsuc n) tmp = tmp

unfoldable pub finish_decode : TcpBuffer → HttpRequest → ℤ → Option (TcpBuffer × HttpRequest)
finish_decode buf request read_size = do
  buf' ← recycle_read buf read_size
  some (buf', record request { decode_succ = true })

-- From `Content-Length` on: the length of the whole string, what was read of it, and what follows.
unfoldable pub decode_content :
    TcpBuffer → HttpRequest → ℕ → ℕ → Bytes → ℤ → Option (TcpBuffer × HttpRequest)
decode_content buf request total read_size tmp content_len =
    if ltb_ℤ (pos (total - read_size)) content_len
    then some (buf, request)
    else if is_post request.m_request_method && not (eq_ℤ content_len (pos 0))
    then finish_decode buf (parse_http_request_content request (first_bytes content_len tmp))
        (pos read_size +ℤ content_len)
    else finish_decode buf request (pos read_size)

-- `m_maps["Content-Length"]` makes an entry where there is none.
unfoldable pub content_length_of : HttpRequest → Bytes × HttpRequest
content_length_of request =
    let r =
      value_or_make content_length request.m_requeset_header
        (find_value content_length request.m_requeset_header) in
    (r.0, record request { m_requeset_header = r.1 })

unfoldable pub decode_body :
    TcpBuffer → HttpRequest → ℕ → ℕ → Bytes → Option (TcpBuffer × HttpRequest)
decode_body buf request total read_size tmp =
    decode_content buf (content_length_of request).1 total read_size tmp
      (atoi (content_length_of request).0)

-- From the header on; `none` is a header whose end is not there yet.
unfoldable pub decode_header :
    TcpBuffer → HttpRequest → ℕ → ℕ → Bytes → Option ℕ → Option (TcpBuffer × HttpRequest)
decode_header buf request total read_size tmp none = some (buf, request)
decode_header buf request total read_size tmp (some j) = do
  request' ← parse_http_request_header request (take j tmp)
  decode_body buf request' total (read_size + j + 4) (drop (j + 4) tmp)

-- Behind the request line, when that could be parsed.
unfoldable pub decode_rest :
    TcpBuffer → ℕ → ℕ → Bytes → Bool × HttpRequest → Option (TcpBuffer × HttpRequest)
decode_rest buf total read_size tmp (false, request) = some (buf, request)
decode_rest buf total read_size tmp (true, request) =
    decode_header buf request total read_size tmp (find_str g_crlf_double tmp)

-- From the end of the request line on. Where the line ends the string, the loop is left for its end.
unfoldable pub decode_line :
    TcpBuffer → HttpRequest → Bytes → Option ℕ → Option (TcpBuffer × HttpRequest)
decode_line buf request tmp none = some (buf, request)
decode_line buf request tmp (some i) =
    if i == length tmp - 2
    then some (buf, record request { decode_succ = true })
    else parse_http_request_line request (take i tmp)
      >>= decode_rest buf (length tmp) (i + 2) (drop (i + 2) tmp)

unfoldable pub decode : TcpBuffer → HttpRequest → Option (TcpBuffer × HttpRequest)
decode buf request = do
  tmp ← get_buffer_string buf
  decode_line buf request tmp (find_str g_crlf tmp)
