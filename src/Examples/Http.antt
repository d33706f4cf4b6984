-- ===== src/Examples/Http.antt =====
-- flconc/net/http on a POST request with a content of two bytes.
use flconc.Base.{
  ◌≡◌, refl, true, Bytes, [], ◌∷◌, ◌++◌, Option, none, some, arith, length, inl, Returns,
  same_bytes,
}
use flconc.Base.Int.{pos}
use flconc.Tcp.Buffer.{TcpBuffer, init, copy, get_buffer_string}
use flconc.Tcp.Buffer.Refine.{HasRoom, Holds, Holds-front, init-Holds}
use flconc.Comm.StringUtil.{
  find_first_of, substr_from, split_round, split_rounds, with_split, split_str_to_vector,
}
use flconc.Http.Header.{
  assign, less, find_value, value_or_make, http_code_to_string, to_http_string,
}
use flconc.Http.Message.{
  decimal, post, HttpRequest, fresh_request, HttpResponse, fresh_response, find_str, atoi, strtol,
  read_signed, read_digits, put_piece, put_pieces, split_str_to_map,
}
use flconc.Http.Codec.{
  decode, decode_line, parse_http_request_line, parse_http_request_header,
  parse_http_request_content, content_length_of, response_text, content_length,
}
use flconc.Http.Codec.Line.{line_text, version_text, parse_http_request_line-line_text}
use flconc.Http.Codec.Kept.{decode-keeps}
use flconc.Http.Codec.Reads.{request_text, IsLine, IsHeader, decode-Takes}
use flconc.Http.Dispatch.{
  find_servlet, dispatch, handle_not_found, set_comm_param, set_http_body, set_http_content_type,
  set_http_code, not_found_page,
}
use flconc.Http.Dispatch.Answers.{SaysNotFound, dispatch-SaysNotFound}

abbrev path : Bytes
path = b'/' ∷ b'a' ∷ b' ' ∷ b'b' ∷ []

abbrev line : Bytes
line = line_text post path true

abbrev parsed : HttpRequest
parsed = record fresh_request {
  m_request_method = some post;
  m_request_version = version_text true;
  m_request_path = path;
}

parse_http_request_line-line_text_example :
    parse_http_request_line fresh_request (line_text post path true) ≡ some (true, parsed)
unfolding find_str find_first_of
parse_http_request_line-line_text_example =
    parse_http_request_line-line_text post path true fresh_request refl refl

line_arrives : parse_http_request_line fresh_request line ≡ some (true, parsed)
unfolding find_str find_first_of
line_arrives = parse_http_request_line-line_text post path true fresh_request refl refl

line-IsLine : IsLine line
unfolding find_str
line-IsLine = refl

abbrev headers : Bytes
headers =
    b'C' ∷ b'o' ∷ b'n' ∷ b't' ∷ b'e' ∷ b'n' ∷ b't' ∷ b'-' ∷ b'L' ∷ b'e' ∷ b'n' ∷ b'g' ∷ b't' ∷ b'h'
    ∷ b':' ∷ b'2' ∷ []

headers-IsHeader : IsHeader headers
unfolding find_str
headers-IsHeader = refl

abbrev with_headers : HttpRequest
with_headers = record parsed {
  m_requeset_header = record { key = content_length; value = b'2' ∷ [] } ∷ [];
}

headers_arrive : parse_http_request_header parsed headers ≡ some with_headers
unfolding parse_http_request_header split_str_to_map split_str_to_vector with_split split_rounds
    split_round find_first_of substr_from put_pieces put_piece assign less same_bytes
headers_arrive = refl

length_read : atoi (content_length_of with_headers).0 ≡ pos 2
unfolding atoi strtol read_signed read_digits content_length_of find_value value_or_make same_bytes
length_read = refl

abbrev content : Bytes
content = b'h' ∷ b'i' ∷ []

-- The next request, as far as it has come.
abbrev next : Bytes
next = b'G' ∷ b'E' ∷ []

abbrev queue : Bytes
queue = request_text line headers (content ++ next)

abbrev buffer : TcpBuffer
buffer = record { m_read_index = 0; m_write_index = length queue; m_buffer = queue ++ [] }

buffer-Holds : Holds buffer queue
buffer-Holds = Holds-front queue []

decode-Takes_example : Returns (decode buffer fresh_request) (λ r.
    (r.1 ≡ record (parse_http_request_content (content_length_of with_headers).1 content) {
      decode_succ = true;
    })
    × Holds r.0 next)
decode-Takes_example =
    decode-Takes line headers content next fresh_request parsed with_headers buffer-Holds
      line-IsLine headers-IsHeader line_arrives headers_arrive length_read (inl refl)

-- The response to it, as the page of no servlet.
abbrev not_found : HttpResponse
not_found = handle_not_found (set_comm_param parsed fresh_response).1

abbrev text_of : Option Bytes → Bytes
text_of none = []
text_of (some text) = text

abbrev page : Bytes
page = text_of (response_text not_found (some 404))

page-printed : response_text not_found (some 404) ≡ some page
unfolding response_text handle_not_found set_comm_param assign
page-printed = refl

page-HasRoom : HasRoom (init 16) (length page)
unfolding init response_text handle_not_found set_comm_param assign set_http_body
    set_http_content_type set_http_code decimal http_code_to_string to_http_string same_bytes less
    value_or_make find_value not_found_page
page-HasRoom = omega arith

dispatch-SaysNotFound_example : Returns (dispatch [] parsed (init 16)) (λ r.
    SaysNotFound parsed r.1
    × (response_text r.1 r.1.m_response_code ≡ some page)
    × Holds r.0 ([] ++ page))
unfolding find_servlet
dispatch-SaysNotFound_example =
    dispatch-SaysNotFound [] parsed page (init-Holds 16) (omega arith) refl page-printed
      page-HasRoom

abbrev short_buffer : TcpBuffer
short_buffer = record { m_read_index = 0; m_write_index = 2; m_buffer = next ++ [] }

not_complete : decode short_buffer fresh_request ≡ some (short_buffer, fresh_request)
unfolding decode decode_line get_buffer_string copy find_str
not_complete = refl

decode-keeps_example : short_buffer ≡ short_buffer
decode-keeps_example =
    decode-keeps short_buffer fresh_request (short_buffer, fresh_request) not_complete refl
