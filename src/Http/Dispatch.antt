-- ===== src/Http/Dispatch.antt =====
-- flconc/net/http/http_dispatcher.cc and http_servlet.cc: `HttpDispacther` and the functions of
-- `HttpServlet`. A servlet is a parameter: what its `handle` makes of a request and a response. The
-- number and the name that are kept for the log are left out.
pub mod Answers
use flconc.Base.{
  ℕ, ◌≡◌, refl, sym, ap, ◌∙◌, ◌≢◌, ◌<◌, Bool, true, false, Bytes, List, [], ◌∷◌, ◌++◌, Option, none,
  some, if◌then◌else◌, ◌>>=◌, is_empty, is_empty-long, same_bytes, same_bytes→eq, same_bytes_refl,
  length, Bool-cases, Option-cases, inl, inr, Returns,
}
use flconc.Tcp.Buffer.{TcpBuffer}
use flconc.Http.Header.{Field, assign, find_value, value_or_make, http_code_to_string}
use flconc.Http.Message.{HttpRequest, HttpResponse, fresh_response, decimal}
use flconc.Http.Codec.{encode, content_length}

abbrev pub content_type : Bytes
content_type =
    b'C' ∷ b'o' ∷ b'n' ∷ b't' ∷ b'e' ∷ b'n' ∷ b't' ∷ b'-' ∷ b'T' ∷ b'y' ∷ b'p' ∷ b'e' ∷ []

abbrev pub connection : Bytes
connection = b'C' ∷ b'o' ∷ b'n' ∷ b'n' ∷ b'e' ∷ b'c' ∷ b't' ∷ b'i' ∷ b'o' ∷ b'n' ∷ []

abbrev pub content_type_text : Bytes
content_type_text =
    b't' ∷ b'e' ∷ b'x' ∷ b't' ∷ b'/' ∷ b'h' ∷ b't' ∷ b'm' ∷ b'l' ∷ b';' ∷ b'c' ∷ b'h' ∷ b'a' ∷ b'r'
    ∷ b's' ∷ b'e' ∷ b't' ∷ b'=' ∷ b'u' ∷ b't' ∷ b'f' ∷ b'-' ∷ b'8' ∷ []

abbrev pub html_head : Bytes
html_head =
    b'<' ∷ b'h' ∷ b't' ∷ b'm' ∷ b'l' ∷ b'>' ∷ b'<' ∷ b'b' ∷ b'o' ∷ b'd' ∷ b'y' ∷ b'>' ∷ b'<' ∷ b'h'
    ∷ b'1' ∷ b'>' ∷ []

abbrev pub html_middle : Bytes
html_middle = b'<' ∷ b'/' ∷ b'h' ∷ b'1' ∷ b'>' ∷ b'<' ∷ b'p' ∷ b'>' ∷ []

abbrev pub html_tail : Bytes
html_tail =
    b'<' ∷ b'/' ∷ b'p' ∷ b'>' ∷ b'<' ∷ b'/' ∷ b'b' ∷ b'o' ∷ b'd' ∷ b'y' ∷ b'>' ∷ b'<' ∷ b'/' ∷ b'h'
    ∷ b't' ∷ b'm' ∷ b'l' ∷ b'>' ∷ []

-- `handle` of a servlet; the request is not changed behind `setCommParam`.
abbrev pub Servlet : Type 0
Servlet = HttpRequest → HttpResponse → HttpResponse

-- An entry of `m_servlets`.
pub record ServletEntry : Type 0 where
  pub path : Bytes
  pub servlet : Servlet

unfoldable pub find_servlet : Bytes → List ServletEntry → Option Servlet
find_servlet path [] = none
find_servlet path (e ∷ es) =
    let rest = find_servlet path es in if same_bytes e.path path then some e.servlet else rest

-- `m_servlets[path] = servlet`, where there is no entry yet: what is registered first stays.
unfoldable pub add_servlet :
    Bytes → Servlet → List ServletEntry → Option Servlet → List ServletEntry
add_servlet path servlet es none = es ++ record { path = path; servlet = servlet } ∷ []
add_servlet path servlet es (some old) = es

unfoldable pub register_servlet : Bytes → Servlet → List ServletEntry → List ServletEntry
register_servlet path servlet es = add_servlet path servlet es (find_servlet path es)

unfoldable pub set_http_code : ℕ → HttpResponse → HttpResponse
set_http_code code res = record res {
  m_response_code = some code;
  m_response_info = http_code_to_string code;
}

unfoldable pub set_http_content_type : Bytes → HttpResponse → HttpResponse
set_http_content_type type res = record res {
  m_response_header = assign content_type type res.m_response_header;
}

unfoldable pub set_http_body : Bytes → HttpResponse → HttpResponse
set_http_body body res = record res {
  m_response_body = body;
  m_response_header = assign content_length (decimal (length body)) res.m_response_header;
}

-- The page that `sprintf` prints from the template.
unfoldable pub not_found_page : Bytes
not_found_page =
    html_head ++ (decimal 404 ++ (html_middle ++ (http_code_to_string 404 ++ html_tail)))

unfoldable pub handle_not_found : HttpResponse → HttpResponse
handle_not_found res =
    set_http_body not_found_page (set_http_content_type content_type_text (set_http_code 404 res))

-- The request, whose map may get an entry, and the response.
unfoldable pub set_comm_param : HttpRequest → HttpResponse → HttpRequest × HttpResponse
set_comm_param req res =
    let found =
      value_or_make connection req.m_requeset_header
        (find_value connection req.m_requeset_header) in
    (
      record req { m_requeset_header = found.1 },
      record res {
        m_response_version = req.m_request_version;
        m_response_header = assign connection found.0 res.m_response_header;
      },
    )

unfoldable pub handle_by : Option Servlet → HttpRequest × HttpResponse → HttpResponse
handle_by none (req, res) = handle_not_found res
handle_by (some servlet) (req, res) = servlet req res

-- The response that is encoded. With an empty path it is the fresh one.
unfoldable pub response_to : List ServletEntry → HttpRequest → HttpResponse
response_to servlets req =
    if is_empty req.m_request_path
    then fresh_response
    else handle_by (find_servlet req.m_request_path servlets) (set_comm_param req fresh_response)

-- The out buffer of the connection and the response after `dispatch`.
unfoldable pub dispatch :
    List ServletEntry → HttpRequest → TcpBuffer → Option (TcpBuffer × HttpResponse)
dispatch servlets req out = encode out (response_to servlets req)
