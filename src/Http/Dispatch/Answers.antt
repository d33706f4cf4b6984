-- ===== src/Http/Dispatch/Answers.antt =====
-- flconc/net/http/http_dispatcher.cc: the servlet that is called, and the response when there is none.
use flconc.Base.{
  ◌≡◌, refl, sym, ap, ◌∙◌, ◌<◌, true, false, Bytes, List, [], ◌∷◌, ◌++◌, Option, none, some,
  if◌then◌else◌, is_empty, is_empty-long, same_bytes, same_bytes→eq, same_bytes_refl, length,
  Bool-cases, Option-cases, inl, inr, Returns, subst,
}
use flconc.Tcp.Buffer.{TcpBuffer, write_to_buffer}
use flconc.Tcp.Buffer.Refine.{Holds, HasRoom, write-Holds}
use flconc.Http.Header.{
  Field, assign, find_value, value_or_make, less, not_found_text, http_code_to_string,
}
use flconc.Http.Message.{HttpRequest, HttpResponse, fresh_response, decimal}
use flconc.Http.Codec.{encode, response_text, content_length}
use flconc.Http.Dispatch.{
  Servlet, ServletEntry, find_servlet, add_servlet, register_servlet, set_http_code,
  set_http_content_type, set_http_body, not_found_page, handle_not_found, set_comm_param, handle_by,
  response_to, dispatch, connection, content_type, content_type_text, html_head, html_middle,
  html_tail,
}

abbrev pub or_else : Option Servlet → Option Servlet → Option Servlet
or_else none other = other
or_else (some servlet) other = some servlet

find_servlet-append :
    (path : Bytes) (es : List ServletEntry) (e : ServletEntry)
    → find_servlet path (es ++ e ∷ [])
      ≡ or_else (find_servlet path es) (if same_bytes e.path path then some e.servlet else none)
unfolding find_servlet
find_servlet-append path [] e = refl
find_servlet-append path (x ∷ es) e = elim (Bool-cases (same_bytes x.path path)) [
  | inl s ↦ simp s
  | inr s ↦ simp (s, find_servlet-append path es e)
]

absent :
    (path other : Bytes) (servlet : Servlet) (es : List ServletEntry) (old : Servlet)
    → find_servlet path es ≡ some old
    → find_servlet other es
      ≡ or_else (find_servlet other es) (if same_bytes path other then some servlet else none)
absent path other servlet es old h = elim (Option-cases (find_servlet other es)) [
  | inr (s, e) ↦ simp e
  | inl e ↦ elim (Bool-cases (same_bytes path other)) [
    | inr d ↦ simp (e, d)
    | inl d ↦
        absurd
          (cc (sym h ∙ subst (λ t. find_servlet t es ≡ none) (sym (same_bytes→eq path other d)) e))
  ]
]

-- After a registration a path has the servlet it had before; and the path registered, where it had
-- none, has the new one: what is registered first for a path stays.
pub find_servlet-register_servlet :
    (path other : Bytes) (servlet : Servlet) (es : List ServletEntry)
    → find_servlet other (register_servlet path servlet es)
      ≡ or_else (find_servlet other es) (if same_bytes path other then some servlet else none)
unfolding register_servlet add_servlet
find_servlet-register_servlet path other servlet es = elim (Option-cases (find_servlet path es)) [
  | inl n ↦ simp n (find_servlet-append other es (record { path = path; servlet = servlet }))
  | inr (old, n) ↦ simp n (absent path other servlet es old n)
]

find_value-assign :
    (key value : Bytes) (fs : List Field) → find_value key (assign key value fs) ≡ some value
unfolding find_value assign
find_value-assign key value [] = simp (same_bytes_refl key)
find_value-assign key value (f ∷ fs) = elim (Bool-cases (same_bytes f.key key)) [
  | inl e ↦ simp (e, same_bytes_refl key)
  | inr e ↦ elim (Bool-cases (less key f.key)) [
    | inl l ↦ simp (e, l, same_bytes_refl key)
    | inr l ↦ simp (e, l, find_value-assign key value fs)
  ]
]

find_value-assign_other :
    (key other value : Bytes) (fs : List Field)
    → same_bytes key other ≡ false
    → find_value other (assign key value fs) ≡ find_value other fs
unfolding find_value assign
find_value-assign_other key other value [] h = simp h
find_value-assign_other key other value (f ∷ fs) h = elim (Bool-cases (same_bytes f.key key)) [
  | inl e ↦
      let d : same_bytes f.key other ≡ false =
        subst (λ t. same_bytes t other ≡ false) (sym (same_bytes→eq f.key key e)) h in
      simp (e, h, d)
  | inr e ↦ elim (Bool-cases (less key f.key)) [
    | inl l ↦ simp (e, l, h)
    | inr l ↦ elim (Bool-cases (same_bytes f.key other)) [
      | inl d ↦ simp (e, l, d)
      | inr d ↦ simp (e, l, d, find_value-assign_other key other value fs h)
    ]
  ]
]

-- The value under a key, which is empty where there is none.
abbrev pub value_of : Option Bytes → Bytes
value_of none = []
value_of (some value) = value

-- The response is the page that says that nothing was found, in the request's version, with its type, its
-- length and the request's `Connection`.
abbrev pub SaysNotFound : HttpRequest → HttpResponse → Type 0
SaysNotFound req res =
    (res.m_response_code ≡ some 404)
    × (res.m_response_body
        ≡ html_head ++ (decimal 404 ++ (html_middle ++ (not_found_text ++ html_tail))))
    × (find_value content_type res.m_response_header ≡ some content_type_text)
    × (res.m_response_version ≡ req.m_request_version)
    × (find_value content_length res.m_response_header
        ≡ some (decimal (length res.m_response_body)))
    × (find_value connection res.m_response_header
        ≡ some (value_of (find_value connection req.m_requeset_header)))

other_keys :
    (same_bytes content_type content_length ≡ false)
    × (same_bytes content_length connection ≡ false)
    × (same_bytes content_type connection ≡ false)
    × (same_bytes content_length content_type ≡ false)
unfolding same_bytes
other_keys = (refl, refl, refl, refl)

comm_param-header :
    (req : HttpRequest) (res : HttpResponse)
    → (set_comm_param req res).1.m_response_header
      ≡ assign connection
          (value_of (find_value connection req.m_requeset_header))
          res.m_response_header
unfolding set_comm_param value_or_make
comm_param-header req res = elim (Option-cases (find_value connection req.m_requeset_header)) [
  | inl e ↦ simp e
  | inr (v, e) ↦ simp e
]

not_found-says :
    (req : HttpRequest) → SaysNotFound req (handle_not_found (set_comm_param req fresh_response).1)
unfolding handle_not_found set_http_body set_http_content_type set_http_code set_comm_param
    not_found_page http_code_to_string
not_found-says req =
    let fs : List Field = (set_comm_param req fresh_response).1.m_response_header in
    (
      refl,
      refl,
      find_value-assign_other content_length content_type _ _ other_keys.3
          ∙ find_value-assign content_type content_type_text _,
      refl,
      find_value-assign content_length (decimal (length not_found_page)) _,
      find_value-assign_other content_length connection _ _ other_keys.1
          ∙ find_value-assign_other content_type connection _ _ other_keys.2
          ∙ ap (find_value connection) (comm_param-header req fresh_response)
          ∙ find_value-assign connection _ [],
    )

encode-written :
    (out : TcpBuffer) (res : HttpResponse) (text : Bytes) (b : TcpBuffer)
    → res.m_response_code ≡ some 404
    → response_text res (some 404) ≡ some text
    → write_to_buffer out text ≡ some b
    → encode out res ≡ some (b, record res { encode_succ = true })
unfolding encode
encode-written out res text b c p e = simp (c, p, e)

-- A request for a path that is not empty and has no servlet is answered with the 404 page, which names the
-- code and says Not Found: the response has the type of the page, the request's version and its
-- `Connection`, and the length of its body as `Content-Length`; its text, for which the out buffer has
-- room, is written behind what the out buffer holds.
pub dispatch-SaysNotFound :
    {out : TcpBuffer} {xs : Bytes} (servlets : List ServletEntry) (req : HttpRequest) (text : Bytes)
    → Holds out xs
    → 0 < length req.m_request_path
    → find_servlet req.m_request_path servlets ≡ none
    → response_text (handle_not_found (set_comm_param req fresh_response).1) (some 404) ≡ some text
    → HasRoom out (length text)
    → Returns (dispatch servlets req out) (λ r.
      SaysNotFound req r.1
      × (response_text r.1 r.1.m_response_code ≡ some text)
      × Holds r.0 (xs ++ text))
unfolding dispatch response_to handle_by response_text
dispatch-SaysNotFound {out} {xs} servlets req text h p n printed room =
    let res : HttpResponse = handle_not_found (set_comm_param req fresh_response).1 in
    let says = not_found-says req in
    let (b, e, (q, _)) = write-Holds text room h in
    let is : response_to servlets req ≡ res = simp (is_empty-long req.m_request_path p, n) in
    (
      (b, record res { encode_succ = true }),
      ap (encode out) is ∙ encode-written out res text b says.0 printed e,
      (says, ap (response_text res) says.0 ∙ printed, q),
    )

-- A request whose path is empty, as one for the root of a host is when it comes with a scheme, gets a
-- response whose code was never set: `encode` reads an undefined value.
pub dispatch-empty_path :
    (servlets : List ServletEntry) (req : HttpRequest) (out : TcpBuffer)
    → req.m_request_path ≡ []
    → dispatch servlets req out ≡ none
unfolding dispatch response_to encode response_text
dispatch-empty_path servlets req out h = simp (ap is_empty h)
