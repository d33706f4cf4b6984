-- ===== src/Http/Codec/Line.antt =====
-- flconc/net/http/http_codec.cc: `parseHttpRequestLine` reads back a request line.
use flconc.Base.{
  ℕ, ◌+◌, ◌-◌, ◌≡◌, refl, ap, ◌∙◌, Bool, true, false, Bytes, [], ◌∷◌, ◌++◌, none, some, arith,
  length, take, drop, take-front, drop-append, append_assoc, length-append, ◌==◌, same_bytes,
}
use flconc.Comm.StringUtil.{find_first_of}
use flconc.Http.Message.{HttpMethod, get, post, HttpRequest, find_str, find_last_of, to_upper}
use flconc.Http.Codec.{
  get_text, post_text, http_1_1, http_1_0, after_scheme, space, parse_method, is_version,
  read_query, read_path, read_url, read_version, read_method, read_line, parse_http_request_line,
}
use flconc.Http.Codec.Find.{find_last_of-last}

abbrev pub method_text : HttpMethod → Bytes
method_text get = get_text
method_text post = post_text

abbrev pub version_text : Bool → Bytes
version_text true = http_1_1
version_text false = http_1_0

-- The method, a space, the path, a space and the version.
abbrev pub line_text : HttpMethod → Bytes → Bool → Bytes
line_text m path v = (method_text m ++ b' ' ∷ path) ++ b' ' ∷ version_text v

first_space :
    (m : HttpMethod) (path : Bytes) (v : Bool)
    → find_first_of space (line_text m path v) ≡ some (length (method_text m))
unfolding find_first_of
first_space get path v = refl
first_space post path v = refl

version_solid : (v : Bool) → find_last_of b' ' (version_text v) ≡ none
unfolding find_last_of
version_solid true = refl
version_solid false = refl

last_space :
    (m : HttpMethod) (path : Bytes) (v : Bool)
    → find_last_of b' ' (line_text m path v) ≡ some (length (method_text m ++ b' ' ∷ path))
last_space m path v =
    find_last_of-last b' ' (method_text m ++ b' ' ∷ path) (version_text v) (version_solid v)

method_read : (m : HttpMethod) → parse_method (to_upper (method_text m)) ≡ some m
unfolding parse_method same_bytes
method_read get = refl
method_read post = refl

version_read :
    (v : Bool) → (to_upper (version_text v) ≡ version_text v) × (is_version (version_text v) ≡ true)
unfolding is_version same_bytes
version_read true = (refl, refl)
version_read false = (refl, refl)

-- The parts of the line at its two spaces.
module _ (m : HttpMethod) (path : Bytes) (v : Bool) where
  abbrev method_end : ℕ
  method_end = length (method_text m)

  abbrev path_end : ℕ
  path_end = length (method_text m ++ b' ' ∷ path)

  ends : path_end ≡ method_end + (1 + length path)
  ends = omega (arith, length-append (method_text m) (b' ' ∷ path))

  flat : line_text m path v ≡ method_text m ++ (b' ' ∷ (path ++ b' ' ∷ version_text v))
  flat = append_assoc (method_text m) (b' ' ∷ path) (b' ' ∷ version_text v)

  version_part : drop (path_end + 1) (line_text m path v) ≡ version_text v
  version_part =
      drop-append (path_end + 1) 1 (method_text m ++ b' ' ∷ path) (b' ' ∷ version_text v) refl

  method_part : take method_end (line_text m path v) ≡ method_text m
  method_part = ap (take method_end) flat ∙ take-front (method_text m) _

  path_part : take (path_end - method_end - 1) (drop (method_end + 1) (line_text m path v)) ≡ path
  path_part =
      let count : path_end - method_end - 1 ≡ length path = omega (arith, ends) in
      let behind : drop (method_end + 1) (line_text m path v) ≡ path ++ b' ' ∷ version_text v =
        ap (drop (method_end + 1)) flat ∙ drop-append (method_end + 1) 1 (method_text m) _ refl in
      rw (count, behind) (take-front path (b' ' ∷ version_text v))

  -- A request line whose method is GET or POST, whose version is HTTP/1.1 or HTTP/1.0, and whose path has
  -- neither a scheme nor a query is read back: the method, the version and the path arrive, also
  -- where there are spaces in the path, and nothing else changes.
  pub parse_http_request_line-line_text :
      (request : HttpRequest)
      → find_str after_scheme path ≡ none
      → find_first_of (b'?' ∷ []) path ≡ none
      → parse_http_request_line request (line_text m path v)
        ≡ some (
          true,
          record request {
            m_request_method = some m;
            m_request_version = version_text v;
            m_request_path = path;
          },
        )
  unfolding parse_http_request_line read_line read_method read_version read_url read_path read_query
  parse_http_request_line-line_text request h q =
      let apart : (method_end == path_end) ≡ false = ground (arith, ends) in
      simp (
        first_space m path v,
        last_space m path v,
        apart,
        version_part,
        method_part,
        path_part,
        method_read m,
        (version_read v).0,
        (version_read v).1,
        h,
        q,
      )
