-- ===== src/Http/Header.antt =====
-- flconc/net/http/http_define.cc: `HttpHeaderComm`. The map is a list in the order of its keys.
use flconc.Base.{
  ℕ, ◌+◌, ◌≡◌, refl, Bool, true, false, Bytes, List, [], ◌∷◌, ◌++◌, Option, none, some, ltb, ◌==◌,
  if◌then◌else◌, same_bytes, length, length-append, arith,
}

pub record Field : Type 0 where
  pub key : Bytes
  pub value : Bytes

-- `std::string(key.c_str())` ends at the first NUL.
abbrev pub c_str : Bytes → Bytes
c_str [] = []
c_str (c ∷ cs) = if c == 0 then [] else c ∷ c_str cs

-- The order of `std::string`.
unfoldable pub less : Bytes → Bytes → Bool
less xs [] = false
less [] (y ∷ ys) = true
less (x ∷ xs) (y ∷ ys) =
    let rest = less xs ys in if ltb x y then true else if x == y then rest else false

-- `m_maps[key] = value`
unfoldable pub assign : Bytes → Bytes → List Field → List Field
assign key value [] = record { key = key; value = value } ∷ []
assign key value (f ∷ fs) =
    let rest = assign key value fs in
    if same_bytes f.key key
    then record { key = key; value = value } ∷ fs
    else if less key f.key
    then record { key = key; value = value } ∷ f ∷ fs
    else f ∷ rest

unfoldable pub find_value : Bytes → List Field → Option Bytes
find_value key [] = none
find_value key (f ∷ fs) =
    let rest = find_value key fs in if same_bytes f.key key then some f.value else rest

unfoldable pub set_key_value : Bytes → Bytes → List Field → List Field
set_key_value key value maps = assign (c_str key) value maps

-- The value, and the map: `m_maps[key]` makes an empty entry where there is none.
unfoldable pub value_or_make : Bytes → List Field → Option Bytes → Bytes × List Field
value_or_make key maps none = ([], assign key [] maps)
value_or_make key maps (some value) = (value, maps)

unfoldable pub get_value : Bytes → List Field → Bytes × List Field
get_value key maps = value_or_make (c_str key) maps (find_value (c_str key) maps)

unfoldable pub get_header_total_length : List Field → ℕ
get_header_total_length [] = 0
get_header_total_length (f ∷ fs) =
    length f.key + 1 + length f.value + 2 + get_header_total_length fs

abbrev pub g_crlf : Bytes
g_crlf = 13 ∷ 10 ∷ []

unfoldable pub to_http_string : List Field → Bytes
to_http_string [] = []
to_http_string (f ∷ fs) = f.key ++ (b':' ∷ f.value) ++ g_crlf ++ to_http_string fs

-- `getHeaderTotalLength` is the length of what `toHttpString` prints.
pub length-to_http_string :
    (maps : List Field) → length (to_http_string maps) ≡ get_header_total_length maps
unfolding to_http_string get_header_total_length
length-to_http_string [] = refl
length-to_http_string (f ∷ fs) = simp length-append (omega (arith, length-to_http_string fs))

abbrev ok_text : Bytes
ok_text = b'O' ∷ b'K' ∷ []

abbrev bad_request_text : Bytes
bad_request_text = b'B' ∷ b'a' ∷ b'd' ∷ b' ' ∷ b'R' ∷ b'e' ∷ b'q' ∷ b'u' ∷ b'e' ∷ b's' ∷ b't' ∷ []

abbrev forbidden_text : Bytes
forbidden_text = b'F' ∷ b'o' ∷ b'r' ∷ b'b' ∷ b'i' ∷ b'd' ∷ b'd' ∷ b'e' ∷ b'n' ∷ []

abbrev pub not_found_text : Bytes
not_found_text = b'N' ∷ b'o' ∷ b't' ∷ b' ' ∷ b'F' ∷ b'o' ∷ b'u' ∷ b'n' ∷ b'd' ∷ []

abbrev internal_server_error_text : Bytes
internal_server_error_text =
    b'I' ∷ b'n' ∷ b't' ∷ b'e' ∷ b'r' ∷ b'n' ∷ b'a' ∷ b'l' ∷ b' ' ∷ b'S' ∷ b'e' ∷ b'r' ∷ b'v' ∷ b'e'
    ∷ b'r' ∷ b' ' ∷ b'E' ∷ b'r' ∷ b'r' ∷ b'o' ∷ b'r' ∷ []

abbrev unknown_text : Bytes
unknown_text =
    b'U' ∷ b'n' ∷ b'K' ∷ b'n' ∷ b'o' ∷ b'w' ∷ b'n' ∷ b' ' ∷ b'c' ∷ b'o' ∷ b'd' ∷ b'e' ∷ []

unfoldable pub http_code_to_string : ℕ → Bytes
http_code_to_string code =
    if code == 200
    then ok_text
    else if code == 400
    then bad_request_text
    else if code == 403
    then forbidden_text
    else if code == 404
    then not_found_text
    else if code == 500
    then internal_server_error_text
    else unknown_text
