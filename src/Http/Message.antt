-- ===== src/Http/Message.antt =====
-- flconc/net/http: `HttpRequest` and `HttpResponse`, and the library functions on strings that the codec
-- calls. A member that the constructor does not set is `none` until it is set.
use flconc.Base.{
  ℕ, zero, suc, ◌+◌, ◌-◌, ◌*◌, ◌/◌, ◌%◌, ◌&&◌, ◌||◌, Bool, true, false, Bytes, List, [], ◌∷◌, ◌++◌,
  Option, none, some, ltb, leb, ◌==◌, if◌then◌else◌, ◌>>=◌, is_empty, length, take, ◌^◌, min,
}
use flconc.Base.Int.{ℤ, pos, negsuc, sub_ℕ, signed32}
use flconc.Comm.StringUtil.{find_first_of, substr_from, split_str_to_vector}
use flconc.Http.Header.{Field, assign, c_str}

pub data HttpMethod : Type 0 where
  get post : HttpMethod

pub record HttpRequest : Type 0 where
  pub decode_succ : Bool
  pub m_request_method : Option HttpMethod
  pub m_request_path : Bytes
  pub m_request_query : Bytes
  pub m_request_version : Bytes
  pub m_requeset_header : List Field
  pub m_request_body : Bytes
  pub m_query_maps : List Field

abbrev pub fresh_request : HttpRequest
fresh_request = record {
  decode_succ = false;
  m_request_method = none;
  m_request_path = [];
  m_request_query = [];
  m_request_version = [];
  m_requeset_header = [];
  m_request_body = [];
  m_query_maps = [];
}

pub record HttpResponse : Type 0 where
  pub encode_succ : Bool
  pub m_response_version : Bytes
  pub m_response_code : Option ℕ
  pub m_response_info : Bytes
  pub m_response_header : List Field
  pub m_response_body : Bytes

abbrev pub fresh_response : HttpResponse
fresh_response = record {
  encode_succ = false;
  m_response_version = [];
  m_response_code = none;
  m_response_info = [];
  m_response_header = [];
  m_response_body = [];
}

abbrev pub is_prefix : Bytes → Bytes → Bool
is_prefix [] ys = true
is_prefix (x ∷ xs) [] = false
is_prefix (x ∷ xs) (y ∷ ys) = x == y && is_prefix xs ys

-- `str.find(pattern)`, for a pattern that is not empty.
unfoldable pub find_str : Bytes → Bytes → Option ℕ
find_str pattern [] = none
find_str pattern (c ∷ cs) =
    let rest = find_str pattern cs in
    if is_prefix pattern (c ∷ cs) then some 0 else do i ← rest; some (suc i)

abbrev pub later : Option ℕ → Option ℕ → Option ℕ
later none here = here
later (some i) here = some (suc i)

-- `str.find_last_of`, for one character.
unfoldable pub find_last_of : ℕ → Bytes → Option ℕ
find_last_of x [] = none
find_last_of x (c ∷ cs) = later (find_last_of x cs) (if c == x then some 0 else none)

abbrev pub upper : ℕ → ℕ
upper c = if leb b'a' c && leb c b'z' then c - 32 else c

-- `std::transform(…, toupper)`
abbrev pub to_upper : Bytes → Bytes
to_upper [] = []
to_upper (c ∷ cs) = upper c ∷ to_upper cs

abbrev pub is_digit : ℕ → Bool
is_digit c = leb b'0' c && leb c b'9'

abbrev pub is_space : ℕ → Bool
is_space c = c == b' ' || leb 9 c && leb c 13

-- The nearest number of 64 bits with sign.
abbrev pub clamp64 : ℤ → ℤ
clamp64 (pos n) = pos (min n (2 ^ 63 - 1))
clamp64 (negsuc n) = negsuc (min n (2 ^ 63 - 1))

-- The number of 32 bits with sign that has the same last 32 bits.
abbrev pub wrap32 : ℤ → ℤ
wrap32 (pos n) = signed32 (n % 2 ^ 32)
wrap32 (negsuc n) = signed32 (2 ^ 32 - 1 - n % 2 ^ 32)

-- The digits at the front, behind those read so far.
unfoldable pub read_digits : ℕ → Bytes → ℕ
read_digits n [] = n
read_digits n (c ∷ cs) =
    let rest = read_digits (n * 10 + (c - b'0')) cs in if is_digit c then rest else n

unfoldable pub read_signed : Bytes → ℤ
read_signed [] = pos 0
read_signed (c ∷ cs) =
    if c == b'-'
    then sub_ℕ 0 (read_digits 0 cs)
    else if c == b'+'
    then pos (read_digits 0 cs)
    else pos (read_digits 0 (c ∷ cs))

-- `strtol`: the number behind the spaces, cut off at the ends of a `long`.
unfoldable pub strtol : Bytes → ℤ
strtol [] = pos 0
strtol (c ∷ cs) =
    let rest = strtol cs in if is_space c then rest else clamp64 (read_signed (c ∷ cs))

-- `atoi`: `strtol`, as an `int` of 32 bits.
unfoldable pub atoi : Bytes → ℤ
atoi str = wrap32 (strtol str)

abbrev pub digits : ℕ → ℕ → Bytes
digits zero n = []
digits (suc rounds) n =
    let rest = digits rounds (n / 10) in
    if ltb n 10 then (b'0' + n) ∷ [] else rest ++ (b'0' + n % 10) ∷ []

-- `std::to_string`, and `<<` of an `int` that is not negative: twenty digits are enough below 2 ^ 64.
unfoldable pub decimal : ℕ → Bytes
decimal n = digits 20 n

-- The entry that a piece of `SplitStrToMap` makes, behind its joiner.
unfoldable pub put_piece : Bytes → Bytes → Option ℕ → List Field → Option (List Field)
put_piece joiner piece none res = some res
put_piece joiner piece (some zero) res = some res
put_piece joiner piece (some (suc j)) res = do
  value ← substr_from piece (suc j + length joiner)
  some (assign (c_str (take (suc j) piece)) value res)

unfoldable pub put_pieces : Bytes → List Bytes → List Field → Option (List Field)
put_pieces joiner [] res = some res
put_pieces joiner (piece ∷ pieces) res = do
  res' ← put_piece joiner piece (find_first_of joiner piece) res
  put_pieces joiner pieces res'

-- `SplitStrToMap`; `none` is the exception of a `substr` that starts behind the end.
unfoldable pub split_str_to_map : Bytes → Bytes → Bytes → List Field → Option (List Field)
split_str_to_map str split joiner res =
    if is_empty str || (is_empty split || is_empty joiner)
    then some res
    else split_str_to_vector str split >>= λ pieces. put_pieces joiner pieces res
