-- ===== src/Comm/MsgReq.antt =====
-- flconc/comm/msg_req.cc: the generator of message numbers. The numbers are decimal strings; the
-- generator starts at a random one and counts up to all nines, then starts again.
pub mod Increment
pub mod Count
use flconc.Base.{
  ℕ, zero, suc, ◌+◌, ◌-◌, ◌%◌, ◌||◌, Bool, true, false, Bytes, List, [], ◌∷◌, Option, none, some,
  map, ◌==◌, if◌then◌else◌, length, get_or, set, replicate, same_bytes, is_empty,
}

-- The two thread-local strings, `m_msg_req_len` of the configuration (20 without one), and what
-- the coming reads of /dev/urandom return.
pub record MsgReqUtil : Type 0 where
  pub m_msg_req_len : ℕ
  pub t_msg_req_nu : Bytes
  pub t_max_msg_req_nu : Bytes
  pub urandom : List Bytes

-- `while (t_msg_req_nu[i] == '9' && i >= 0) i--`, with `i + 1` rounds left; `none` is `i == -1`.
unfoldable pub skip_nines : Bytes → ℕ → Option ℕ
skip_nines nu zero = none
skip_nines nu (suc i) = if get_or nu i 0 == b'9' then skip_nines nu i else some i

-- `for (j = i + 1; j < length; ++j) t_msg_req_nu[j] = '0'`
unfoldable pub zero_out : ℕ → ℕ → Bytes → Bytes
zero_out zero j nu = nu
zero_out (suc rounds) j nu = zero_out rounds (j + 1) (set nu j b'0')

-- `t_msg_req_nu[i] += 1`, and the zeros behind it
unfoldable pub carry : Bytes → Option ℕ → Bytes
unfolding zero_out
carry nu none = nu
carry nu (some i) = zero_out (length nu - (i + 1)) (i + 1) (set nu i (get_or nu i 0 + 1))

unfoldable pub increment : Bytes → Bytes
unfolding skip_nines carry
increment nu = carry nu (skip_nines nu (length nu))

abbrev pub digit : ℕ → ℕ
digit x = x % 10 + b'0'

-- The digits of one random byte each. A short read returns no number and keeps the strings.
unfoldable pub refresh : MsgReqUtil → List Bytes → Bytes × MsgReqUtil
refresh u [] = ([], u)
refresh u (res ∷ later) =
    if length res == u.m_msg_req_len
    then (
      map digit res,
      record u {
        t_msg_req_nu = map digit res;
        t_max_msg_req_nu = replicate u.m_msg_req_len b'9';
        urandom = later;
      },
    )
    else ([], record u { urandom = later })

unfoldable pub gen_msg_number : MsgReqUtil → Bytes × MsgReqUtil
unfolding refresh increment
gen_msg_number u =
    if is_empty u.t_msg_req_nu || same_bytes u.t_msg_req_nu u.t_max_msg_req_nu
    then refresh u u.urandom
    else (increment u.t_msg_req_nu, record u { t_msg_req_nu = increment u.t_msg_req_nu })
