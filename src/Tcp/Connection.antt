-- ===== src/Tcp/Connection.antt =====
-- flconc/net/tcp/tcp_connection.h and tcp_connection.cc: the state of `TcpConnection`, and `output`. What
-- `write_hook` returns, and whether the time ran out meanwhile, is a list of answers; where the
-- list ends the connection waits in the next write. `closes` counts the calls of `close`.
pub mod Input
pub mod Execute
pub mod Output
pub mod Kept
pub mod Replies
use flconc.Base.{
  ℕ, zero, suc, ◌+◌, Bool, true, false, Bytes, List, [], ◌∷◌, ◌++◌, Option, none, some,
  if◌then◌else◌, ◌>>=◌, ◌||◌, ◌&&◌, not, leb, same_bytes,
}
use flconc.Base.Int.{ℤ, pos, negsuc, ltb_ℤ}
use flconc.Tcp.Buffer.{TcpBuffer, init, copy, read_able, recycle_read}
use flconc.Flconcpb.Data.{FlconcPbStruct}

pub data TcpConnectionState : Type 0 where
  not_connected connected half_closing closed : TcpConnectionState

pub record TcpConnection : Type 0 where
  pub m_state : TcpConnectionState
  pub m_read_buffer : TcpBuffer
  pub m_write_buffer : TcpBuffer
  pub m_stop : Bool
  pub m_is_over_time : Bool
  pub m_reply_datas : List FlconcPbStruct
  pub closes : ℕ

-- The constructors, for a server and for a client, with `initBuffer`.
unfoldable pub new_connection : Bool → ℕ → TcpConnection
new_connection is_server buff_size = record {
  m_state = if is_server then connected else not_connected;
  m_read_buffer = init buff_size;
  m_write_buffer = init buff_size;
  m_stop = false;
  m_is_over_time = false;
  m_reply_datas = [];
  closes = 0;
}

unfoldable pub set_up_client : TcpConnection → TcpConnection
set_up_client c = record c { m_state = connected }

abbrev pub is_closed : TcpConnectionState → Bool
is_closed closed = true
is_closed _ = false

abbrev pub is_connected : TcpConnectionState → Bool
is_connected connected = true
is_connected _ = false

unfoldable pub clear_client : TcpConnection → TcpConnection
clear_client c =
    if is_closed c.m_state
    then c
    else record c { m_stop = true; closes = c.closes + 1; m_state = closed }

-- `state == Closed || state == NotConnected`
abbrev pub is_shut : TcpConnectionState → Bool
is_shut closed = true
is_shut not_connected = true
is_shut _ = false

-- The flag says whether `shutdown` is called.
unfoldable pub shutdown_connection : TcpConnection → TcpConnection × Bool
shutdown_connection c =
    if is_shut c.m_state then (c, false) else (record c { m_state = half_closing }, true)

unfoldable pub set_over_time_flag : Bool → TcpConnection → TcpConnection
set_over_time_flag value c = record c { m_is_over_time = value }

-- `m_reply_datas.insert`, which keeps what is there under the same number.
unfoldable pub insert_reply : FlconcPbStruct → List FlconcPbStruct → List FlconcPbStruct
insert_reply d [] = d ∷ []
insert_reply d (e ∷ es) =
    let rest = insert_reply d es in if same_bytes e.msg_req d.msg_req then e ∷ es else e ∷ rest

-- The reply under a number, and the others.
unfoldable pub take_reply :
    Bytes → List FlconcPbStruct → Option (FlconcPbStruct × List FlconcPbStruct)
take_reply msg_req [] = none
take_reply msg_req (e ∷ es) =
    let rest = take_reply msg_req es in
    if same_bytes e.msg_req msg_req then some (e, es) else do r ← rest; some (r.0, e ∷ r.1)

unfoldable pub take_or_keep :
    TcpConnection
    → Option (FlconcPbStruct × List FlconcPbStruct)
    → Option FlconcPbStruct × TcpConnection
take_or_keep c none = (none, c)
take_or_keep c (some (d, rest)) = (some d, record c { m_reply_datas = rest })

unfoldable pub get_res_package_data : Bytes → TcpConnection → Option FlconcPbStruct × TcpConnection
get_res_package_data msg_req c = take_or_keep c (take_reply msg_req c.m_reply_datas)

-- An answer of `write_hook`, and `m_is_over_time` behind it.
pub record Written : Type 0 where
  pub rt : ℤ
  pub is_over_time : Bool

-- The bytes that the socket took.
unfoldable pub sent_bytes : TcpBuffer → ℤ → Option Bytes
sent_bytes b (pos n) = copy b.m_buffer b.m_read_index (pos n)
sent_bytes b (negsuc n) = some []

-- `total_size == 0`, and `readAble() <= 0`
abbrev pub is_zero : ℤ → Bool
is_zero (pos zero) = true
is_zero _ = false

abbrev pub is_not_positive : ℤ → Bool
is_not_positive (pos (suc n)) = false
is_not_positive _ = true

-- One round behind the write: the connection, and whether the loop ends.
unfoldable pub written : Written → TcpConnection → Option (TcpConnection × Bool)
written w c = do
  b ← recycle_read c.m_write_buffer w.rt
  some (
    record c { m_write_buffer = b; m_is_over_time = w.is_over_time },
    is_not_positive (read_able b) || w.is_over_time,
  )

-- The loop ends, or goes on.
unfoldable pub go_on :
    Bytes
    → (TcpConnection → Option (TcpConnection × Bytes))
    → TcpConnection × Bool
    → Option (TcpConnection × Bytes)
go_on sent loop (c, true) = some (c, sent)
go_on sent loop (c, false) = do rest ← loop c; some (rest.0, sent ++ rest.1)

-- A round from the write on.
unfoldable pub output_round :
    Written
    → (TcpConnection → Option (TcpConnection × Bytes))
    → TcpConnection
    → Option (TcpConnection × Bytes)
output_round w loop c = do
  sent ← sent_bytes c.m_write_buffer w.rt
  r ← written w c
  go_on sent loop r

-- The loop of `output`: the connection, and what was sent.
unfoldable pub output_loop : List Written → TcpConnection → Option (TcpConnection × Bytes)
output_loop [] c = some (c, [])
output_loop (w ∷ ws) c =
    if is_connected c.m_state && not (is_zero (read_able c.m_write_buffer))
    then output_round w (output_loop ws) c
    else some (c, [])

unfoldable pub output : List Written → TcpConnection → Option (TcpConnection × Bytes)
output ws c = if c.m_is_over_time then some (c, []) else output_loop ws c
