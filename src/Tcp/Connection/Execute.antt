-- ===== src/Tcp/Connection/Execute.antt =====
-- flconc/net/tcp/tcp_connection.cc: `execute`, and `MainServerLoopCorFunc`, with the codec of FlconcPb.
-- Coroutine switches inside the calls are left out: the other parties act through the answers of
-- `read_hook` and `write_hook`. The dispatcher of a server is the list of its services.
pub mod Rounds
pub mod Serve
pub mod Pipeline
pub mod EndToEnd
use flconc.Base.{
  ℕ, zero, suc, Bool, true, false, Bytes, List, [], ◌∷◌, ◌++◌, Option, none, some, if◌then◌else◌,
  ◌>>=◌,
}
use flconc.Base.Int.{pos_part}
use flconc.Comm.MsgReq.{MsgReqUtil}
use flconc.Tcp.Buffer.{TcpBuffer, read_able}
use flconc.Flconcpb.Data.{FlconcPbStruct, fresh_struct}
use flconc.Flconcpb.Decode.{decode}
use flconc.Flconcpb.Dispatch.{Entry, dispatch}
use flconc.Tcp.Connection.{TcpConnection, Written, insert_reply, is_not_positive, output}
use flconc.Tcp.Connection.Input.{
  Read, InputEnd, skipped, waits, timed_out, peer_closed, all_read, input,
}

pub data ConnectionType : Type 0 where
  server_connection : List Entry → ConnectionType
  client_connection : ConnectionType

-- What is done with a package that was decoded.
unfoldable pub handle :
    ConnectionType
    → FlconcPbStruct
    → TcpConnection
    → MsgReqUtil
    → Option (TcpConnection × MsgReqUtil)
handle (server_connection services) d c u = do
  r ← dispatch services d c.m_write_buffer u
  some (record c { m_write_buffer = r.0 }, r.2)
handle client_connection d c u =
    some (record c { m_reply_datas = insert_reply d c.m_reply_datas }, u)

unfoldable pub handled :
    ConnectionType
    → (TcpConnection → MsgReqUtil → Option (TcpConnection × MsgReqUtil))
    → FlconcPbStruct
    → TcpConnection
    → MsgReqUtil
    → Option (TcpConnection × MsgReqUtil)
handled kind loop d c u = do r ← handle kind d c u; loop r.0 r.1

-- A round from behind `decode` on.
unfoldable pub execute_round :
    ConnectionType
    → (TcpConnection → MsgReqUtil → Option (TcpConnection × MsgReqUtil))
    → TcpConnection
    → MsgReqUtil
    → TcpBuffer × FlconcPbStruct
    → Option (TcpConnection × MsgReqUtil)
execute_round kind loop c u (b, d) =
    if d.decode_succ
    then handled kind loop d (record c { m_read_buffer = b }) u
    else some (record c { m_read_buffer = b }, u)

-- `while (readAble() > 0)`, with so many rounds left.
unfoldable pub execute_loop :
    ConnectionType → ℕ → TcpConnection → MsgReqUtil → Option (TcpConnection × MsgReqUtil)
execute_loop kind zero c u = some (c, u)
execute_loop kind (suc rounds) c u =
    if is_not_positive (read_able c.m_read_buffer) then some (c, u) else do
      r ← decode c.m_read_buffer fresh_struct
      execute_round kind (execute_loop kind rounds) c u r

-- One round of `while (!m_stop)`: `input`, `execute` and `output`. The loop of `execute` gets a round
-- for every unread byte.
pub record Round : Type 0 where
  pub reads : List Read
  pub writes : List Written

abbrev unread : TcpConnection → ℕ
unread c = pos_part (read_able c.m_read_buffer)

-- Whether the coroutine comes back from `input`.
abbrev pub goes_on : InputEnd → Bool
goes_on waits = false
goes_on peer_closed = false
goes_on _ = true

-- `execute` and `output`: the bytes that were sent are returned last.
unfoldable pub respond :
    ConnectionType
    → List Written
    → TcpConnection
    → MsgReqUtil
    → Option (TcpConnection × MsgReqUtil × Bytes)
respond kind writes c u = do
  r ← execute_loop kind (unread c) c u
  s ← output writes r.0
  some (s.0, r.1, s.1)

unfoldable pub after_input :
    ConnectionType
    → List Written
    → MsgReqUtil
    → TcpConnection × Bytes × InputEnd
    → Option (TcpConnection × MsgReqUtil × Bytes)
after_input kind writes u (c, bytes, e) =
    if goes_on e then respond kind writes c u else some (c, u, [])

unfoldable pub server_round :
    ConnectionType
    → Round
    → TcpConnection
    → MsgReqUtil
    → Option (TcpConnection × MsgReqUtil × Bytes)
server_round kind w c u = do r ← input w.reads c; after_input kind w.writes u r
