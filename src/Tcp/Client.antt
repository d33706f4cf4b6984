-- ===== src/Tcp/Client.antt =====
-- flconc/net/tcp/tcp_client.cc: `sendAndRecvFlconcPb` and what it calls, with the codec of FlconcPb. What
-- `connect_hook` returns, with `errno` behind `resetFd` and whether the timer has gone off, is a list
-- of answers, and so are the writes of `output` and the reads of each `input`. The timer sets the
-- flag of the connection. The texts of `m_err_info` are left out.
pub mod Replied
use flconc.Base.{
  ℕ, zero, suc, ◌+◌, Bool, true, false, Bytes, List, [], ◌∷◌, Option, none, some, if◌then◌else◌,
  ◌==◌, ◌>>=◌, ◌||◌,
}
use flconc.Base.Int.{ℤ, pos, negsuc, pos_part}
use flconc.Comm.MsgReq.{MsgReqUtil}
use flconc.Tcp.Buffer.{read_able}
use flconc.Flconcpb.Data.{FlconcPbStruct}
use flconc.Tcp.Connection.{
  TcpConnection, new_connection, set_up_client, is_connected, is_closed, is_zero, Written, output,
  get_res_package_data, set_over_time_flag,
}
use flconc.Tcp.Connection.Input.{
  Read, InputEnd, skipped, waits, timed_out, peer_closed, all_read, input,
}
use flconc.Tcp.Connection.Execute.{client_connection, execute_loop}

abbrev pub error_peer_closed : ℤ
error_peer_closed = pos 10000000

abbrev pub error_rpc_call_timeout : ℤ
error_rpc_call_timeout = pos 10000007

abbrev pub error_connect_sys_err : ℤ
error_connect_sys_err = pos 10000012

abbrev pub econnrefused : ℕ
econnrefused = 111

abbrev pub eafnosupport : ℕ
eafnosupport = 97

-- `resets` counts the sockets that were closed and made anew; the flag says whether the timer of a
-- call is set.
pub record TcpClient : Type 0 where
  pub m_connection : TcpConnection
  pub has_timer : Bool
  pub resets : ℕ
  pub m_is_stop : Bool

-- `TcpClient(addr)`, and `getConnection`, which returns the connection it made.
unfoldable pub new_client : TcpClient
new_client = record {
  m_connection = new_connection false 128;
  has_timer = false;
  resets = 0;
  m_is_stop = false;
}

unfoldable pub reset_fd : TcpClient → TcpClient
reset_fd t = record t { resets = t.resets + 1 }

-- The client, and whether the reactor is stopped.
unfoldable pub stop : TcpClient → TcpClient × Bool
stop t = if t.m_is_stop then (t, false) else (record t { m_is_stop = true }, true)

pub record ConnectTry : Type 0 where
  pub rt : ℤ
  pub errno : ℕ
  pub is_timeout : Bool

-- How a call ends: it waits; it has yielded as a coroutine that cannot be resumed; or it returns 0 and a
-- reply, or an error.
pub data CallEnd : Type 0 where
  call_waits parked : CallEnd
  replied : FlconcPbStruct → CallEnd
  returned : ℤ → CallEnd

unfoldable pub del_timer : TcpClient → TcpClient
del_timer t = record t { has_timer = false }

-- From `err_deal` on. The timer is left as it is.
unfoldable pub err_deal : Bool → TcpClient → CallEnd × TcpClient
err_deal is_timeout t =
    let t' = reset_fd t in
    if is_timeout
    then (
      returned error_rpc_call_timeout,
      record t' { m_connection = set_over_time_flag false t'.m_connection },
    )
    else (returned error_peer_closed, t')

abbrev Call : Type 0
Call = TcpClient → MsgReqUtil → Option (CallEnd × TcpClient × MsgReqUtil)

abbrev pub with_connection : TcpConnection → TcpClient → TcpClient
with_connection c t = record t { m_connection = c }

abbrev finish : CallEnd × TcpClient → MsgReqUtil → Option (CallEnd × TcpClient × MsgReqUtil)
finish r u = some (r.0, r.1, u)

-- After a `connect_hook` that failed.
unfoldable pub failed_try : ConnectTry → Call → Call
failed_try a again t u =
    if a.is_timeout
    then finish (err_deal true t) u
    else if a.errno == econnrefused
    then finish (returned error_peer_closed, del_timer t) u
    else if a.errno == eafnosupport
    then finish (returned error_connect_sys_err, del_timer t) u
    else again t u

abbrev flag_time : Bool → TcpConnection → TcpConnection
flag_time b c = if b then set_over_time_flag true c else c

-- After `connect_hook`: on with the call, or another try.
unfoldable pub tried : ConnectTry → Call → Call → Call
tried a next again t u =
    let c = flag_time a.is_timeout t.m_connection in
    if is_zero a.rt
    then next (with_connection (set_up_client c) t) u
    else failed_try a again (reset_fd (with_connection c t)) u

-- The loop that connects, and what comes behind it.
unfoldable pub connect_loop : List ConnectTry → Call → Call
connect_loop [] next t u =
    if is_connected t.m_connection.m_state then next t u else finish (call_waits, t) u
connect_loop (a ∷ more) next t u =
    if is_connected t.m_connection.m_state
    then next t u
    else tried a next (connect_loop more next) t u

-- Behind `input`: its end says whether the coroutine comes back from it.
unfoldable pub received_some :
    Call
    → TcpClient
    → MsgReqUtil
    → InputEnd
    → TcpConnection
    → Option (CallEnd × TcpClient × MsgReqUtil)
received_some again t u waits c = finish (call_waits, with_connection c t) u
received_some again t u peer_closed c = finish (parked, with_connection c t) u
received_some again t u _ c =
    if c.m_is_over_time
    then finish (err_deal true (with_connection c t)) u
    else if is_closed c.m_state
    then finish (err_deal false (with_connection c t)) u
    else execute_loop client_connection (pos_part (read_able c.m_read_buffer)) c u >>= λ r.
        again (with_connection r.0 t) r.1

unfoldable pub recv_round : List Read → Call → Call
recv_round reads again t u = do r ← input reads t.m_connection; received_some again t u r.2 r.0

-- `while (!getResPackageData(msg_no, res))`
unfoldable pub found_or :
    Call
    → MsgReqUtil
    → TcpClient
    → Option FlconcPbStruct × TcpConnection
    → Option (CallEnd × TcpClient × MsgReqUtil)
found_or again u t (some d, c) = finish (replied d, del_timer (with_connection c t)) u
found_or again u t (none, c) = again t u

unfoldable pub recv_loop : List (List Read) → Bytes → Call
recv_loop [] msg_no t u =
    found_or (λ t u. finish (call_waits, t) u) u t (get_res_package_data msg_no t.m_connection)
recv_loop (reads ∷ rounds) msg_no t u =
    found_or (recv_round reads (recv_loop rounds msg_no)) u t
      (get_res_package_data msg_no t.m_connection)

-- Once connected: send, and receive.
unfoldable pub send_then : List Written → List (List Read) → Bytes → Call
send_then writes rounds msg_no t u = do
  r ← output writes (set_up_client t.m_connection)
  if r.0.m_is_over_time
      then finish (err_deal true (with_connection r.0 t)) u
      else recv_loop rounds msg_no (with_connection r.0 t) u

unfoldable pub send_and_recv_flconc_pb :
    List ConnectTry → List Written → List (List Read) → Bytes → Call
send_and_recv_flconc_pb tries writes rounds msg_no t u =
    connect_loop tries (send_then writes rounds msg_no) (record t { has_timer = true }) u
