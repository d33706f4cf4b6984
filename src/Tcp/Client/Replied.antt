-- ===== src/Tcp/Client/Replied.antt =====
-- flconc/net/tcp/tcp_client.cc: a call gets its reply, and what happens when the peer closes instead.
use flconc.Base.{
  ℕ, ◌+◌, ◌≡◌, refl, sym, ap, ◌∙◌, true, false, Bytes, List, [], ◌∷◌, ◌++◌, none, some, Returns,
  subst, arith, length, append-nil,
}
use flconc.Base.Int.{pos}
use flconc.Comm.MsgReq.{MsgReqUtil}
use flconc.Tcp.Buffer.Refine.{Holds, read_able-Holds}
use flconc.Flconcpb.Data.{FlconcPbStruct, fresh_struct}
use flconc.Flconcpb.Encode.{pack}
use flconc.Flconcpb.Fields.{Fits, received}
use flconc.Tcp.Connection.{
  TcpConnection, connected, not_connected, is_closed, is_connected, output_loop, set_up_client,
  Written, take_reply, take_or_keep, get_res_package_data,
}
use flconc.Tcp.Connection.Output.{Accepts, output-Sends}
use flconc.Tcp.Connection.Kept.{output_loop-Keeps, output-output_loop}
use flconc.Tcp.Connection.Replies.{take_reply-insert_reply}
use flconc.Tcp.Connection.Input.{Read}
use flconc.Tcp.Connection.Execute.{client_connection, execute_loop}
use flconc.Tcp.Connection.Execute.Rounds.{execute_loop-ends}
use flconc.Tcp.Connection.Execute.Pipeline.{execute_loop-inserts}
use flconc.Tcp.Connection.Execute.EndToEnd.{Arrives, input-Arrives}
use flconc.Tcp.Client.{
  TcpClient, replied, del_timer, with_connection, received_some, recv_round, found_or, recv_loop,
  send_then, connect_loop, send_and_recv_flconc_pb, ConnectTry, tried,
}

-- A reply that is there ends the call, and the timer is deleted.
recv_loop-found :
    (rounds : List (List Read)) (msg_no : Bytes) (t : TcpClient) (u : MsgReqUtil)
    (d : FlconcPbStruct) (rest : List FlconcPbStruct)
    → take_reply msg_no t.m_connection.m_reply_datas ≡ some (d, rest)
    → recv_loop rounds msg_no t u
      ≡ some (
        replied d,
        del_timer (with_connection (record t.m_connection { m_reply_datas = rest }) t),
        u,
      )
unfolding recv_loop found_or get_res_package_data take_or_keep
recv_loop-found [] msg_no t u d rest h = simp h
recv_loop-found (reads ∷ rounds) msg_no t u d rest h = simp h

-- A round that reads the package of a reply.
recv_loop-pack :
    (d : FlconcPbStruct) (w : Read) (ws : List Read) (rounds : List (List Read)) (t : TcpClient)
    (u : MsgReqUtil)
    → t.m_connection.m_state ≡ connected
    → t.m_connection.m_is_over_time ≡ false
    → Holds t.m_connection.m_read_buffer []
    → Arrives w t.m_connection.m_read_buffer (pack d)
    → Fits d
    → take_reply d.msg_req t.m_connection.m_reply_datas ≡ none
    → Returns
        (recv_loop ((w ∷ ws) ∷ rounds) d.msg_req t u)
        (λ r. (r.0 ≡ replied (received d fresh_struct)) × (r.1.has_timer ≡ false) × (r.2 ≡ u))
unfolding recv_loop found_or recv_round received_some get_res_package_data take_or_keep del_timer
recv_loop-pack d w ws rounds t u s o h a f n =
    let c = t.m_connection in
    let (b, e, q) = input-Arrives w ws c [] (pack d) s o h a in
    let c' : TcpConnection = record c { m_read_buffer = b; m_is_over_time = false } in
    let size : ℕ = length (pack d) in
    let queue : Holds b ((pack d ++ []) ++ []) =
      subst (Holds b) (sym (append-nil (pack d ++ []) ∙ append-nil (pack d))) q in
    let (r, g, (x, y, z, v)) =
      execute_loop-inserts (d ∷ []) [] (size + 2) c' u (f, tt) tt queue (omega arith) in
    let enough : execute_loop client_connection size c' u ≡ some r =
      sym (
        execute_loop-ends client_connection size (size + 2) c' u (pack d) q (omega arith)
          (omega arith))
      ∙ g in
    let found : take_reply d.msg_req r.0.m_reply_datas
        ≡ some (received d fresh_struct, c.m_reply_datas) =
      ap (take_reply d.msg_req) y
      ∙ take_reply-insert_reply (received d fresh_struct) c.m_reply_datas n in
    let open_ : is_closed c.m_state ≡ false = ap is_closed s in
    let t' : TcpClient = with_connection r.0 t in
    (
      (
        replied (received d fresh_struct),
        del_timer (with_connection (record r.0 { m_reply_datas = c.m_reply_datas }) t'),
        r.1,
      ),
      simp (n, e, open_, read_able-Holds q, enough)
          (recv_loop-found rounds d.msg_req t' r.1 (received d fresh_struct) c.m_reply_datas found),
      (refl, refl, v),
    )

-- The call, once the connection is connected.
send_then-replied :
    (d : FlconcPbStruct) (xs : Bytes) (w : Read) (ws : List Read) (writes : List Written)
    (rounds : List (List Read)) (t : TcpClient) (u : MsgReqUtil)
    → t.m_connection.m_is_over_time ≡ false
    → Holds t.m_connection.m_write_buffer xs
    → Accepts writes (length xs)
    → Holds t.m_connection.m_read_buffer []
    → Arrives w t.m_connection.m_read_buffer (pack d)
    → Fits d
    → take_reply d.msg_req t.m_connection.m_reply_datas ≡ none
    → Returns
        (send_then writes ((w ∷ ws) ∷ rounds) d.msg_req t u)
        (λ r. (r.0 ≡ replied (received d fresh_struct)) × (r.1.has_timer ≡ false) × (r.2 ≡ u))
unfolding send_then set_up_client
send_then-replied d xs w ws writes rounds t u o v k h a f n =
    let c : TcpConnection = record t.m_connection { m_state = connected } in
    let (r, e, q) = output-Sends writes c xs refl o v k in
    let looped : output_loop writes c ≡ some r = sym (output-output_loop writes c o) ∙ e in
    let (state, reads, datas, time) = output_loop-Keeps writes (length xs) c r k o looped in
    let (s, g, p) =
      recv_loop-pack d w ws rounds (with_connection r.0 t) u state time (rw reads h) (rw reads a) f
        (rw datas n) in
    (s, simp (e, time, g), p)

-- A client that is not connected and whose time has not run out, with bytes to send and an empty read
-- buffer, and a peer that accepts the connection at once, takes all that is written, and then sends
-- the package of a reply that fits under the number of the call, under which no reply has come
-- before; the package comes in one read, in time, and is strictly shorter than the room behind the
-- write index of the read buffer: the call returns exactly this reply, and its timer is deleted.
pub send_and_recv_flconc_pb-replied :
    (d : FlconcPbStruct) (xs : Bytes) (errno : ℕ) (tries : List ConnectTry) (w : Read)
    (ws : List Read) (writes : List Written) (rounds : List (List Read)) (t : TcpClient)
    (u : MsgReqUtil)
    → t.m_connection.m_state ≡ not_connected
    → t.m_connection.m_is_over_time ≡ false
    → Holds t.m_connection.m_write_buffer xs
    → Accepts writes (length xs)
    → Holds t.m_connection.m_read_buffer []
    → Arrives w t.m_connection.m_read_buffer (pack d)
    → Fits d
    → take_reply d.msg_req t.m_connection.m_reply_datas ≡ none
    → Returns
        (send_and_recv_flconc_pb
          (record { rt = pos 0; errno = errno; is_timeout = false } ∷ tries)
          writes
          ((w ∷ ws) ∷ rounds)
          d.msg_req
          t
          u)
        (λ r. (r.0 ≡ replied (received d fresh_struct)) × (r.1.has_timer ≡ false) × (r.2 ≡ u))
unfolding send_and_recv_flconc_pb connect_loop tried set_up_client
send_and_recv_flconc_pb-replied d xs errno tries w ws writes rounds t u s o v k h a f n =
    let start : TcpClient = record t {
      has_timer = true;
      m_connection = record t.m_connection { m_state = connected };
    } in
    let closed_ : is_connected t.m_connection.m_state ≡ false = ap is_connected s in
    let (r, e, p) = send_then-replied d xs w ws writes rounds start u o v k h a f n in
    (r, simp (closed_, e), p)
