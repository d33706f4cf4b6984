-- ===== src/Tcp/Connection/Execute/EndToEnd.antt =====
-- flconc/net/tcp/tcp_connection.cc: a round of the loop of a server reads, answers and sends.
use flconc.Base.{
  ℕ, suc, ◌+◌, ◌-◌, ◌<◌, ◌≤◌, ◌≡◌, refl, sym, ap, ◌∙◌, false, Bytes, List, [], ◌∷◌, ◌++◌, Option,
  some, arith, length, Returns, subst, append-nil, map, ◌==◌, is_empty-long,
}
use flconc.Base.Int.{pos, pos_part, sub_ℕ_of_le}
use flconc.Comm.MsgReq.{MsgReqUtil}
use flconc.Tcp.Buffer.{TcpBuffer, write_able}
use flconc.Tcp.Buffer.Refine.{Holds, HasRoom, read_able-Holds}
use flconc.Flconcpb.Data.{FlconcPbStruct}
use flconc.Flconcpb.Dispatch.{Entry}
use flconc.Tcp.Connection.{TcpConnection, connected, is_shut, is_zero, Written}
use flconc.Tcp.Connection.Output.{Accepts, output-Sends, is_zero-pos}
use flconc.Tcp.Connection.Input.{
  Read, InputEnd, all_read, make_room, store, store-Holds, read_on, input_round, input_round-on,
  input_loop, input, end_input,
}
use flconc.Tcp.Connection.Execute.{
  server_connection, execute_loop, respond, after_input, server_round,
}
use flconc.Tcp.Connection.Execute.Rounds.{execute_loop-ends}
use flconc.Tcp.Connection.Execute.Serve.{stream, reply_to, AllFit}
use flconc.Tcp.Connection.Execute.Pipeline.{execute_loop-Answered}

-- The bytes wait in the socket, and are fewer than the room behind the write index: a read that asks
-- for as many or more returns them.
pub record Arrives (w : Read) (b : TcpBuffer) (ys : Bytes) : Type 0 where
  pub returned : (n : ℕ) → length ys ≤ n → w.read n ≡ ys
  pub some_bytes : 0 < length ys
  pub room : b.m_write_index + length ys < length b.m_buffer
  pub in_time : w.is_over_time ≡ false

make_room-some : (b : TcpBuffer) → b.m_write_index < length b.m_buffer → make_room b ≡ some b
unfolding make_room
make_room-some b h =
    let open_ : is_zero (write_able b) ≡ false =
      ap is_zero (sub_ℕ_of_le (length b.m_buffer) b.m_write_index (omega (arith, h)))
      ∙ is_zero-pos (length b.m_buffer - b.m_write_index) (omega (arith, h)) in
    simp open_

read_on-short :
    (loop : TcpConnection → Option (TcpConnection × Bytes × InputEnd)) (n : ℕ) (ys : Bytes)
    (c : TcpConnection)
    → c.m_is_over_time ≡ false
    → 0 < length ys
    → length ys < n
    → read_on loop n ys c ≡ some (c, ys, all_read)
unfolding read_on
read_on-short loop n ys c t p l =
    let short : (length ys == n) ≡ false = ground (arith, l) in simp (t, is_empty-long ys p, short)

-- What waits in the socket is read at once, and `input` has read all.
pub input-Arrives :
    (w : Read) (ws : List Read) (c : TcpConnection) (xs ys : Bytes)
    → c.m_state ≡ connected
    → c.m_is_over_time ≡ false
    → Holds c.m_read_buffer xs
    → Arrives w c.m_read_buffer ys
    → (b : TcpBuffer) × (input (w ∷ ws) c
        ≡ some (record c { m_read_buffer = b; m_is_over_time = false }, ys, all_read))
      × Holds b (xs ++ ys)
unfolding input input_loop end_input
input-Arrives w ws c xs ys s t h a =
    let b = c.m_read_buffer in
    let n : ℕ = length b.m_buffer - b.m_write_index in
    let count : write_able b ≡ pos n =
      sub_ℕ_of_le (length b.m_buffer) b.m_write_index (omega (arith, a.room)) in
    let (b', p, (q, _)) = store-Holds n ys h (omega (arith, a.room)) count in
    let got : w.read n ≡ ys = a.returned n (omega (arith, a.room)) in
    let stored : store b (pos_part (write_able b)) (w.read (pos_part (write_able b))) ≡ some b' =
      rw (count, got) p in
    let c' : TcpConnection = record c { m_read_buffer = b'; m_is_over_time = w.is_over_time } in
    let short : read_on (input_loop ws) n ys c' ≡ some (c', ys, all_read) =
      read_on-short (input_loop ws) n ys c' a.in_time a.some_bytes (omega (arith, a.room)) in
    let round : input_round w (input_loop ws) c ≡ some (c', ys, all_read) =
      input_round-on w (input_loop ws) c b b' (make_room-some b (omega (arith, a.room))) stored
      ∙ rw (count, got) short in
    let open_ : is_shut c.m_state ≡ false = ap is_shut s in
    (b', simp (t, open_, round, a.in_time), q)

respond-Sends :
    (services : List Entry) (ds : List FlconcPbStruct) (writes : List Written) (c : TcpConnection)
    (u : MsgReqUtil)
    → c.m_state ≡ connected
    → c.m_is_over_time ≡ false
    → Holds c.m_read_buffer (stream ds)
    → Holds c.m_write_buffer []
    → AllFit services ds
    → Accepts writes (length (stream (map (reply_to services) ds)))
    → HasRoom c.m_write_buffer (length (stream (map (reply_to services) ds)))
    → Returns
        (respond (server_connection services) writes c u)
        (λ r. (r.2 ≡ stream (map (reply_to services) ds)) × Holds r.0.m_write_buffer [] × (r.1 ≡ u))
unfolding respond
respond-Sends services ds writes c u s t h w a k room =
    let n : ℕ = length (stream ds) in
    let queue : Holds c.m_read_buffer (stream ds ++ []) =
      subst (Holds c.m_read_buffer) (sym (append-nil (stream ds))) h in
    let (r, e, (x, y, z, same)) =
      execute_loop-Answered services ds [] [] (n + suc (length ds)) c u a tt queue w room
        (omega arith) in
    let enough : execute_loop (server_connection services) n c u ≡ some r =
      sym (
        execute_loop-ends (server_connection services) n (n + suc (length ds)) c u (stream ds) h
          (omega arith) (omega arith))
      ∙ e in
    let (o, g, (sent, empty)) =
      output-Sends writes r.0 (stream (map (reply_to services) ds)) (ap (λ d. d.m_state) same ∙ s)
        (ap (λ d. d.m_is_over_time) same ∙ t) y k in
    ((o.0, r.1, o.1), simp (read_able-Holds h, enough, g), (sent, empty, z))

-- On a connected server connection whose buffers are empty, with requests waiting in the socket that fit,
-- name a service, follow each other and are fewer bytes than the room of the read buffer, and a
-- peer that takes all that is written, and room in the write buffer for the replies: one round of the server's loop sends exactly the packages
-- of the services' replies to these requests, in the order of the requests, leaves the write
-- buffer empty and the message numbers untouched.
pub server_round-Sends :
    (services : List Entry) (ds : List FlconcPbStruct) (w : Read) (ws : List Read)
    (writes : List Written) (c : TcpConnection) (u : MsgReqUtil)
    → c.m_state ≡ connected
    → c.m_is_over_time ≡ false
    → Holds c.m_read_buffer []
    → Holds c.m_write_buffer []
    → Arrives w c.m_read_buffer (stream ds)
    → AllFit services ds
    → Accepts writes (length (stream (map (reply_to services) ds)))
    → HasRoom c.m_write_buffer (length (stream (map (reply_to services) ds)))
    → Returns
        (server_round (server_connection services) (record { reads = w ∷ ws; writes = writes }) c u)
        (λ r. (r.2 ≡ stream (map (reply_to services) ds)) × Holds r.0.m_write_buffer [] × (r.1 ≡ u))
unfolding server_round after_input
server_round-Sends services ds w ws writes c u s t h v a f k room =
    let (b, e, q) = input-Arrives w ws c [] (stream ds) s t h a in
    let c' : TcpConnection = record c { m_read_buffer = b; m_is_over_time = false } in
    let (r, g, p) = respond-Sends services ds writes c' u s refl q v f k room in (r, simp (e, g), p)
