-- ===== src/Tcp/Connection/Execute/Pipeline.antt =====
-- flconc/net/tcp/tcp_connection.cc: `execute` answers the requests that are in the read buffer, and
-- a round of the loop of a server reads, answers and sends.
use flconc.Base.{
  ℕ, zero, suc, ◌<◌, ◌+◌, ◌≡◌, refl, sym, ◌∙◌, Bytes, List, [], ◌∷◌, ◌++◌, arith, length,
  append_assoc, length-append, Returns, subst, append-nil, map,
}
use flconc.Comm.MsgReq.{MsgReqUtil}
use flconc.Tcp.Buffer.Refine.{Holds, HasRoom}
use flconc.Flconcpb.Data.{FlconcPbStruct, fresh_struct}
use flconc.Flconcpb.Encode.{pack}
use flconc.Flconcpb.Fields.{Fits, received}
use flconc.Flconcpb.Scan.{NoStart}
use flconc.Flconcpb.Dispatch.{Entry}
use flconc.Tcp.Connection.{TcpConnection, insert_reply}
use flconc.Tcp.Connection.Execute.{
  server_connection, client_connection, handle, handled, execute_loop,
}
use flconc.Tcp.Connection.Execute.Serve.{
  stream, reply_to, AllFit, dispatch-pack, execute_loop-pack, execute_loop-NoStart,
}

-- Only the two buffers have changed.
abbrev pub SameButBuffers : TcpConnection → TcpConnection → Type 0
SameButBuffers c c' =
    c' ≡ record c { m_read_buffer = c'.m_read_buffer; m_write_buffer = c'.m_write_buffer }

abbrev pub Answered :
    List Entry
    → List FlconcPbStruct
    → Bytes
    → Bytes
    → TcpConnection
    → MsgReqUtil
    → TcpConnection × MsgReqUtil
    → Type 0
Answered services ds tail out c u r =
    Holds r.0.m_read_buffer tail
    × Holds r.0.m_write_buffer (out ++ stream (map (reply_to services) ds))
    × (r.1 ≡ u)
    × SameButBuffers c r.0

-- When the read buffer holds requests that fit and name a service, one behind the other, and then bytes
-- that cannot start a package, and the write buffer has room for the replies, `execute` on a server ends with a round for each request and one more;
-- it answers every request once, in order, behind what the write buffer holds, takes all of them
-- off the read buffer and leaves the other bytes; the generator and the rest of the connection are as
-- they were.
pub execute_loop-Answered :
    (services : List Entry) (ds : List FlconcPbStruct) (tail out : Bytes) (rounds : ℕ)
    (c : TcpConnection) (u : MsgReqUtil)
    → AllFit services ds
    → NoStart tail
    → Holds c.m_read_buffer (stream ds ++ tail)
    → Holds c.m_write_buffer out
    → HasRoom c.m_write_buffer (length (stream (map (reply_to services) ds)))
    → length ds < rounds
    → Returns
        (execute_loop (server_connection services) rounds c u)
        (Answered services ds tail out c u)
unfolding handled handle
execute_loop-Answered services ds tail out zero c u a n h w room l = absurd (omega arith)
execute_loop-Answered services [] tail out (suc rounds) c u a n h w room l = (
  (c, u),
  execute_loop-NoStart (server_connection services) rounds c u tail n h,
  (h, subst (Holds c.m_write_buffer) (sym (append-nil out)) w, refl, refl),
)
execute_loop-Answered services (d ∷ ds) tail out (suc rounds) c u ((f, name, small), a) n h w room
      l =
    let queue : Holds c.m_read_buffer (pack d ++ (stream ds ++ tail)) =
      subst (Holds c.m_read_buffer) (append_assoc (pack d) (stream ds) tail) h in
    let (b, e, held) =
      execute_loop-pack (server_connection services) rounds c u d (stream ds ++ tail) f queue in
    let reply : Bytes = pack (reply_to services d) in
    let more : Bytes = stream (map (reply_to services) ds) in
    let both : length (reply ++ more) ≡ length reply + length more = length-append reply more in
    let (s, p, (wrote, same, up)) =
      dispatch-pack services d u w f name small (omega (arith, room, both)) in
    let c' : TcpConnection = record c { m_read_buffer = b; m_write_buffer = s.0 } in
    let (r, g, (x, y, z, t)) =
      execute_loop-Answered services ds tail (out ++ pack (reply_to services d)) rounds c' u a n
        held wrote (omega (arith, room, both, up)) (omega arith) in
    (
      r,
      e ∙ simp (p, same, g),
      (
        x,
        subst (Holds r.0.m_write_buffer)
            (append_assoc out (pack (reply_to services d)) (stream (map (reply_to services) ds))) y,
        z,
        t,
      ),
    )

abbrev pub AllFits : List FlconcPbStruct → Type 0
AllFits [] = Unit {0}
AllFits (d ∷ ds) = Fits d × AllFits ds

-- The replies, inserted one after the other.
abbrev pub insert_all : List FlconcPbStruct → List FlconcPbStruct → List FlconcPbStruct
insert_all [] es = es
insert_all (d ∷ ds) es = insert_all ds (insert_reply (received d fresh_struct) es)

-- When the read buffer of a client holds packages that fit, one behind the other, and then bytes that
-- cannot start one, `execute` ends with a round for each and one more; it inserts all of them, in
-- order, into the replies, takes them off the read buffer, and leaves the write buffer as it was.
pub execute_loop-inserts :
    (ds : List FlconcPbStruct) (tail : Bytes) (rounds : ℕ) (c : TcpConnection) (u : MsgReqUtil)
    → AllFits ds
    → NoStart tail
    → Holds c.m_read_buffer (stream ds ++ tail)
    → length ds < rounds
    → Returns (execute_loop client_connection rounds c u) (λ r.
      Holds r.0.m_read_buffer tail
      × (r.0.m_reply_datas ≡ insert_all ds c.m_reply_datas)
      × (r.0.m_write_buffer ≡ c.m_write_buffer)
      × (r.1 ≡ u))
unfolding handled handle
execute_loop-inserts ds tail zero c u a n h l = absurd (omega arith)
execute_loop-inserts [] tail (suc rounds) c u a n h l =
    ((c, u), execute_loop-NoStart client_connection rounds c u tail n h, (h, refl, refl, refl))
execute_loop-inserts (d ∷ ds) tail (suc rounds) c u (f, a) n h l =
    let queue : Holds c.m_read_buffer (pack d ++ (stream ds ++ tail)) =
      subst (Holds c.m_read_buffer) (append_assoc (pack d) (stream ds) tail) h in
    let (b, e, held) =
      execute_loop-pack client_connection rounds c u d (stream ds ++ tail) f queue in
    let c' : TcpConnection = record c {
      m_read_buffer = b;
      m_reply_datas = insert_reply (received d fresh_struct) c.m_reply_datas;
    } in
    let (r, g, q) = execute_loop-inserts ds tail rounds c' u a n held (omega arith) in (r, e ∙ g, q)
