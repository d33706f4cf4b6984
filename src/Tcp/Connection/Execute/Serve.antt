-- ===== src/Tcp/Connection/Execute/Serve.antt =====
-- flconc/net/tcp/tcp_connection.cc: `execute` on the packages that stand one behind the other in the
-- read buffer, on a server and on a client.
use flconc.Base.{
  ℕ, suc, ◌^◌, ◌<◌, ◌≤◌, ◌+◌, ◌≡◌, refl, ap, false, Bytes, List, [], ◌∷◌, ◌++◌, some, arith, length,
  drop-append, Returns, subst, is_empty-long, Bool-cases, inl, inr,
}
use flconc.Comm.MsgReq.{MsgReqUtil}
use flconc.Tcp.Buffer.{TcpBuffer, read_able}
use flconc.Tcp.Buffer.Refine.{Holds, HasRoom, read_able-Holds}
use flconc.Flconcpb.Data.{FlconcPbStruct, fresh_struct}
use flconc.Flconcpb.Encode.{package_size, pack}
use flconc.Flconcpb.Fields.{Fits, received}
use flconc.Flconcpb.Scan.{NoStart}
use flconc.Flconcpb.RoundTrip.{decode-pack, decode-NoStart, length-pack}
use flconc.Flconcpb.Dispatch.{Entry, answer, start_reply, dispatch}
use flconc.Flconcpb.Dispatch.Answer.{Replies, answer-Replies, encode-long}
use flconc.Tcp.Connection.{TcpConnection, is_not_positive}
use flconc.Tcp.Connection.Execute.{ConnectionType, handled, execute_round, execute_loop}

-- The packages, one behind the other.
abbrev pub stream : List FlconcPbStruct → Bytes
stream [] = []
stream (d ∷ ds) = pack d ++ stream ds

-- The reply of the services to a request.
abbrev pub reply_to : List Entry → FlconcPbStruct → FlconcPbStruct
reply_to services d =
    answer services (received d fresh_struct)
      (record fresh_struct { service_full_name = d.service_full_name; msg_req = d.msg_req })

-- Every request fits, names a service, and has a reply whose size is an `int`.
abbrev pub AllFit : List Entry → List FlconcPbStruct → Type 0
AllFit services [] = Unit {0}
AllFit services (d ∷ ds) =
    (Fits d × (0 < length d.service_full_name) × (package_size (reply_to services d) < 2 ^ 31))
    × AllFit services ds

-- `dispatch` starts the reply of a numbered request without the generator.
start_reply-received :
    (d : FlconcPbStruct) (u : MsgReqUtil)
    → 0 < length d.msg_req
    → start_reply (received d fresh_struct) u
      ≡ (record fresh_struct { service_full_name = d.service_full_name; msg_req = d.msg_req }, u)
unfolding start_reply
start_reply-received d u h = rw (is_empty-long d.msg_req h) refl

pub reply_to-Replies :
    (services : List Entry) (d : FlconcPbStruct) (u : MsgReqUtil)
    → 0 < length d.msg_req
    → Replies d (reply_to services d)
reply_to-Replies services d u h =
    subst (λ t. Replies d (answer services (received d fresh_struct) t.0))
      (start_reply-received d u h) (answer-Replies services (received d fresh_struct) u h)

pub dispatch-pack :
    {out : TcpBuffer} {xs : Bytes} (services : List Entry) (d : FlconcPbStruct) (u : MsgReqUtil)
    → Holds out xs
    → Fits d
    → 0 < length d.service_full_name
    → package_size (reply_to services d) < 2 ^ 31
    → HasRoom out (length (pack (reply_to services d)))
    → Returns (dispatch services (received d fresh_struct) out u) (λ s.
      Holds s.0 (xs ++ pack (reply_to services d))
      × (s.2 ≡ u)
      × (s.0.m_write_index ≤ out.m_write_index + length (pack (reply_to services d))))
unfolding dispatch
dispatch-pack {out} {xs} services d u h f name small room =
    let (msg, full) = reply_to-Replies services d u f.msg_some in
    let (s, e, (held, same, _, up)) =
      encode-long (reply_to services d) u h (omega (arith, name, ap length full))
        (omega (arith, f.msg_some, ap length msg)) small room in
    rw (start_reply-received d u f.msg_some) (s, e, (held, same, up))

-- A round on a queue with a package at its front: the package is gone, and `handle` gets it.
pub execute_loop-pack :
    (kind : ConnectionType) (rounds : ℕ) (c : TcpConnection) (u : MsgReqUtil) (d : FlconcPbStruct)
    (rest : Bytes)
    → Fits d
    → Holds c.m_read_buffer (pack d ++ rest)
    → (b : TcpBuffer) × (execute_loop kind (suc rounds) c u
        ≡ handled kind
            (execute_loop kind rounds)
            (received d fresh_struct)
            (record c { m_read_buffer = b })
            u)
      × Holds b rest
unfolding execute_loop execute_round
execute_loop-pack kind rounds c u d rest f h =
    let (r, e, q) = decode-pack c.m_read_buffer [] rest d f tt h fresh_struct in
    let some_ : is_not_positive (read_able c.m_read_buffer) ≡ false =
      ap is_not_positive (read_able-Holds h) in
    (
      r.0,
      simp (some_, e, q.0),
      subst (Holds r.0)
          (drop-append (package_size d) 0 (pack d) rest (omega (arith, length-pack d f))) q.1,
    )

-- A round on bytes that cannot start a package is the last.
pub execute_loop-NoStart :
    (kind : ConnectionType) (rounds : ℕ) (c : TcpConnection) (u : MsgReqUtil) (xs : Bytes)
    → NoStart xs
    → Holds c.m_read_buffer xs
    → execute_loop kind (suc rounds) c u ≡ some (c, u)
unfolding execute_loop execute_round
execute_loop-NoStart kind rounds c u xs n h =
    elim (Bool-cases (is_not_positive (read_able c.m_read_buffer))) [
      | inl s ↦ simp s
      | inr s ↦ simp (s, decode-NoStart xs fresh_struct n h)
    ]
